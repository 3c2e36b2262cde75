-- ===== src/Entries/Keys.antt =====
-- Lists of rows under their keys: what a change of one row does to a sum over all of them.
use mathlib.Core.Path.{subst}
use pynecore_plugin_bybit.Prelude.{
  ℕ, ◌+◌, Bool, true, false, not, ◌≡◌, ◌≢◌, refl, sym, ap, ◌⊎◌, inl, inr, Bool-cases, List, [], ◌∷◌,
  keep, str_eq, eq_iff, String, if_rule, arith,
}
use pynecore_plugin_bybit.Entries.Store.{OrderRow, without, changed}

abbrev pub Has : OrderRow → List OrderRow → Type 0
Has r [] = ⊥
Has r (x ∷ xs) = (x ≡ r) ⊎ Has r xs

-- no row has this key
abbrev pub Free : String → List OrderRow → Type 0
Free id [] = Unit
Free id (x ∷ xs) = (x.client_order_id ≢ id) × Free id xs

abbrev pub Distinct : List OrderRow → Type 0
Distinct [] = Unit
Distinct (x ∷ xs) = Free x.client_order_id xs × Distinct xs

abbrev pub total : (OrderRow → ℕ) → List OrderRow → ℕ
total w [] = 0
total w (x ∷ xs) = w x + total w xs

pub other_key : (a b : String) → a ≢ b → str_eq a b ≡ false
other_key a b ne = elim (Bool-cases (str_eq a b)) [
  | inl same ↦ absurd (ne ((eq_iff a b).0 same))
  | inr other ↦ other
]

pub same_key : (a : String) → str_eq a a ≡ true
same_key a = (eq_iff a a).1 refl

pub Free-Has :
    (id : String) (r : OrderRow) (xs : List OrderRow)
    → Free id xs
    → Has r xs
    → r.client_order_id ≢ id
Free-Has id r [] f h = absurd h
Free-Has id r (x ∷ xs) f (inl e) = subst (λ (y : OrderRow). y.client_order_id ≢ id) e f.0
Free-Has id r (x ∷ xs) f (inr h) = Free-Has id r xs f.1 h

module _ (id : String) where
  changed-Free : (f : OrderRow → OrderRow) (xs : List OrderRow) → Free id xs → changed id f xs ≡ xs
  unfolding changed
  changed-Free f [] h = refl
  changed-Free f (x ∷ xs) h =
      rw (other_key x.client_order_id id h.0) (ap (◌∷◌ x) (changed-Free f xs h.1))

  pub without-Free : (xs : List OrderRow) → Free id xs → without id xs ≡ xs
  unfolding without keep
  without-Free [] h = refl
  without-Free (x ∷ xs) h =
      rw (other_key x.client_order_id id h.0) (ap (◌∷◌ x) (without-Free xs h.1))

  -- the rows of other keys stay
  pub Has-changed :
      (f : OrderRow → OrderRow) (r : OrderRow) (xs : List OrderRow)
      → r.client_order_id ≢ id
      → Has r xs
      → Has r (changed id f xs)
  unfolding changed
  Has-changed f r [] ne h = h
  Has-changed f r (x ∷ xs) ne (inr h) = inr (Has-changed f r xs ne h)
  Has-changed f r (x ∷ xs) ne (inl e) =
      let other =
        other_key x.client_order_id id
          (subst (λ (y : OrderRow). y.client_order_id ≢ id) (sym e) ne) in
      inl (simp other e)

  pub Has-without :
      (r : OrderRow) (xs : List OrderRow)
      → r.client_order_id ≢ id
      → Has r xs
      → Has r (without id xs)
  unfolding without keep
  Has-without r [] ne h = h
  Has-without r (x ∷ xs) ne (inr h) =
      if_rule (Has r) (not (str_eq x.client_order_id id)) _ _ (λ kept. inr (Has-without r xs ne h))
        (λ gone. Has-without r xs ne h)
  Has-without r (x ∷ xs) ne (inl e) =
      let other =
        other_key x.client_order_id id
          (subst (λ (y : OrderRow). y.client_order_id ≢ id) (sym e) ne) in
      if_rule (Has r) (not (str_eq x.client_order_id id)) _ _ (λ kept. inl e) (λ gone. absurd cc)

  -- a change that keeps the key keeps all keys
  Free-changed :
      (f : OrderRow → OrderRow) (key : String) (xs : List OrderRow)
      → ((x : OrderRow) → (f x).client_order_id ≡ x.client_order_id)
      → Free key xs
      → Free key (changed id f xs)
  unfolding changed
  Free-changed f key [] same h = tt
  Free-changed f key (x ∷ xs) same h = (
    if_rule (λ (y : OrderRow). y.client_order_id ≢ key) (str_eq x.client_order_id id) _ _
        (λ hit. subst (λ (k : String). k ≢ key) (sym (same x)) h.0) (λ miss. h.0),
    Free-changed f key xs same h.1,
  )

  pub Distinct-changed :
      (f : OrderRow → OrderRow) (xs : List OrderRow)
      → ((x : OrderRow) → (f x).client_order_id ≡ x.client_order_id)
      → Distinct xs
      → Distinct (changed id f xs)
  unfolding changed
  Distinct-changed f [] same h = tt
  Distinct-changed f (x ∷ xs) same h = (
    if_rule (λ (y : OrderRow). Free y.client_order_id (changed id f xs))
        (str_eq x.client_order_id id) _ _
        (λ hit.
          subst (λ (k : String). Free k (changed id f xs)) (sym (same x))
            (Free-changed f x.client_order_id xs same h.0))
        (λ miss. Free-changed f x.client_order_id xs same h.0),
    Distinct-changed f xs same h.1,
  )

module _ (p : OrderRow → Bool) where
  pub Free-keep : (key : String) (xs : List OrderRow) → Free key xs → Free key (keep p xs)
  unfolding keep
  Free-keep key [] h = tt
  Free-keep key (x ∷ xs) h =
      if_rule (Free key) (p x) _ _ (λ kept. (h.0, Free-keep key xs h.1))
        (λ gone. Free-keep key xs h.1)

  pub Distinct-keep : (xs : List OrderRow) → Distinct xs → Distinct (keep p xs)
  unfolding keep
  Distinct-keep [] h = tt
  Distinct-keep (x ∷ xs) h =
      if_rule Distinct (p x) _ _
        (λ kept. (Free-keep x.client_order_id xs h.0, Distinct-keep xs h.1))
        (λ gone. Distinct-keep xs h.1)

pub Distinct-without : (id : String) (xs : List OrderRow) → Distinct xs → Distinct (without id xs)
unfolding without
Distinct-without id xs h = Distinct-keep _ xs h

-- A change of a row changes a sum by what it changes of that row.
pub total-changed :
    (w : OrderRow → ℕ) (f : OrderRow → OrderRow) (r : OrderRow) (xs : List OrderRow)
    → Distinct xs
    → Has r xs
    → total w (changed r.client_order_id f xs) + w r ≡ total w xs + w (f r)
unfolding changed
total-changed w f r [] d h = absurd h
total-changed w f r (x ∷ xs) d (inl e) =
    subst
      (λ (y : OrderRow).
        total w (changed y.client_order_id f (x ∷ xs)) + w y ≡ total w (x ∷ xs) + w (f y))
      e (rw (same_key x.client_order_id, changed-Free x.client_order_id f xs d.0) (omega arith))
total-changed w f r (x ∷ xs) d (inr h) =
    let ne = Free-Has x.client_order_id r xs d.0 h in
    let other = other_key x.client_order_id r.client_order_id (λ e. ne (sym e)) in
    let rest = total-changed w f r xs d.1 h in rw other (omega (arith, rest))

pub total-without :
    (w : OrderRow → ℕ) (r : OrderRow) (xs : List OrderRow)
    → Distinct xs
    → Has r xs
    → total w (without r.client_order_id xs) + w r ≡ total w xs
unfolding without keep
total-without w r [] d h = absurd h
total-without w r (x ∷ xs) d (inl e) =
    subst (λ (y : OrderRow). total w (without y.client_order_id (x ∷ xs)) + w y ≡ total w (x ∷ xs))
      e
      (rw (same_key x.client_order_id)
        (omega (arith, ap (total w) (without-Free x.client_order_id xs d.0))))
total-without w r (x ∷ xs) d (inr h) =
    let ne = Free-Has x.client_order_id r xs d.0 h in
    let other = other_key x.client_order_id r.client_order_id (λ e. ne (sym e)) in
    let rest = total-without w r xs d.1 h in rw other (omega (arith, rest))
