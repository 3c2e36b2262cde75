-- ===== src/Entries/Sweep.antt =====
-- The flat sweep, as one filter of the live rows.
use mathlib.Core.Path.{subst}
use pynecore_plugin_bybit.Prelude.{
  ℕ, ◌+◌, ◌-◌, ◌&&◌, ◌||◌, ltb, leb, arith, Bool, true, false, not, ◌≡◌, refl, sym, ap, ◌∙◌, inl,
  inr, Bool-cases, Option, none, some, List, [], ◌∷◌, keep, String, if◌then◌else◌,
}
use pynecore_plugin_bybit.Entries.Store.{
  RowKind, position, working, other, is_entry, OrderRow, without, OrderStore,
}
use pynecore_plugin_bybit.Entries.Netting.{
  complete_intent, is_spent, close_rows, close_entry_rows_when_flat,
}
use pynecore_plugin_bybit.Entries.Keys.{Free, Distinct, other_key, same_key, without-Free}

-- What a sweep must not close: no entry row, one marked for a defensive close, or one whose working
-- remainder is more than the tolerance.
abbrev pub stays_as : RowKind → Bool → Bool → Bool
stays_as other marked rests = true
stays_as position marked rests = marked || rests
stays_as working marked rests = marked || rests

abbrev pub stays : ℕ → OrderRow → Bool
stays eps r = stays_as r.kind r.defensive_close_pending (ltb (r.filled_qty + eps) r.qty)

abbrev pub add_key : Option String → List String → List String
add_key none keys = keys
add_key (some key) keys = key ∷ keys

-- the intents that are completed, before those that were
abbrev pub completes : ℕ → List OrderRow → List String → List String
completes eps [] keys = keys
completes eps (r ∷ rs) keys =
    completes eps rs (if stays eps r then keys else add_key r.intent_key keys)

not_spent_as :
    (eps : ℕ) (kind : RowKind) (marked : Bool) (qty filled : ℕ)
    → not (is_entry kind && not marked && leb (qty - eps) filled)
      ≡ stays_as kind marked (ltb (filled + eps) qty)
unfolding is_entry
not_spent_as eps position marked qty filled = ground arith
not_spent_as eps working marked qty filled = ground arith
not_spent_as eps other marked qty filled = refl

module _ (st : OrderStore) (eps : ℕ) where
  open st use {
    Book, live, completed, close_order, live-close_order, live-record_complete,
    completed-close_order, completed-record_complete,
  }

  -- the rows of a list that are spent taken out of another
  abbrev drop_spent : List OrderRow → List OrderRow → List OrderRow
  drop_spent [] rows = rows
  drop_spent (r ∷ rs) rows =
      drop_spent rs (if is_spent st eps r then without r.client_order_id rows else rows)

  complete_intent-live :
      (key : Option String) (s : Book) → live (complete_intent st eps key s) ≡ live s
  unfolding complete_intent
  complete_intent-live none s = refl
  complete_intent-live (some key) s = live-record_complete key s

  close_rows-live :
      (rs : List OrderRow) (s : Book) → live (close_rows st eps rs s) ≡ drop_spent rs (live s)
  unfolding close_rows
  close_rows-live [] s = refl
  close_rows-live (r ∷ rs) s = elim (Bool-cases (is_spent st eps r)) [
    | inl spent ↦
        let closed = close_order r.client_order_id s in
        simp spent (
          close_rows-live rs (complete_intent st eps r.intent_key closed)
          ∙ ap (drop_spent rs)
              (complete_intent-live r.intent_key closed ∙ live-close_order r.client_order_id s))
    | inr owning ↦ simp owning (close_rows-live rs s)
  ]

  drop_spent_past :
      (rs : List OrderRow) (x : OrderRow) (rows : List OrderRow)
      → Free x.client_order_id rs
      → drop_spent rs (x ∷ rows) ≡ x ∷ drop_spent rs rows
  unfolding without keep
  drop_spent_past [] x rows f = refl
  drop_spent_past (r ∷ rs) x rows f = elim (Bool-cases (is_spent st eps r)) [
    | inl spent ↦
        let other = other_key x.client_order_id r.client_order_id (λ e. f.0 (sym e)) in
        simp (spent, other) (drop_spent_past rs x (without r.client_order_id rows) f.1)
    | inr owning ↦ simp owning (drop_spent_past rs x rows f.1)
  ]

  drop_spent_self :
      (rows : List OrderRow)
      → Distinct rows
      → drop_spent rows rows ≡ keep (λ r. not (is_spent st eps r)) rows
  unfolding without keep
  drop_spent_self [] d = refl
  drop_spent_self (x ∷ xs) d = elim (Bool-cases (is_spent st eps x)) [
    | inl spent ↦
        simp (spent, same_key x.client_order_id)
          (ap (drop_spent xs) (without-Free x.client_order_id xs d.0) ∙ drop_spent_self xs d.1)
    | inr owning ↦ simp owning (drop_spent_past xs x xs d.0 ∙ ap (◌∷◌ x) (drop_spent_self xs d.1))
  ]

  not_spent : (r : OrderRow) → not (is_spent st eps r) ≡ stays eps r
  unfolding is_spent
  not_spent r = not_spent_as eps r.kind r.defensive_close_pending r.qty r.filled_qty

  keep-stays :
      (rows : List OrderRow) → keep (λ r. not (is_spent st eps r)) rows ≡ keep (stays eps) rows
  unfolding keep
  keep-stays [] = refl
  keep-stays (r ∷ rs) = rw (not_spent r, keep-stays rs) refl

  complete_intent-completed :
      (key : Option String) (s : Book)
      → completed (complete_intent st eps key s) ≡ add_key key (completed s)
  unfolding complete_intent
  complete_intent-completed none s = refl
  complete_intent-completed (some key) s = completed-record_complete key s

  close_rows-completed :
      (rs : List OrderRow) (s : Book)
      → completed (close_rows st eps rs s) ≡ completes eps rs (completed s)
  unfolding close_rows
  close_rows-completed [] s = refl
  close_rows-completed (r ∷ rs) s =
      close_rows-completed rs _ ∙ ap (completes eps rs) (go (is_spent st eps r) (not_spent r))
    where
      go :
          (spent : Bool)
          → not spent ≡ stays eps r
          → completed (
              if spent
              then complete_intent st eps r.intent_key (close_order r.client_order_id s)
              else s)
            ≡ (if stays eps r then completed s else add_key r.intent_key (completed s))
      go true e =
          subst
            (λ (b : Bool).
              completed (complete_intent st eps r.intent_key (close_order r.client_order_id s))
              ≡ (if b then completed s else add_key r.intent_key (completed s)))
            e
            (complete_intent-completed r.intent_key (close_order r.client_order_id s)
              ∙ ap (add_key r.intent_key) (completed-close_order r.client_order_id s))
      go false e =
          subst
            (λ (b : Bool).
              completed s ≡ (if b then completed s else add_key r.intent_key (completed s)))
            e refl

  sweep_flat :
      (s : Book)
      → Distinct (live s)
      → live (close_entry_rows_when_flat st eps true s) ≡ keep (stays eps) (live s)
  unfolding close_entry_rows_when_flat
  sweep_flat s d = close_rows-live (live s) s ∙ drop_spent_self (live s) d ∙ keep-stays (live s)

  -- On a flat position the sweep leaves exactly the live rows that may stay, unchanged and in their
  -- order: what is no entry row, has a working remainder beyond the tolerance or carries the marker of a
  -- defensive close; and of each row that it takes away it completes the intent, if there is one, and of
  -- no other. On a position that is not flat it changes neither. Each live row has its own key.
  pub close_entry_rows_when_flat-keeps :
      (flat : Bool) (s : Book)
      → Distinct (live s)
      → (live (close_entry_rows_when_flat st eps flat s)
          ≡ (if flat then keep (stays eps) (live s) else live s))
        × (completed (close_entry_rows_when_flat st eps flat s)
            ≡ (if flat then completes eps (live s) (completed s) else completed s))
  unfolding close_entry_rows_when_flat
  close_entry_rows_when_flat-keeps true s d = (sweep_flat s d, close_rows-completed (live s) s)
  close_entry_rows_when_flat-keeps false s d = (refl, refl)
