-- ===== src/Stops/Recovered.antt =====
-- What the search of the execution history finds (`_unbooked_executions` of pynecore_bybit/events.py).
use pynecore_plugin_bybit.Prelude.{
  ℕ, zero, suc, Bool, true, false, not, ◌&&◌, ◌||◌, ◌≡◌, ◌⊎◌, refl, ap, ◌∙◌, ltb, if_rule, List, [],
  ◌∷◌, ◌++◌, some_of, sort_by, insert_by, if◌then◌else◌, str_eq, eq_iff, String, arith,
}
use pynecore_plugin_bybit.Stops.Downtime.{ExecRow, one_of, sorts_before}
use pynecore_plugin_bybit.Stops.Unbooked.{has_id, is_new, note, window_stop}

abbrev pub In : ExecRow → List ExecRow → Type 0
In e [] = ⊥
In e (x ∷ xs) = (x ≡ e) ⊎ In e xs

abbrev pub Window : Type 0
Window = ℕ × ℕ

-- the windows that the search reads, as their two ends
unfoldable pub windows : ℕ → ℕ → ℕ → List Window
unfolding window_stop
windows floor zero start = []
windows floor (suc n) start =
    let rest = windows floor n (window_stop start floor) in
    if ltb start floor then (start, window_stop start floor) ∷ rest else []

or_assoc : (a b c : Bool) → (a || (b || c)) ≡ ((a || b) || c)
or_assoc a b c = ground arith

or_swap : (a b c : Bool) → (a || (b || c)) ≡ (b || (a || c))
or_swap a b c = ground arith

or_false : (a : Bool) → (a || false) ≡ (false || a)
or_false a = ground arith

or_true : (a b : Bool) → b ≡ true → (a || b) ≡ true
or_true a b h = ground arith

new_parts :
    (a b h k : Bool)
    → (not a && not b && not h && k) ≡ true
    → (a ≡ false) × (b ≡ false) × (k ≡ true)
new_parts a b h k e = ground arith

old_parts :
    (a b h k : Bool)
    → (not a && not b && not h && k) ≡ false
    → (a ≡ false) × (b ≡ false) × (k ≡ true)
    → h ≡ true
old_parts a b h k e w = ground arith

has_id-append :
    (id : String) (xs : List ExecRow) (e : ExecRow)
    → has_id id (xs ++ e ∷ []) ≡ (has_id id xs || str_eq e.exec_id id)
unfolding has_id some_of
has_id-append id [] e = or_false (str_eq e.exec_id id)
has_id-append id (x ∷ xs) e =
    ap (λ b. str_eq x.exec_id id || b) (has_id-append id xs e)
    ∙ or_assoc (str_eq x.exec_id id) (has_id id xs) (str_eq e.exec_id id)

has_id-insert_by :
    (id : String) (e : ExecRow) (xs : List ExecRow)
    → has_id id (insert_by sorts_before e xs) ≡ (str_eq e.exec_id id || has_id id xs)
unfolding has_id some_of insert_by
has_id-insert_by id e [] = refl
has_id-insert_by id e (x ∷ xs) =
    if_rule (λ ys. has_id id ys ≡ (str_eq e.exec_id id || (str_eq x.exec_id id || has_id id xs)))
      (sorts_before x e) _ _
      (λ _.
        ap (λ b. str_eq x.exec_id id || b) (has_id-insert_by id e xs)
        ∙ or_swap (str_eq x.exec_id id) (str_eq e.exec_id id) (has_id id xs))
      (λ _. refl)

pub has_id-sort_by :
    (id : String) (xs : List ExecRow) → has_id id (sort_by sorts_before xs) ≡ has_id id xs
unfolding has_id some_of sort_by
has_id-sort_by id [] = refl
has_id-sort_by id (x ∷ xs) =
    has_id-insert_by id x (sort_by sorts_before xs)
    ∙ ap (λ b. str_eq x.exec_id id || b) (has_id-sort_by id xs)

module _ (booked : List String) (keeps : ExecRow → Bool) where
  -- a row with an id, which the audit trail did not record, and which the caller keeps
  abbrev pub Wanted : ExecRow → Type 0
  Wanted e = (str_eq e.exec_id "" ≡ false) × (one_of e.exec_id booked ≡ false) × (keeps e ≡ true)

  abbrev pub AllWanted : List ExecRow → Type 0
  AllWanted [] = Unit
  AllWanted (e ∷ es) = Wanted e × AllWanted es

  append-AllWanted :
      (xs : List ExecRow) (e : ExecRow) → AllWanted xs → Wanted e → AllWanted (xs ++ e ∷ [])
  append-AllWanted [] e h w = (w, tt)
  append-AllWanted (x ∷ xs) e h w = (h.0, append-AllWanted xs e h.1 w)

  insert_by-AllWanted :
      (e : ExecRow) (xs : List ExecRow)
      → Wanted e
      → AllWanted xs
      → AllWanted (insert_by sorts_before e xs)
  unfolding insert_by
  insert_by-AllWanted e [] w h = (w, tt)
  insert_by-AllWanted e (x ∷ xs) w h =
      if_rule AllWanted (sorts_before x e) _ _ (λ _. (h.0, insert_by-AllWanted e xs w h.1))
        (λ _. (w, h))

  pub sort_by-AllWanted : (xs : List ExecRow) → AllWanted xs → AllWanted (sort_by sorts_before xs)
  unfolding sort_by
  sort_by-AllWanted [] h = tt
  sort_by-AllWanted (x ∷ xs) h =
      insert_by-AllWanted x (sort_by sorts_before xs) h.0 (sort_by-AllWanted xs h.1)

  pub note-AllWanted :
      (rows : List ExecRow) (e : ExecRow) → AllWanted rows → AllWanted (note booked keeps rows e)
  unfolding note is_new
  note-AllWanted rows e h =
      if_rule AllWanted (is_new booked keeps rows e) _ _
        (λ new. append-AllWanted rows e h (
          new_parts (str_eq e.exec_id "") (one_of e.exec_id booked) (has_id e.exec_id rows)
            (keeps e) new))
        (λ _. h)

  pub note-keeps :
      (id : String) (rows : List ExecRow) (e : ExecRow)
      → has_id id rows ≡ true
      → has_id id (note booked keeps rows e) ≡ true
  unfolding note
  note-keeps id rows e h =
      if_rule (λ ys. has_id id ys ≡ true) (is_new booked keeps rows e) _ _
        (λ _. has_id-append id rows e ∙ ap (λ b. b || str_eq e.exec_id id) h) (λ _. h)

  pub note-finds :
      (rows : List ExecRow) (e : ExecRow)
      → Wanted e
      → has_id e.exec_id (note booked keeps rows e) ≡ true
  unfolding note is_new
  note-finds rows e w =
      if_rule (λ ys. has_id e.exec_id ys ≡ true) (is_new booked keeps rows e) _ _
        (λ _.
          has_id-append e.exec_id rows e
          ∙ or_true (has_id e.exec_id rows) (str_eq e.exec_id e.exec_id)
              ((eq_iff e.exec_id e.exec_id).1 refl))
        (λ old.
          old_parts (str_eq e.exec_id "") (one_of e.exec_id booked) (has_id e.exec_id rows)
            (keeps e) old w)
