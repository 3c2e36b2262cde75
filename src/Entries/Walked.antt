-- ===== src/Entries/Walked.antt =====
-- The rows that the netting walks: those that a test picks, by age.
use pynecore_plugin_bybit.Prelude.{
  ℕ, ◌+◌, ◌≤◌, Bool, true, ◌≡◌, ◌≢◌, refl, sym, inl, inr, Bool-cases, List, [], ◌∷◌, keep,
  insert_by, sort_by, String, if_rule, arith,
}
use pynecore_plugin_bybit.Entries.Store.{OrderRow}
use pynecore_plugin_bybit.Entries.Netting.{owned_sum, older_entry}
use pynecore_plugin_bybit.Entries.Keys.{Has, Free, Distinct, total, Distinct-keep}
use pynecore_plugin_bybit.Entries.Owned.{weight}
use pynecore_plugin_bybit.Entries.Fifo.{slack, AllPicked, Sound}

module _ (p : OrderRow → Bool) where
  AllPicked-cons :
      (x : OrderRow) (xs rs : List OrderRow) → AllPicked p xs rs → AllPicked p (x ∷ xs) rs
  AllPicked-cons x xs [] a = tt
  AllPicked-cons x xs (r ∷ rs) a = ((inr a.0.0, a.0.1), AllPicked-cons x xs rs a.1)

  AllPicked-keep : (xs : List OrderRow) → AllPicked p xs (keep p xs)
  unfolding keep
  AllPicked-keep [] = tt
  AllPicked-keep (x ∷ xs) =
      if_rule (AllPicked p (x ∷ xs)) (p x) _ _
        (λ picked. ((inl refl, picked), AllPicked-cons x xs (keep p xs) (AllPicked-keep xs)))
        (λ other. AllPicked-cons x xs (keep p xs) (AllPicked-keep xs))

  AllPicked-insert_by :
      (r : OrderRow) (xs rs : List OrderRow)
      → Has r xs × (p r ≡ true)
      → AllPicked p xs rs
      → AllPicked p xs (insert_by older_entry r rs)
  unfolding insert_by
  AllPicked-insert_by r xs [] h a = (h, tt)
  AllPicked-insert_by r xs (y ∷ rs) h a =
      if_rule (AllPicked p xs) (older_entry y r) _ _
        (λ below. (a.0, AllPicked-insert_by r xs rs h a.1)) (λ above. (h, a))

  pub AllPicked-sort_by :
      (xs rs : List OrderRow) → AllPicked p xs rs → AllPicked p xs (sort_by older_entry rs)
  unfolding sort_by
  AllPicked-sort_by xs [] a = tt
  AllPicked-sort_by xs (r ∷ rs) a =
      AllPicked-insert_by r xs (sort_by older_entry rs) a.0 (AllPicked-sort_by xs rs a.1)

  sum-keep : (xs : List OrderRow) → total (weight p) xs ≡ owned_sum (keep p xs)
  unfolding keep owned_sum
  sum-keep [] = omega arith
  sum-keep (x ∷ xs) = elim (Bool-cases (p x)) [
    | inl picked ↦ rw picked (omega (arith, sum-keep xs))
    | inr other ↦ rw other (omega (arith, sum-keep xs))
  ]

sum-insert_by :
    (r : OrderRow) (rs : List OrderRow)
    → owned_sum (insert_by older_entry r rs) ≡ r.filled_qty + owned_sum rs
unfolding insert_by owned_sum
sum-insert_by r [] = omega arith
sum-insert_by r (y ∷ rs) =
    if_rule (λ (xs : List OrderRow). owned_sum xs ≡ r.filled_qty + (y.filled_qty + owned_sum rs))
      (older_entry y r) _ _ (λ below. omega (arith, sum-insert_by r rs)) (λ above. omega arith)

sum-sort_by : (rs : List OrderRow) → owned_sum (sort_by older_entry rs) ≡ owned_sum rs
unfolding sort_by owned_sum
sum-sort_by [] = omega arith
sum-sort_by (r ∷ rs) = omega (arith, sum-insert_by r (sort_by older_entry rs), sum-sort_by rs)

slack-insert_by :
    (eps : ℕ) (r : OrderRow) (rs : List OrderRow)
    → slack eps (insert_by older_entry r rs) ≡ eps + slack eps rs
unfolding insert_by
slack-insert_by eps r [] = omega arith
slack-insert_by eps r (y ∷ rs) =
    if_rule (λ (xs : List OrderRow). slack eps xs ≡ eps + (eps + slack eps rs)) (older_entry y r) _
      _ (λ below. omega (arith, slack-insert_by eps r rs)) (λ above. omega arith)

slack-sort_by : (eps : ℕ) (rs : List OrderRow) → slack eps (sort_by older_entry rs) ≡ slack eps rs
unfolding sort_by
slack-sort_by eps [] = omega arith
slack-sort_by eps (r ∷ rs) =
    omega (arith, slack-insert_by eps r (sort_by older_entry rs), slack-sort_by eps rs)

slack-keep :
    (eps : ℕ) (p : OrderRow → Bool) (rs : List OrderRow) → slack eps (keep p rs) ≤ slack eps rs
unfolding keep
slack-keep eps p [] = omega arith
slack-keep eps p (r ∷ rs) =
    if_rule (λ (xs : List OrderRow). slack eps xs ≤ eps + slack eps rs) (p r) _ _
      (λ picked. omega (arith, slack-keep eps p rs)) (λ other. omega (arith, slack-keep eps p rs))

Free-insert_by :
    (key : String) (r : OrderRow) (rs : List OrderRow)
    → r.client_order_id ≢ key
    → Free key rs
    → Free key (insert_by older_entry r rs)
unfolding insert_by
Free-insert_by key r [] ne h = (ne, tt)
Free-insert_by key r (y ∷ rs) ne h =
    if_rule (Free key) (older_entry y r) _ _ (λ below. (h.0, Free-insert_by key r rs ne h.1))
      (λ above. (ne, h))

Distinct-insert_by :
    (r : OrderRow) (rs : List OrderRow)
    → Free r.client_order_id rs
    → Distinct rs
    → Distinct (insert_by older_entry r rs)
unfolding insert_by
Distinct-insert_by r [] f d = (tt, tt)
Distinct-insert_by r (y ∷ rs) f d =
    if_rule Distinct (older_entry y r) _ _
      (λ below. (
        Free-insert_by y.client_order_id r rs (λ e. f.0 (sym e)) d.0,
        Distinct-insert_by r rs f.1 d.1,
      ))
      (λ above. (f, d))

Free-sort_by : (key : String) (rs : List OrderRow) → Free key rs → Free key (sort_by older_entry rs)
unfolding sort_by
Free-sort_by key [] h = tt
Free-sort_by key (r ∷ rs) h =
    Free-insert_by key r (sort_by older_entry rs) h.0 (Free-sort_by key rs h.1)

Distinct-sort_by : (rs : List OrderRow) → Distinct rs → Distinct (sort_by older_entry rs)
unfolding sort_by
Distinct-sort_by [] d = tt
Distinct-sort_by (r ∷ rs) d =
    Distinct-insert_by r (sort_by older_entry rs) (Free-sort_by r.client_order_id rs d.0)
      (Distinct-sort_by rs d.1)

Sound-insert_by :
    (r : OrderRow) (rs : List OrderRow)
    → r.filled_qty ≤ r.qty
    → Sound rs
    → Sound (insert_by older_entry r rs)
unfolding insert_by
Sound-insert_by r [] h s = (h, tt)
Sound-insert_by r (y ∷ rs) h s =
    if_rule Sound (older_entry y r) _ _ (λ below. (s.0, Sound-insert_by r rs h s.1))
      (λ above. (h, s))

Sound-sort_by : (rs : List OrderRow) → Sound rs → Sound (sort_by older_entry rs)
unfolding sort_by
Sound-sort_by [] s = tt
Sound-sort_by (r ∷ rs) s = Sound-insert_by r (sort_by older_entry rs) s.0 (Sound-sort_by rs s.1)

Sound-keep : (p : OrderRow → Bool) (rs : List OrderRow) → Sound rs → Sound (keep p rs)
unfolding keep
Sound-keep p [] s = tt
Sound-keep p (r ∷ rs) s =
    if_rule Sound (p r) _ _ (λ picked. (s.0, Sound-keep p rs s.1)) (λ other. Sound-keep p rs s.1)

-- The walked rows are picked from the live ones, each once, and hold what the test picks.
module _ (eps : ℕ) (p : OrderRow → Bool) (rows : List OrderRow) where
  pub picked_rows : AllPicked p rows (sort_by older_entry (keep p rows))
  picked_rows = AllPicked-sort_by p rows (keep p rows) (AllPicked-keep p rows)

  pub picked_sum : owned_sum (sort_by older_entry (keep p rows)) ≡ total (weight p) rows
  picked_sum = omega (arith, sum-sort_by (keep p rows), sum-keep p rows)

  pub picked-Distinct : Distinct rows → Distinct (sort_by older_entry (keep p rows))
  picked-Distinct d = Distinct-sort_by (keep p rows) (Distinct-keep p rows d)

  pub picked-Sound : Sound rows → Sound (sort_by older_entry (keep p rows))
  picked-Sound s = Sound-sort_by (keep p rows) (Sound-keep p rows s)

  pub picked_slack : slack eps (sort_by older_entry (keep p rows)) ≤ slack eps rows
  picked_slack = omega (arith, slack-sort_by eps (keep p rows), slack-keep eps p rows)
