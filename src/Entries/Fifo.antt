-- ===== src/Entries/Fifo.antt =====
-- The netting of a whole queue of rows, oldest first: what it takes and what it leaves.
use pynecore_plugin_bybit.Prelude.{
  ℕ, ◌+◌, ◌-◌, ◌≤◌, ◌<◌, ◌⊎◌, Bool, true, ◌≡◌, inl, inr, List, [], ◌∷◌, leb, if_rule, arith,
}
use pynecore_plugin_bybit.Entries.Store.{OrderRow}
use pynecore_plugin_bybit.Entries.Netting.{lesser, owned_sum}
use pynecore_plugin_bybit.Entries.Keys.{Has, Free, Distinct, total}
use pynecore_plugin_bybit.Entries.Owned.{
  weight, net_row, net_all, IsPick, net_row_takes, net_row_at_most, net_row_never_adds,
  Distinct-net_row, Has-net_row,
}

lesser-cases : (a b : ℕ) → ((a ≤ b) × (lesser a b ≡ a)) ⊎ ((b < a) × (lesser a b ≡ b))
unfolding lesser
lesser-cases a b = ground arith

-- one `eps` for each row
abbrev pub slack : ℕ → List OrderRow → ℕ
slack eps [] = 0
slack eps (r ∷ rs) = eps + slack eps rs

-- rows of the list that a test picks, each filled within its quantity
abbrev pub AllPicked : (OrderRow → Bool) → List OrderRow → List OrderRow → Type 0
AllPicked p rows [] = Unit
AllPicked p rows (r ∷ rs) = (Has r rows × (p r ≡ true)) × AllPicked p rows rs

abbrev pub Sound : List OrderRow → Type 0
Sound [] = Unit
Sound (r ∷ rs) = (r.filled_qty ≤ r.qty) × Sound rs

module _ (eps : ℕ) {p : OrderRow → Bool} (k : IsPick eps p) where
  AllPicked-net_row :
      (r : OrderRow) (c : ℕ) (rows rs : List OrderRow)
      → Distinct rows
      → Has r rows
      → p r ≡ true
      → c ≤ r.filled_qty
      → Free r.client_order_id rs
      → AllPicked p rows rs
      → AllPicked p (net_row eps r c rows) rs
  AllPicked-net_row r c rows [] d h picked le free a = tt
  AllPicked-net_row r c rows (x ∷ rs) d h picked le free a = (
    (Has-net_row eps k r rows d h picked c le x free.0 a.0.0, a.0.1),
    AllPicked-net_row r c rows rs d h picked le free.1 a.1,
  )

  -- What is left is at most what was owned less the quantity, or nothing, up to `eps`; `x` is owned by
  -- other rows.
  pub net_all-leaves :
      (rs : List OrderRow) (q : ℕ) (rows : List OrderRow) (x : ℕ)
      → Distinct rows
      → Distinct rs
      → AllPicked p rows rs
      → total (weight p) rows ≤ owned_sum rs + x
      → total (weight p) (net_all eps rs q rows) + lesser q (owned_sum rs) ≤ owned_sum rs + x + eps
  unfolding owned_sum
  net_all-leaves [] q rows x d dr a le = unfold lesser in ground (arith, le)
  net_all-leaves (r ∷ rs) q rows x d dr a le =
      let c = lesser q r.filled_qty in
      if_rule
        (λ (o : List OrderRow).
          total (weight p) o + lesser q (r.filled_qty + owned_sum rs)
          ≤ r.filled_qty + owned_sum rs + x + eps)
        (leb q eps) _ _ (λ done. unfold lesser in ground (arith, le, done))
        (λ more. elim (lesser-cases q r.filled_qty) [
          | inl (within, e) ↦
              let cap : lesser q r.filled_qty ≤ r.filled_qty = omega (arith, within, e) in
              let takes = net_row_takes eps k r rows d a.0.0 a.0.1 c cap in
              let rest =
                net_all-leaves rs (q - c) (net_row eps r c rows) (x + (r.filled_qty - q))
                  (Distinct-net_row eps k r rows d a.0.0 a.0.1 c cap) dr.1
                  (AllPicked-net_row r c rows rs d a.0.0 a.0.1 cap dr.0 a.1)
                  (omega (arith, takes, le, e, within)) in
              let whole : lesser q (r.filled_qty + owned_sum rs) ≡ q =
                unfold lesser in ground (arith, within) in
              omega (arith, rest, whole, e, within)
          | inr (beyond, e) ↦
              let cap : lesser q r.filled_qty ≤ r.filled_qty = omega (arith, e) in
              let takes = net_row_takes eps k r rows d a.0.0 a.0.1 c cap in
              let rest =
                net_all-leaves rs (q - c) (net_row eps r c rows) x
                  (Distinct-net_row eps k r rows d a.0.0 a.0.1 c cap) dr.1
                  (AllPicked-net_row r c rows rs d a.0.0 a.0.1 cap dr.0 a.1)
                  (omega (arith, takes, le, e)) in
              let split : lesser q (r.filled_qty + owned_sum rs)
                  ≡ r.filled_qty + lesser (q - c) (owned_sum rs) =
                unfold lesser in ground (arith, beyond, e) in
              omega (arith, rest, split)
        ])

  -- It never takes more than the quantity, up to `eps` for each row.
  pub net_all-takes :
      (rs : List OrderRow) (q : ℕ) (rows : List OrderRow)
      → Distinct rows
      → Distinct rs
      → AllPicked p rows rs
      → Sound rs
      → total (weight p) rows ≤ total (weight p) (net_all eps rs q rows) + q + slack eps rs
  net_all-takes [] q rows d dr a s = omega arith
  net_all-takes (r ∷ rs) q rows d dr a s =
      let c = lesser q r.filled_qty in
      if_rule
        (λ (o : List OrderRow). total (weight p) rows ≤ total (weight p) o + q + slack eps (r ∷ rs))
        (leb q eps) _ _ (λ done. omega arith)
        (λ more.
          let bounds : (lesser q r.filled_qty ≤ r.filled_qty) × (lesser q r.filled_qty ≤ q) =
            unfold lesser in ground arith in
          let step = net_row_at_most eps k r rows d a.0.0 a.0.1 c bounds.0 s.0 in
          let rest =
            net_all-takes rs (q - c) (net_row eps r c rows)
              (Distinct-net_row eps k r rows d a.0.0 a.0.1 c bounds.0) dr.1
              (AllPicked-net_row r c rows rs d a.0.0 a.0.1 bounds.0 dr.0 a.1) s.1 in
          omega (arith, step, rest, bounds))

  pub Distinct-net_all :
      (rs : List OrderRow) (q : ℕ) (rows : List OrderRow)
      → Distinct rows
      → Distinct rs
      → AllPicked p rows rs
      → Distinct (net_all eps rs q rows)
  Distinct-net_all [] q rows d dr a = d
  Distinct-net_all (r ∷ rs) q rows d dr a =
      let c = lesser q r.filled_qty in
      let cap : lesser q r.filled_qty ≤ r.filled_qty = unfold lesser in ground arith in
      if_rule Distinct (leb q eps) _ _ (λ done. d)
        (λ more.
          Distinct-net_all rs (q - c) (net_row eps r c rows)
            (Distinct-net_row eps k r rows d a.0.0 a.0.1 c cap) dr.1
            (AllPicked-net_row r c rows rs d a.0.0 a.0.1 cap dr.0 a.1))

  -- Nor does it raise what any other test picks.
  pub net_all_never_adds :
      {p' : OrderRow → Bool} (k' : IsPick eps p') (rs : List OrderRow) (q : ℕ)
      (rows : List OrderRow)
      → Distinct rows
      → Distinct rs
      → AllPicked p rows rs
      → total (weight p') (net_all eps rs q rows) ≤ total (weight p') rows
  net_all_never_adds {p'} k' [] q rows d dr a = omega arith
  net_all_never_adds {p'} k' (r ∷ rs) q rows d dr a =
      let c = lesser q r.filled_qty in
      let cap : lesser q r.filled_qty ≤ r.filled_qty = unfold lesser in ground arith in
      if_rule (λ (x : List OrderRow). total (weight p') x ≤ total (weight p') rows) (leb q eps) _ _
        (λ done. omega arith)
        (λ more.
          let step = net_row_never_adds eps k' r c rows d a.0.0 in
          let rest =
            net_all_never_adds k' rs (q - c) (net_row eps r c rows)
              (Distinct-net_row eps k r rows d a.0.0 a.0.1 c cap) dr.1
              (AllPicked-net_row r c rows rs d a.0.0 a.0.1 cap dr.0 a.1) in
          omega (arith, step, rest))
