-- ===== src/Entries/Owned.antt =====
-- How much of the owned exposure the netting takes: the operations on the store, seen on its live rows.
use pynecore_plugin_bybit.Prelude.{
  ℕ, ◌+◌, ◌-◌, ◌≤◌, ◌<◌, Bool, true, ◌==◌, ◌≡◌, ◌≢◌, refl, sym, ap, ◌∙◌, inl, inr, Bool-cases, List,
  [], ◌∷◌, leb, String, if◌then◌else◌, if_rule, arith,
}
use pynecore_plugin_bybit.Entries.Store.{
  OrderRow, venue_filled_qty, without, changed, netted_row, OrderStore,
}
use pynecore_plugin_bybit.Entries.Netting.{lesser, net_entry_row, reduce_rows, net_entry_rows_fifo}
use pynecore_plugin_bybit.Entries.Keys.{
  Has, Distinct, total, Has-changed, Has-without, Distinct-changed, Distinct-without, total-changed,
  total-without,
}

-- the quantity of the rows that a test picks
abbrev pub weight : (OrderRow → Bool) → OrderRow → ℕ
weight p r = if p r then r.filled_qty else 0

module _ (eps : ℕ) where
  -- the row after `c` of it was netted
  abbrev pub less : OrderRow → ℕ → OrderRow → OrderRow
  less r c = netted_row (r.qty - c) (r.filled_qty - c) (venue_filled_qty r - r.filled_qty + c)

  -- `_net_entry_row` on the live rows
  abbrev pub net_row : OrderRow → ℕ → List OrderRow → List OrderRow
  net_row r c rows =
      if c == 0
      then rows
      else if leb (r.qty - c) eps
      then without r.client_order_id rows
      else changed r.client_order_id (less r c) rows

  abbrev pub net_all : List OrderRow → ℕ → List OrderRow → List OrderRow
  net_all [] q rows = rows
  net_all (r ∷ rs) q rows =
      let c = lesser q r.filled_qty in
      let rest = net_all rs (q - c) (net_row r c rows) in if leb q eps then rows else rest

  module _ (st : OrderStore) where
    open st use {Book, live, log_event, live-close_order, live-upsert_order, live-log_event}

    pub net_entry_row-live :
        (r : OrderRow) (c : ℕ) (s : Book) → live (net_entry_row st eps r c s) ≡ net_row r c (live s)
    unfolding net_entry_row
    net_entry_row-live r c s = elim (Bool-cases (c == 0)) [
      | inl nothing ↦ rw nothing refl
      | inr some_part ↦ elim (Bool-cases (leb (r.qty - c) eps)) [
        | inl spent ↦ rw (some_part, spent) (live-close_order r.client_order_id s)
        | inr left ↦ rw (some_part, left) (live-upsert_order r.client_order_id _ _ _ s)
      ]
    ]

    pub reduce_rows-live :
        (rs : List OrderRow) (q : ℕ) (s : Book)
        → live (reduce_rows st eps rs q s) ≡ net_all rs q (live s)
    unfolding reduce_rows
    reduce_rows-live [] q s = refl
    reduce_rows-live (r ∷ rs) q s =
        let c = lesser q r.filled_qty in
        let rest = reduce_rows-live rs (q - c) (net_entry_row st eps r c s) in
        let step = ap (net_all rs (q - c)) (net_entry_row-live r c s) in
        elim (Bool-cases (leb q eps)) [ inl done ↦ rw done refl | inr more ↦ rw more (rest ∙ step) ]

    pub net_entry_rows_fifo-live :
        (rs : List OrderRow) (q : ℕ) (kind : String) (s : Book)
        → live (net_entry_rows_fifo st eps rs q kind s) ≡ net_all rs q (live s)
    unfolding net_entry_rows_fifo
    net_entry_rows_fifo-live [] q kind s = refl
    net_entry_rows_fifo-live (r ∷ rs) q kind s =
        let c = lesser q r.filled_qty in
        let logged = log_event kind r c s in
        let rest = net_entry_rows_fifo-live rs (q - c) kind (net_entry_row st eps r c logged) in
        let step =
          ap (net_all rs (q - c))
            (net_entry_row-live r c logged ∙ ap (net_row r c) (live-log_event kind r c s)) in
        elim (Bool-cases (leb q eps)) [ inl done ↦ rw done refl | inr more ↦ rw more (rest ∙ step) ]

    -- The netting at adoption leaves the live rows that the netting of a fill leaves, whatever the
    -- rows and the quantity.
    pub net_entry_rows_fifo-reduce_rows :
        (rs : List OrderRow) (q : ℕ) (kind : String) (s : Book)
        → live (net_entry_rows_fifo st eps rs q kind s) ≡ live (reduce_rows st eps rs q s)
    net_entry_rows_fifo-reduce_rows rs q kind s =
        net_entry_rows_fifo-live rs q kind s ∙ sym (reduce_rows-live rs q s)

  -- A test on rows that looks at the filled quantity only to see whether it is above `eps`.
  pub record IsPick (p : OrderRow → Bool) : Type 0 where
    pub stays : (r : OrderRow) (q f n : ℕ) → p r ≡ true → eps < f → p (netted_row q f n r) ≡ true
    pub came :
        (r : OrderRow) (q f n : ℕ) → f ≤ r.filled_qty → p (netted_row q f n r) ≡ true → p r ≡ true

  lesser-le : (a b : ℕ) → lesser a b ≤ b
  unfolding lesser
  lesser-le a b = ground arith

  module _ {p : OrderRow → Bool} (k : IsPick p) (r : OrderRow) (rows : List OrderRow)
      (d : Distinct rows) (h : Has r rows) (picked : p r ≡ true) (c : ℕ)
      (le : c ≤ r.filled_qty) where
    weight_now : weight p r ≡ r.filled_qty
    weight_now = rw picked refl

    weight_less : weight p (less r c r) ≤ r.filled_qty - c
    unfolding netted_row
    weight_less =
        if_rule (λ (n : ℕ). n ≤ r.filled_qty - c) (p (less r c r)) _ _ (λ still. omega arith)
          (λ gone. omega arith)

    weight_more : r.filled_qty - c ≤ weight p (less r c r) + eps
    weight_more = elim (Bool-cases (leb (r.filled_qty - c) eps)) [
      | inl small ↦ ground (arith, small)
      | inr big ↦
          let still =
            k.stays r (r.qty - c) (r.filled_qty - c) (venue_filled_qty r - r.filled_qty + c) picked
              (ground (arith, big)) in
          rw still (unfold netted_row in omega arith)
    ]

    pub net_row_takes : total (weight p) (net_row r c rows) + c ≤ total (weight p) rows
    net_row_takes =
        if_rule (λ (x : List OrderRow). total (weight p) x + c ≤ total (weight p) rows) (c == 0) _ _
          (λ nothing. ground (arith, nothing))
          (λ part.
            if_rule (λ (x : List OrderRow). total (weight p) x + c ≤ total (weight p) rows)
              (leb (r.qty - c) eps) _ _
              (λ spent. omega (arith, total-without (weight p) r rows d h, weight_now, le))
              (λ left. omega (
                arith,
                total-changed (weight p) (less r c) r rows d h,
                weight_now,
                weight_less,
                le,
              )))

    pub net_row_at_most :
        r.filled_qty ≤ r.qty → total (weight p) rows ≤ total (weight p) (net_row r c rows) + c + eps
    net_row_at_most filled =
        if_rule (λ (x : List OrderRow). total (weight p) rows ≤ total (weight p) x + c + eps)
          (c == 0) _ _ (λ nothing. omega arith)
          (λ part.
            if_rule (λ (x : List OrderRow). total (weight p) rows ≤ total (weight p) x + c + eps)
              (leb (r.qty - c) eps) _ _
              (λ spent.
                let small : r.qty ≤ c + eps = ground (arith, spent) in
                omega (arith, total-without (weight p) r rows d h, weight_now, small, filled))
              (λ left.
                omega
                  (arith, total-changed (weight p) (less r c) r rows d h, weight_now, weight_more)))

    pub Distinct-net_row : Distinct (net_row r c rows)
    unfolding netted_row
    Distinct-net_row =
        if_rule Distinct (c == 0) _ _ (λ nothing. d)
          (λ part.
            if_rule Distinct (leb (r.qty - c) eps) _ _
              (λ spent. Distinct-without r.client_order_id rows d)
              (λ left. Distinct-changed r.client_order_id (less r c) rows (λ x. refl) d))

    pub Has-net_row :
        (x : OrderRow)
        → x.client_order_id ≢ r.client_order_id
        → Has x rows
        → Has x (net_row r c rows)
    Has-net_row x ne hx =
        if_rule (Has x) (c == 0) _ _ (λ nothing. hx)
          (λ part.
            if_rule (Has x) (leb (r.qty - c) eps) _ _
              (λ spent. Has-without r.client_order_id x rows ne hx)
              (λ left. Has-changed r.client_order_id (less r c) x rows ne hx))

  -- Netting any row raises the exposure of no test.
  pub net_row_never_adds :
      {p : OrderRow → Bool} (k : IsPick p) (r : OrderRow) (c : ℕ) (rows : List OrderRow)
      → Distinct rows
      → Has r rows
      → total (weight p) (net_row r c rows) ≤ total (weight p) rows
  unfolding netted_row
  net_row_never_adds {p} k r c rows d h =
      let below : weight p (less r c r) ≤ weight p r =
        if_rule (λ (n : ℕ). n ≤ weight p r) (p (less r c r)) _ _
          (λ still.
            let before =
              k.came r (r.qty - c) (r.filled_qty - c) (venue_filled_qty r - r.filled_qty + c)
                (omega arith) still in
            rw before (omega arith))
          (λ gone. omega arith) in
      if_rule (λ (x : List OrderRow). total (weight p) x ≤ total (weight p) rows) (c == 0) _ _
        (λ nothing. omega arith)
        (λ part.
          if_rule (λ (x : List OrderRow). total (weight p) x ≤ total (weight p) rows)
            (leb (r.qty - c) eps) _ _ (λ spent. omega (arith, total-without (weight p) r rows d h))
            (λ left. omega (arith, total-changed (weight p) (less r c) r rows d h, below)))
