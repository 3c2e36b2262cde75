-- ===== src/Entries/Netting.antt =====
-- How entry rows give up exposure: `_net_entry_row`, `_reduce_entry_ownership` and
-- `_close_entry_rows_when_flat` of pynecore_bybit/events.py, `_clampable_entry_rows`,
-- `_net_entry_rows_fifo` and `_clamp_entry_ownership_to_venue` of pynecore_bybit/positions.py. `eps`
-- is `_FILL_EPS`. A run without a store does nothing in any of them.
use pynecore_plugin_bybit.Prelude.{
  ℕ, ◌+◌, ◌-◌, Bool, not, ◌&&◌, ◌==◌, Option, none, some, List, [], ◌∷◌, keep, leb, ltb, sort_by,
  str_eq, String, if◌then◌else◌,
}
use pynecore_plugin_bybit.Entries.Store.{OrderRow, is_entry, venue_filled_qty, OrderStore}

abbrev pub older_entry : OrderRow → OrderRow → Bool
older_entry x y = ltb x.created_ts_ms y.created_ts_ms

-- an entry row of a side that owns exposure
unfoldable pub owns : ℕ → String → OrderRow → Bool
owns eps side row = str_eq row.side side && is_entry row.kind && ltb eps row.filled_qty

-- the same, settled: `row.state not in PENDING_DISPATCH_STATES`
unfoldable pub is_clampable : ℕ → String → OrderRow → Bool
is_clampable eps side row =
    str_eq row.side side && not row.pending_dispatch && is_entry row.kind && ltb eps row.filled_qty

-- one row of a position snapshot: its size as parsed, its side in lower case
pub record PositionRow : Type 0 where
  pub size : ℕ
  pub side : String

unfoldable pub lesser : ℕ → ℕ → ℕ
lesser a b = if leb a b then a else b

unfoldable pub owned_sum : List OrderRow → ℕ
owned_sum [] = 0
owned_sum (r ∷ rs) = r.filled_qty + owned_sum rs

-- `venue[side] += size` over the rows of one side
unfoldable pub venue_size : String → List PositionRow → ℕ
venue_size side [] = 0
venue_size side (r ∷ rs) =
    let rest = venue_size side rs in if str_eq r.side side then r.size + rest else rest

module _ (st : OrderStore) (eps : ℕ) where
  open st use {Book, live, close_order, upsert_order, record_complete, log_event}

  -- `_net_entry_row`
  unfoldable pub net_entry_row : OrderRow → ℕ → Book → Book
  net_entry_row row consumed s =
      if consumed == 0
      then s
      else if leb (row.qty - consumed) eps
      then close_order row.client_order_id s
      else upsert_order row.client_order_id (row.qty - consumed) (row.filled_qty - consumed)
          (venue_filled_qty row - row.filled_qty + consumed) s

  -- the loop of `_reduce_entry_ownership` over the rows
  unfoldable pub reduce_rows : List OrderRow → ℕ → Book → Book
  reduce_rows [] remaining s = s
  reduce_rows (r ∷ rs) remaining s =
      let consumed = lesser remaining r.filled_qty in
      let rest = reduce_rows rs (remaining - consumed) (net_entry_row r consumed s) in
      if leb remaining eps then s else rest

  -- `_reduce_entry_ownership`
  unfoldable pub reduce_entry_ownership : String → ℕ → Book → Book
  reduce_entry_ownership side qty s =
      let entry_side = if str_eq side "sell" then "buy" else "sell" in
      if qty == 0
      then s
      else reduce_rows (sort_by older_entry (keep (owns eps entry_side) (live s))) qty s

  -- `_clampable_entry_rows`
  unfoldable pub clampable_entry_rows : String → Book → List OrderRow
  clampable_entry_rows side s = sort_by older_entry (keep (is_clampable eps side) (live s))

  -- `_net_entry_rows_fifo`
  unfoldable pub net_entry_rows_fifo : List OrderRow → ℕ → String → Book → Book
  net_entry_rows_fifo [] remaining kind s = s
  net_entry_rows_fifo (r ∷ rs) remaining kind s =
      let consumed = lesser remaining r.filled_qty in
      let rest =
        net_entry_rows_fifo rs (remaining - consumed) kind
          (net_entry_row r consumed (log_event kind r consumed s)) in
      if leb remaining eps then s else rest

  -- `max(net, 0.0)` of the two sides of a one-way account
  unfoldable pub venue_of : Bool → String → List PositionRow → ℕ
  venue_of hedge side rows =
      let other = if str_eq side "buy" then "sell" else "buy" in
      if hedge then venue_size side rows else venue_size side rows - venue_size other rows

  -- the rows of both sides folded against each other, on a one-way account
  unfoldable pub fold_side : String → ℕ → Book → Book
  fold_side side folded s =
      net_entry_rows_fifo (clampable_entry_rows side s) folded "adoption_baseline_folded" s

  unfoldable pub fold_sides : Bool → Book → Book
  fold_sides hedge s =
      let folded =
        lesser (owned_sum (clampable_entry_rows "buy" s))
          (owned_sum (clampable_entry_rows "sell" s)) in
      if hedge
      then s
      else if ltb eps folded
      then fold_side "sell" folded (fold_side "buy" folded s)
      else s

  -- one side clamped to the venue
  unfoldable pub clamp_side : String → ℕ → Book → Book
  clamp_side side venue s =
      let rows = clampable_entry_rows side s in
      let excess = owned_sum rows - venue in
      if leb excess eps then s else net_entry_rows_fifo rows excess "adoption_baseline_clamped" s

  -- `_clamp_entry_ownership_to_venue`
  unfoldable pub clamp_entry_ownership_to_venue : Bool → List PositionRow → Book → Book
  clamp_entry_ownership_to_venue hedge rows s =
      clamp_side "sell" (venue_of hedge "sell" rows)
        (clamp_side "buy" (venue_of hedge "buy" rows) (fold_sides hedge s))

  -- the row is retired and its intent completed, if it has one
  unfoldable pub complete_intent : Option String → Book → Book
  complete_intent none s = s
  complete_intent (some key) s = record_complete key s

  -- a fully filled entry row without the defensive-close marker
  unfoldable pub is_spent : OrderRow → Bool
  is_spent row =
      is_entry row.kind && not row.defensive_close_pending && leb (row.qty - eps) row.filled_qty

  unfoldable pub close_rows : List OrderRow → Book → Book
  close_rows [] s = s
  close_rows (r ∷ rs) s =
      close_rows rs
        (if is_spent r then complete_intent r.intent_key (close_order r.client_order_id s) else s)

  -- `_close_entry_rows_when_flat`, from its flatness test on: `flat` is its outcome
  unfoldable pub close_entry_rows_when_flat : Bool → Book → Book
  close_entry_rows_when_flat flat s = if flat then close_rows (live s) s else s
