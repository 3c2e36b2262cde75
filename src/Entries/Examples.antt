-- ===== src/Entries/Examples.antt =====
-- The entry rows on a store that keeps its rows in a list: two buys, a sell that still works, an exit.
use pynecore_plugin_bybit.Prelude.{
  ℕ, ◌+◌, ◌≤◌, Bool, true, false, ◌≡◌, ◌≢◌, refl, inl, inr, none, some, List, [], ◌∷◌, keep,
  sort_by, insert_by, String, str_eq, eq_iff, arith,
}
use pynecore_plugin_bybit.Entries.Store.{
  OrderRow, RowKind, position, working, other, is_entry, or_none_zero, venue_filled_qty, without,
  changed, netted_row, OrderStore,
}
use pynecore_plugin_bybit.Entries.Netting.{
  PositionRow, owns, lesser, venue_of, net_entry_row, reduce_rows, reduce_entry_ownership,
  net_entry_rows_fifo, clamp_entry_ownership_to_venue, close_entry_rows_when_flat,
}
use pynecore_plugin_bybit.Entries.Keys.{Distinct}
use pynecore_plugin_bybit.Entries.Owned.{net_entry_rows_fifo-reduce_rows}
use pynecore_plugin_bybit.Entries.Fifo.{slack}
use pynecore_plugin_bybit.Entries.Clamped.{
  owned, settled, reduce_entry_ownership-reduces, clamp_entry_ownership_to_venue-clamps,
}
use pynecore_plugin_bybit.Entries.Sweep.{stays, completes, close_entry_rows_when_flat-keeps}
use pynecore_plugin_bybit.Entries.Cursor.{SameOrder, net_entry_row-SameOrder}

-- a store in memory: the live rows and the completed intents
abbrev Memory : Type 0
Memory = List OrderRow × List String

abbrev memory : OrderStore
memory = record {
  Book = Memory;
  live = λ s. s.0;
  completed = λ s. s.1;
  close_order = λ id s. (without id s.0, s.1);
  upsert_order = λ id qty filled netted s. (changed id (netted_row qty filled netted) s.0, s.1);
  record_complete = λ key s. (s.0, key ∷ s.1);
  log_event = λ kind row consumed s. s;
  live-close_order = λ id s. refl;
  live-upsert_order = λ id qty filled netted s. refl;
  live-record_complete = λ key s. refl;
  live-log_event = λ kind row consumed s. refl;
  completed-record_complete = λ key s. refl;
  completed-close_order = λ id s. refl;
}

abbrev entry_row : String → String → ℕ → ℕ → RowKind → ℕ → OrderRow
entry_row id side qty filled kind created = record {
  client_order_id = id;
  intent_key = some "L";
  side = side;
  qty = qty;
  filled_qty = filled;
  kind = kind;
  netted = none;
  pending_dispatch = false;
  defensive_close_pending = false;
  created_ts_ms = created;
}

abbrev first_buy : OrderRow
first_buy = entry_row "a" "buy" 40 40 position 1

abbrev rows : List OrderRow
rows =
    entry_row "b" "buy" 70 50 working 2
    ∷ first_buy
    ∷ entry_row "c" "sell" 10 10 position 3
    ∷ entry_row "d" "sell" 90 0 other 4
    ∷ []

abbrev book : Memory
book = (rows, [])

apart : {a b : String} → str_eq a b ≡ false → a ≢ b
apart {a} {b} apart_test e = absurd (both ((eq_iff a b).1 e) apart_test)
  where
    both : {t : Bool} → t ≡ true → t ≡ false → ⊥
    both {t} h k = cc

keys_differ : Distinct rows
keys_differ = (
  (apart refl, (apart refl, (apart refl, tt))),
  ((apart refl, (apart refl, tt)), ((apart refl, tt), (tt, tt))),
)

-- A sell of 60 takes the older buy and 20 of the younger one, whose 20 still work.
reduce_test :
    (reduce_entry_ownership memory 0 "sell" 60 book).0
    ≡ record (entry_row "b" "buy" 50 30 working 2) { netted = some 20 }
      ∷ entry_row "c" "sell" 10 10 position 3
      ∷ entry_row "d" "sell" 90 0 other 4
      ∷ []
unfolding reduce_entry_ownership reduce_rows net_entry_row owns is_entry lesser keep sort_by
    insert_by without changed netted_row venue_filled_qty or_none_zero
reduce_test = refl

reduce_entry_ownership-reduces_example :
    (owned memory 0 "buy" (reduce_entry_ownership memory 0 "sell" 60 book)
        + lesser 60 (owned memory 0 "buy" book)
      ≤ owned memory 0 "buy" book + 0)
    × (owned memory 0 "buy" book
        ≤ owned memory 0 "buy" (reduce_entry_ownership memory 0 "sell" 60 book) + 60 + slack 0 rows)
reduce_entry_ownership-reduces_example =
    reduce_entry_ownership-reduces memory 0 "sell" 60 book keys_differ
      (omega arith, (omega arith, (omega arith, (omega arith, tt))))

abbrev snapshot : List PositionRow
snapshot = record { size = 25; side = "buy" } ∷ []

clamp_entry_ownership_to_venue-clamps_example :
    (settled memory 0 "buy" (clamp_entry_ownership_to_venue memory 0 false snapshot book)
      ≤ venue_of memory 0 false "buy" snapshot + 0)
    × (settled memory 0 "sell" (clamp_entry_ownership_to_venue memory 0 false snapshot book)
        ≤ venue_of memory 0 false "sell" snapshot + 0)
    × ((side : String)
        → settled memory 0 side (clamp_entry_ownership_to_venue memory 0 false snapshot book)
          ≤ settled memory 0 side book)
clamp_entry_ownership_to_venue-clamps_example =
    clamp_entry_ownership_to_venue-clamps memory 0 false snapshot book keys_differ

close_entry_rows_when_flat-keeps_example :
    ((close_entry_rows_when_flat memory 0 true book).0 ≡ keep (stays 0) rows)
    × ((close_entry_rows_when_flat memory 0 true book).1 ≡ completes 0 rows [])
close_entry_rows_when_flat-keeps_example =
    close_entry_rows_when_flat-keeps memory 0 true book keys_differ

abbrev netted_buy : OrderRow
netted_buy = record (entry_row "a" "buy" 15 15 position 1) { netted = some 25 }

net_entry_row-SameOrder_example : SameOrder first_buy netted_buy
net_entry_row-SameOrder_example =
    net_entry_row-SameOrder memory 0 25 first_buy netted_buy book keys_differ (inr (inl refl))
      (omega arith) (omega arith)
      (unfold net_entry_row changed netted_row venue_filled_qty or_none_zero in inr (inl refl)) refl

net_entry_rows_fifo-reduce_rows_example :
    (net_entry_rows_fifo memory 0 rows 60 "adoption_baseline_clamped" book).0
    ≡ (reduce_rows memory 0 rows 60 book).0
net_entry_rows_fifo-reduce_rows_example =
    net_entry_rows_fifo-reduce_rows 0 memory rows 60 "adoption_baseline_clamped" book
