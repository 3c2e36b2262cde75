-- ===== src/Stops/Examples.antt =====
-- A stop that closes ten, seven of them of two exits of the run, and a fill missed while the bot was down.
use pynecore_plugin_bybit.Prelude.{
  none, false, sort_by, insert_by, some_of, keep, ℕ, ◌*◌, ◌/◌, suc, ◌≡◌, refl, ap, some, List, [],
  ◌∷◌, map, arith,
}
use pynecore_plugin_bybit.Prelude.Int.{ℤ, pos, negsuc, neg, ◌-ℤ◌}
use pynecore_plugin_bybit.Stops.Slices.{
  Execution, Claim, stop_loss, qty_of, or_empty, suffixed, slice_id, slice, total_of, fee_of,
  is_single, passed, cut, run_fee, venue_bracket_claim_slices, qtys, fees, ids,
}
use pynecore_plugin_bybit.Stops.Shares.{venue_bracket_claim_slices-AddUp}
use pynecore_plugin_bybit.Stops.Identity.{Once, venue_bracket_claim_slices-Once}
use pynecore_plugin_bybit.Stops.Downtime.{
  ExecRow, ExecMarket, LiveRow, one_of, on_market, stop_sizes, owns_at, text_or,
  own_venue_stop_execution,
}
use pynecore_plugin_bybit.Stops.Unbooked.{
  History, RunStore, found, has_id, is_new, note, note_all, window_stop, after_window, search,
  unbooked_executions, drain_deriv_exec_window, drain_rounds, after_answer, begins_at, newest_mark,
  load_deriv_exec_watermark, oldest_of, search_stops, unbooked_venue_stop_executions,
}

-- a share rounded towards 0
abbrev truncated : ℤ → ℕ → ℕ → ℤ
truncated (pos n) part whole = pos (n * part / whole)
truncated (negsuc n) part whole = neg (pos (suc n * part / whole))

abbrev fired : Execution
fired = record {
  exec_id = 101 ∷ [];
  exec_qty = some 10;
  exec_fee = some (pos 7);
  others = "order 5";
}

abbrev claim : List ℕ → List ℕ → ℕ → Claim
claim exit entry qty = record {
  pine_id = exit;
  from_entry = some entry;
  leg = stop_loss;
  qty = qty;
}

abbrev two_exits : List Claim
two_exits = claim (65 ∷ []) (76 ∷ []) 3 ∷ claim (66 ∷ []) (76 ∷ []) 4 ∷ []

abbrev first : List ℕ → ℕ
first [] = 0
first (c ∷ cs) = c

shares :
    map (λ s. s.entry.exec_fee) (venue_bracket_claim_slices truncated fired two_exits)
    ≡ some (pos 1) ∷ some (pos 3) ∷ []
unfolding venue_bracket_claim_slices run_fee cut slice slice_id passed is_single qty_of fee_of
    total_of ◌-ℤ◌
shares = refl

-- Exits "A#B" of "C" and "A" of "B#C": the ids of their slices are the same.
shared_id :
    suffixed (101 ∷ []) (claim (65 ∷ 35 ∷ 66 ∷ []) (67 ∷ []) 3)
    ≡ suffixed (101 ∷ []) (claim (65 ∷ []) (66 ∷ 35 ∷ 67 ∷ []) 4)
unfolding suffixed or_empty
shared_id = refl

venue_bracket_claim_slices-AddUp_example :
    (qtys (venue_bracket_claim_slices truncated fired two_exits) ≡ total_of two_exits)
    × (fees (venue_bracket_claim_slices truncated fired two_exits) ≡ truncated (pos 7) 7 10)
unfolding total_of fee_of qty_of
venue_bracket_claim_slices-AddUp_example =
    venue_bracket_claim_slices-AddUp truncated fired two_exits (omega arith)

venue_bracket_claim_slices-Once_example :
    Once (ids (venue_bracket_claim_slices truncated fired two_exits))
unfolding or_empty
venue_bracket_claim_slices-Once_example =
    venue_bracket_claim_slices-Once truncated fired two_exits
      (((λ e. omega (arith, e)), tt), (((λ e. omega (arith, e)), tt), tt))
      (((λ e. omega (arith, ap (λ k. first k.0) e)), tt), (tt, tt))

abbrev linear : ExecMarket
linear = record { symbol = "BTCUSDT"; category = "linear" }

abbrev owner : LiveRow
owner = record { side = "sell"; created_ts_ms = 60001; is_entry = false; filled_qty = 0 }

abbrev missed : ExecRow
missed = record {
  exec_id = "x1";
  symbol = "BTCUSDT";
  category = "";
  exec_type = "Trade";
  create_type = "";
  order_link_id = "";
  stop_order_type = "StopLoss";
  side = "sell";
  closed_size = some 2;
  exec_qty = some 2;
  exec_time = some 3;
  seq = some 9;
}

-- the history: the missed fill, then a repeat of it on the last page
abbrev two_pages : History
two_pages start stop none = some (record { rows = missed ∷ []; next_cursor = some "p2" })
two_pages start stop (some c) = some (record { rows = missed ∷ []; next_cursor = none })

abbrev store : RunStore
store = record {
  ownerships = owner ∷ [];
  live_orders = [];
  attributed = "x0" ∷ [];
  adopted = [];
  cursors = [];
}

missed_stop : unbooked_venue_stop_executions (some store) linear two_pages 5 ≡ found (missed ∷ [])
unfolding unbooked_venue_stop_executions search_stops own_venue_stop_execution unbooked_executions
    search after_window note_all note is_new drain_deriv_exec_window drain_rounds after_answer
    window_stop begins_at load_deriv_exec_watermark newest_mark has_id some_of one_of keep on_market
    text_or stop_sizes owns_at oldest_of sort_by insert_by
missed_stop = refl
