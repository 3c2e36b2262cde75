-- ===== src/Inventory/Examples.antt =====
-- The inventory port on concrete rows: a market, a store that knows one order, two pages.
use pynecore_plugin_bybit.Prelude.{
  ℕ, ◌≡◌, refl, ap, true, Option, none, some, [], ◌∷◌, ◌++◌, ltb, String, str_eq, arith,
}
use pynecore_plugin_bybit.Prelude.Int.{pos, neg, ◌-ℤ◌}
use pynecore_plugin_bybit.Inventory.Floor.{
  Market, min_sellable_base, qty_floor, notional_floor, raise_floor, raised_or_none, over,
}
use pynecore_plugin_bybit.Inventory.Rows.{
  Entry, SpotExecution, number, missing, Port, to_execution, is_trade, attributed, attribute,
  stored, by_ref, amounts_of, required, optional, validated, fill_of, fee_currency_of, venue_seq_of,
}
use pynecore_plugin_bybit.Inventory.Paging.{
  Page, at, executions_of, window_start, window_end, fetch_executions,
}
use pynecore_plugin_bybit.Inventory.Windows.{
  Drained, last_page, page_before, fetch_conclusive, fetch_complete,
}
use pynecore_plugin_bybit.Inventory.Fills.{IsOwnFill, to_execution-IsOwnFill}
use pynecore_plugin_bybit.Inventory.Floors.{Exact, min_sellable_base-Exact}

abbrev market : Market
market = record {
  symbol = "BTCUSDT";
  base_coin = "BTC";
  quote_coin = "USDT";
  qty_step = 1;
  min_order_qty = 48;
  min_order_amt = 5000000;
}

abbrev port : Port
port = record {
  market = market;
  owns_order_link_id = λ s. str_eq s "bot-1";
  store_ctx = none;
  digits = λ _. none;
  is_valid = λ _. true;
}

abbrev entry : Entry
entry = record {
  exec_type = "Trade";
  symbol = "BTCUSDT";
  order_link_id = "bot-1";
  order_id = "77";
  side = "buy";
  exec_qty = number 1000;
  exec_price = number 60000;
  exec_value = missing;
  exec_fee = number (pos 1);
  exec_time = number 1700000000000;
  fee_currency = "";
  exec_id = "e-1";
  seq = "";
}

abbrev fill : SpotExecution
fill = record {
  fill_id = "e-1";
  side = "buy";
  base_delta = pos 999;
  quote_delta = neg (pos 60000000);
  price = 60000;
  fee_amount = pos 1;
  fee_currency = "BTC";
  ts_ms = 1700000000000;
  exchange_order_id = some "77";
  client_order_id = "bot-1";
  venue_seq = none;
}

entry_fill : to_execution port entry ≡ some fill
unfolding to_execution is_trade attributed attribute stored by_ref amounts_of required optional
    validated fill_of fee_currency_of venue_seq_of ◌-ℤ◌ neg
entry_fill = refl

to_execution-IsOwnFill_example : IsOwnFill port entry fill
to_execution-IsOwnFill_example = to_execution-IsOwnFill port entry fill entry_fill

min_sellable_base-Exact_example :
    Exact market (some 60000) 83 (record { num = 5000000; den = 60000 })
unfolding min_sellable_base qty_floor notional_floor raise_floor raised_or_none over
min_sellable_base-Exact_example =
    min_sellable_base-Exact market (some 60000) (record { num = 5000000; den = 60000 }) refl 83

-- two pages in every window
abbrev venue : ℕ → ℕ → Option String → Option Page
venue start until none = some (record { entries = entry ∷ []; next_page = some "p2" })
venue start until (some _) = some (record { entries = []; next_page = none })

two_pages :
    (start until : ℕ)
    → Drained port
        (venue start until)
        none
        (executions_of port (entry ∷ []) ++ executions_of port [])
        2
two_pages start until = page_before none _ "p2" _ 1 refl refl (last_page (some "p2") _ refl refl)

fetch_complete_example : fetch_executions port venue 1700000100000 (at 1700000000000) ≡ record {
  executions = executions_of port (entry ∷ []) ++ executions_of port [];
  next_cursor = some (window_end 1700000100000 1700000000000);
  has_more = ltb (window_end 1700000100000 1700000000000) 1700000100000;
  conclusive = true;
}
fetch_complete_example =
    fetch_complete port venue 1700000100000 1700000000000
      (executions_of port (entry ∷ []) ++ executions_of port []) 2
      (two_pages (window_start 1700000000000) (window_end 1700000100000 1700000000000))
      (omega arith)

read_whole : (fetch_executions port venue 1700000100000 (at 1700000000000)).conclusive ≡ true
read_whole =
    ap (λ b. b.conclusive)
      (fetch_complete port venue 1700000100000 1700000000000
        (executions_of port (entry ∷ []) ++ executions_of port []) 2
        (two_pages (window_start 1700000000000) (window_end 1700000100000 1700000000000))
        (omega arith))

fetch_conclusive_example :
    let batch = fetch_executions port venue 1700000100000 (at 1700000000000) in
    let until = window_end 1700000100000 1700000000000 in
    (n : ℕ) × Drained port (venue (window_start 1700000000000) until) none batch.executions n
    × (batch.next_cursor ≡ some until)
fetch_conclusive_example = fetch_conclusive port venue 1700000100000 1700000000000 read_whole
