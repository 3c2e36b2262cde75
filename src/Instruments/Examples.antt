-- ===== src/Instruments/Examples.antt =====
-- A perpetual, found on a concrete venue.
use pynecore_plugin_bybit.Prelude.Texts.{codes, ends, same_text}
use pynecore_plugin_bybit.Prelude.{
  ℕ, true, str_eq, if◌then◌else◌, ◌≡◌, refl, Option, none, some, List, [], ◌∷◌, String,
}
use pynecore_plugin_bybit.Prelude.Divisor.{gcd, euclid}
use pynecore_plugin_bybit.Instruments.PriceGrid.{
  grid_of_text, grid_of, partition, drop_dot, isdigit, all_digits, is_digit, read_int, read_from,
}
use pynecore_plugin_bybit.Instruments.Metadata.{update_symbol_info}
use pynecore_plugin_bybit.Instruments.Tradable.{IsTradable, update_symbol_info-IsTradable}
use pynecore_plugin_bybit.Errors.{symbol}
use pynecore_plugin_bybit.Instruments.Info.{
  Category, spot, linear, inverse, Number, RawInstrument, InstrumentInfo, parse_instrument,
}
use pynecore_plugin_bybit.Instruments.Symbols.{is_blank, probes_of, listed_name}
use pynecore_plugin_bybit.Instruments.Resolve.{
  Answer, listed, refused, instrument, Chart, get_market, pinned, market_on, market_for,
}
use pynecore_plugin_bybit.Instruments.Caching.{get_market_again}
use pynecore_plugin_bybit.Instruments.Notation.{probes_for, listed_name_round_trip}

abbrev raw : RawInstrument
raw = record {
  symbol = "BTCUSDT";
  base_coin = "BTC";
  quote_coin = "USDT";
  settle_coin = "USDT";
  status = "Trading";
  contract_type = "LinearPerpetual";
  delivery_time = "0";
  tick_size = "0.10";
  base_precision = "";
  min_order_amt = "";
  max_limit_order_qty = "";
  max_market_order_qty = "";
  qty_step = "0.001";
  min_order_qty = "0.001";
  min_notional_value = "5";
  max_order_qty = "1190";
  max_mkt_order_qty = "500";
}

abbrev venue : Category → List ℕ → Answer
venue spot name = listed []
venue linear name = listed (raw ∷ [])
venue inverse name = listed []

abbrev down : Category → List ℕ → Answer
down c name = refused (symbol name)

abbrev read_float : String → Option Number
read_float s = none

abbrev perpetual : InstrumentInfo
perpetual = parse_instrument read_float linear raw

abbrev chart : Chart
chart = record {
  resolve_symbol = λ name. name;
  chart_symbol = some (codes "BTCUSDT.P");
  market = some perpetual;
  market_symbol = none;
  instruments = [];
}

get_market_again_example :
    let after = (get_market read_float venue chart).1 in
    get_market read_float down after ≡ (instrument perpetual, after)
unfolding get_market market_for market_on pinned
get_market_again_example = get_market_again read_float venue down chart perpetual refl

listed_name_round_trip_example :
    probes_of (listed_name true (codes "BTCUSDT")) ≡ probes_for true (codes "BTCUSDT")
unfolding is_blank ends same_text
listed_name_round_trip_example =
    listed_name_round_trip true (codes "BTCUSDT")
      (refl, (refl, (refl, (refl, (refl, (refl, (refl, tt))))))) refl

abbrev unresolved : Chart
unresolved = record chart { market = none }

-- a reading of the tick's text
abbrev read_tick : String → Option Number
read_tick s = if str_eq s "0.10" then some (record { units = 10; scale = 2 }) else none

update_symbol_info-IsTradable_example :
    IsTradable (update_symbol_info read_tick venue (some "1") unresolved).0
update_symbol_info-IsTradable_example =
    update_symbol_info-IsTradable read_tick venue (some "1") unresolved

grid_test : grid_of_text (codes "0.10") ≡ some (1, 10)
unfolding grid_of_text grid_of partition drop_dot isdigit all_digits is_digit read_int read_from gcd
    euclid
grid_test = refl
