-- ===== src/Instruments/Info.antt =====
-- `InstrumentInfo` and `parse_instrument` of pynecore_bybit/models.py. A missing or empty text is "";
-- `read_float` is Python's reading of a text as a number, none of which is negative here.
use pynecore_plugin_bybit.Prelude.Texts.{begins, codes, ends}
use pynecore_plugin_bybit.Prelude.{
  ℕ, ◌+◌, ◌/◌, ◌^◌, ◌==◌, Bool, true, false, Option, none, some, if◌then◌else◌, String, str_eq,
}

-- `CATEGORY_SPOT`, `CATEGORY_LINEAR`, `CATEGORY_INVERSE`
pub data Category : Type 0 where
  spot linear inverse : Category

-- a number: so many units of ten to the minus `scale`
pub record Number : Type 0 where
  pub units : ℕ
  pub scale : ℕ

abbrev pub nil : Number
nil = record { units = 0; scale = 0 }

-- one element of `result.list`, with the two filters' fields
pub record RawInstrument : Type 0 where
  pub symbol : String
  pub base_coin : String
  pub quote_coin : String
  pub settle_coin : String
  pub status : String
  pub contract_type : String
  pub delivery_time : String
  pub tick_size : String
  pub base_precision : String
  pub min_order_amt : String
  pub max_limit_order_qty : String
  pub max_market_order_qty : String
  pub qty_step : String
  pub min_order_qty : String
  pub min_notional_value : String
  pub max_order_qty : String
  pub max_mkt_order_qty : String

pub record InstrumentInfo : Type 0 where
  pub category : Category
  pub symbol : String
  pub base_coin : String
  pub quote_coin : String
  pub settle_coin : String
  pub status : String
  pub tick_size_str : String
  pub tick_size : Number
  pub qty_step_str : String
  pub qty_step : Number
  pub min_order_qty : Number
  pub min_order_amt : Number
  pub min_notional : Number
  pub max_limit_order_qty : Number
  pub max_market_order_qty : Number
  pub contract_type : String
  pub delivery_time : Option ℕ

-- `text.startswith(part)`
unfoldable pub starts : String → String → Bool
starts part text = begins (codes part) (codes text)

unfoldable pub is_perpetual : InstrumentInfo → Bool
is_perpetual i = ends (codes "Perpetual") (codes i.contract_type)

unfoldable pub is_inverse : InstrumentInfo → Bool
is_inverse i = elim i.category [ inverse ↦ true | _ ↦ false ]

-- the contract type is trusted over the category of the query
unfoldable pub true_category : Category → String → Category
true_category queried contract_type =
    if starts "Inverse" contract_type
    then inverse
    else if starts "Linear" contract_type
    then linear
    else queried

abbrev or_nil : Option Number → Number
or_nil none = nil
or_nil (some n) = n

-- `_to_float`
unfoldable pub to_float : (String → Option Number) → String → Number
to_float read_float value = if str_eq value "" then nil else or_nil (read_float value)

-- `int(delivery_ms / 1000) if delivery_ms > 0 else None`
unfoldable pub delivery_seconds : Number → Option ℕ
delivery_seconds ms = if ms.units == 0 then none else some (ms.units / 10 ^ (ms.scale + 3))

-- the order limits that depend on the category
pub record Limits : Type 0 where
  pub qty_step_str : String
  pub min_order_qty : Number
  pub min_order_amt : Number
  pub min_notional : Number
  pub max_limit_order_qty : Number
  pub max_market_order_qty : Number

unfoldable pub limits_of : (String → Option Number) → Category → RawInstrument → Limits
limits_of read_float spot e = record {
  qty_step_str = e.base_precision;
  min_order_qty = nil;
  min_order_amt = to_float read_float e.min_order_amt;
  min_notional = nil;
  max_limit_order_qty = to_float read_float e.max_limit_order_qty;
  max_market_order_qty = to_float read_float e.max_market_order_qty;
}
limits_of read_float _ e = record {
  qty_step_str = e.qty_step;
  min_order_qty = to_float read_float e.min_order_qty;
  min_order_amt = nil;
  min_notional = to_float read_float e.min_notional_value;
  max_limit_order_qty = to_float read_float e.max_order_qty;
  max_market_order_qty = to_float read_float e.max_mkt_order_qty;
}

unfoldable pub parse_instrument :
    (String → Option Number) → Category → RawInstrument → InstrumentInfo
parse_instrument read_float queried e =
    let category = true_category queried e.contract_type in
    let limits = limits_of read_float category e in
    record {
      category = category;
      symbol = e.symbol;
      base_coin = e.base_coin;
      quote_coin = e.quote_coin;
      settle_coin = e.settle_coin;
      status = e.status;
      tick_size_str = e.tick_size;
      tick_size = to_float read_float e.tick_size;
      qty_step_str = limits.qty_step_str;
      qty_step = to_float read_float limits.qty_step_str;
      min_order_qty = limits.min_order_qty;
      min_order_amt = limits.min_order_amt;
      min_notional = limits.min_notional;
      max_limit_order_qty = limits.max_limit_order_qty;
      max_market_order_qty = limits.max_market_order_qty;
      contract_type = e.contract_type;
      delivery_time = delivery_seconds (to_float read_float e.delivery_time);
    }
