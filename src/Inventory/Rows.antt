-- ===== src/Inventory/Rows.antt =====
-- How pynecore_bybit/inventory.py reads an execution row and attributes it to the bot. A missing text
-- is ""; the plugin, its store and the validation of the fill are arguments.
use pynecore_plugin_bybit.Prelude.{
  ◌>>=◌, ℕ, ◌*◌, Bool, false, Option, none, some, ◌&&◌, ◌||◌, not, if◌then◌else◌, String, str_eq,
}
use pynecore_plugin_bybit.Prelude.Int.{ℤ, pos, neg, ◌-ℤ◌}
use pynecore_plugin_bybit.Inventory.Floor.{Market}

-- a numeric field of a row: missing or empty, not a number, or a number
pub data Field (A : Type 0) : Type 0 where
  missing malformed : Field A
  number : A → Field A

-- One execution row, of the REST list or the stream; a missing text is "".
pub record Entry : Type 0 where
  pub exec_type : String
  pub symbol : String
  pub order_link_id : String
  pub order_id : String
  pub side : String  -- in lower case
  pub exec_qty : Field ℕ
  pub exec_price : Field ℕ
  pub exec_value : Field ℕ
  pub exec_fee : Field ℤ
  pub exec_time : Field ℕ
  pub fee_currency : String
  pub exec_id : String
  pub seq : String

pub record SpotExecution : Type 0 where
  pub fill_id : String
  pub side : String
  pub base_delta : ℤ
  pub quote_delta : ℤ
  pub price : ℕ
  pub fee_amount : ℤ
  pub fee_currency : String
  pub ts_ms : ℕ
  pub exchange_order_id : Option String
  pub client_order_id : String
  pub venue_seq : Option ℕ

-- the BrokerStore: is an order stored, and which order carries an `order_id` reference
pub record Store : Type 0 where
  pub has_order : String → Bool
  pub find_by_ref : String → Option String

abbrev given : String → Bool
given s = not (str_eq s "")

unfoldable pub stored : Option Store → String → Bool
stored none link_id = false
stored (some s) link_id = s.has_order link_id

unfoldable pub by_ref : Option Store → String → Option String
by_ref none order_id = none
by_ref (some s) order_id = if given order_id then s.find_by_ref order_id else none

-- `_attribute`
unfoldable pub attribute : (String → Bool) → Option Store → Entry → Option String
attribute owns store e =
    if given e.order_link_id && owns e.order_link_id
    then some e.order_link_id
    else if given e.order_link_id && stored store e.order_link_id
    then some e.order_link_id
    else by_ref store e.order_id

-- a number that the row must have
unfoldable pub required : {A : Type 0} → Field A → Option A
required missing = none
required malformed = none
required (number x) = some x

-- a number that a row may leave out
unfoldable pub optional : {A : Type 0} → A → Field A → Option A
optional default missing = some default
optional default malformed = none
optional default (number x) = some x

-- the amounts of a row, read in the `try`
pub record Amounts : Type 0 where
  pub qty : ℕ
  pub price : ℕ
  pub value : ℕ
  pub fee : ℤ
  pub ts_ms : ℕ

unfoldable pub amounts_of : Entry → Option Amounts
amounts_of e = do
  qty ← required e.exec_qty
  price ← required e.exec_price
  value ← optional (qty * price) e.exec_value
  fee ← optional (pos 0) e.exec_fee
  ts_ms ← optional 0 e.exec_time
  some (record { qty = qty; price = price; value = value; fee = fee; ts_ms = ts_ms })

-- the currency that the fee is charged in
unfoldable pub fee_currency_of : Market → Entry → String
fee_currency_of m e =
    if given e.fee_currency
    then e.fee_currency
    else if str_eq e.side "buy"
    then m.base_coin
    else m.quote_coin

-- `int(seq_raw) if seq_raw.isdigit() else None`
unfoldable pub venue_seq_of : (String → Option ℕ) → Entry → Option ℕ
venue_seq_of digits e = digits (if given e.seq then e.seq else e.exec_id)

unfoldable pub fill_of : (String → Option ℕ) → Market → Entry → String → Amounts → SpotExecution
fill_of digits m e coid a =
    let fee_currency = fee_currency_of m e in
    let base_fee = if str_eq fee_currency m.base_coin then a.fee else pos 0 in
    let quote_fee = if str_eq fee_currency m.quote_coin then a.fee else pos 0 in
    let bought = str_eq e.side "buy" in
    record {
      fill_id = e.exec_id;
      side = e.side;
      base_delta = if bought then pos a.qty -ℤ base_fee else neg (pos a.qty) -ℤ base_fee;
      quote_delta = if bought then neg (pos a.value) -ℤ quote_fee else pos a.value -ℤ quote_fee;
      price = a.price;
      fee_amount = a.fee;
      fee_currency = fee_currency;
      ts_ms = a.ts_ms;
      exchange_order_id = if given e.order_id then some e.order_id else none;
      client_order_id = coid;
      venue_seq = venue_seq_of digits e;
    }

-- What the port was built with: the plugin's `owns_order_link_id`, its store, the reading of a text
-- of digits, and the validation of `SpotExecution` (`false`: it raises `ValueError`).
pub record Port : Type 0 where
  pub market : Market
  pub owns_order_link_id : String → Bool
  pub store_ctx : Option Store
  pub digits : String → Option ℕ
  pub is_valid : SpotExecution → Bool

-- a missing `execType` stands for a trade
unfoldable pub is_trade : Entry → Bool
is_trade e = not (given e.exec_type) || str_eq e.exec_type "Trade"

unfoldable pub validated : (SpotExecution → Bool) → SpotExecution → Option SpotExecution
validated is_valid x = if is_valid x then some x else none

unfoldable pub attributed : Port → Entry → Option SpotExecution
attributed p e = do
  coid ← attribute p.owns_order_link_id p.store_ctx e
  a ← amounts_of e
  validated p.is_valid (fill_of p.digits p.market e coid a)

unfoldable pub to_execution : Port → Entry → Option SpotExecution
to_execution p e =
    if not (is_trade e)
    then none
    else if not (str_eq e.symbol p.market.symbol)
    then none
    else attributed p e
