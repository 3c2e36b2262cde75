-- ===== src/Stops/Downtime.antt =====
-- The fills of the time the bot was down that no process of the run booked (`_unbooked_executions` of
-- pynecore_bybit/events.py and what it is called with): own trading stops and closes by the venue.
use pynecore_plugin_bybit.Prelude.{
  ℕ, ◌+◌, Bool, false, not, ◌&&◌, ◌||◌, ◌==◌, ltb, leb, Option, none, some, List, [], ◌∷◌, some_of,
  if◌then◌else◌, str_eq, String,
}

-- A row of `execution/list`: a missing text is empty, a missing number 0, one that `float` or `int`
-- refuses is `none`. The side is in lower case. Sizes are multiples of a quantum.
pub record ExecRow : Type 0 where
  pub exec_id : String
  pub symbol : String
  pub category : String
  pub exec_type : String
  pub create_type : String
  pub order_link_id : String
  pub stop_order_type : String
  pub side : String
  pub closed_size : Option ℕ
  pub exec_qty : Option ℕ
  pub exec_time : Option ℕ
  pub seq : Option ℕ

pub record ExecMarket : Type 0 where
  pub symbol : String
  pub category : String

-- what is read of a row of the store; `is_entry` tells its kind
pub record LiveRow : Type 0 where
  pub side : String
  pub created_ts_ms : ℕ
  pub is_entry : Bool
  pub filled_qty : ℕ

abbrev pub execution_since_skew_ms : ℕ
execution_since_skew_ms = 60000

-- `a or b` of two texts
unfoldable pub text_or : String → String → String
text_or a b = if str_eq a "" then b else a

unfoldable pub one_of : String → List String → Bool
unfolding some_of
one_of s names = some_of (λ n. str_eq n s) names

unfoldable pub read_number : Option ℕ → ℕ
read_number none = 0
read_number (some n) = n

-- `execution_sort_key`, as an order
unfoldable pub sorts_before : ExecRow → ExecRow → Bool
unfolding read_number
sorts_before a b =
    let s = read_number a.exec_time in
    let t = read_number b.exec_time in
    ltb s t || s == t && ltb (read_number a.seq) (read_number b.seq)

-- one of the rows is on the side, and not younger than the time by more than the skew
unfoldable pub owns_at : String → ℕ → List LiveRow → Bool
unfolding some_of
owns_at side ms rows =
    some_of (λ r. str_eq r.side side && leb r.created_ts_ms (ms + execution_since_skew_ms)) rows

unfoldable pub on_market : ExecMarket → ExecRow → Bool
unfolding text_or
on_market m e = str_eq e.symbol m.symbol && str_eq (text_or e.category m.category) m.category

unfoldable pub stop_sizes : ExecRow → List LiveRow → Option ℕ → Option ℕ → Option ℕ → Bool
unfolding owns_at
stop_sizes e owners (some closed) (some qty) (some ms) =
    not (closed == 0) && not (qty == 0) && owns_at e.side ms owners
stop_sizes e owners _ _ _ = false

abbrev pub stop_types : List String
stop_types = "TakeProfit" ∷ "StopLoss" ∷ "TrailingStop" ∷ []

unfoldable pub own_venue_stop_execution : ExecMarket → List LiveRow → ExecRow → Bool
unfolding on_market text_or one_of stop_sizes
own_venue_stop_execution m owners e =
    on_market m e
    && str_eq (text_or e.exec_type "Trade") "Trade"
    && str_eq e.order_link_id ""
    && one_of e.stop_order_type stop_types
    && stop_sizes e owners e.closed_size e.exec_qty e.exec_time

abbrev pub closeout_exec_types : List String
closeout_exec_types = "AdlTrade" ∷ "BustTrade" ∷ "Delivery" ∷ []

abbrev pub closeout_create_types : List String
closeout_create_types =
    "CreateByLiq" ∷ "CreateByTakeOver_PassThrough" ∷ "CreateByAdl_PassThrough"
    ∷ "CreateByAdminClosing" ∷ []

unfoldable pub closeout_sizes : ExecRow → List LiveRow → Option ℕ → Option ℕ → Bool
unfolding owns_at
closeout_sizes e entries (some closed) (some ms) =
    not (closed == 0) && owns_at (if str_eq e.side "sell" then "buy" else "sell") ms entries
closeout_sizes e entries _ _ = false

unfoldable pub venue_closeout_execution : ExecMarket → List LiveRow → ExecRow → Bool
unfolding on_market text_or one_of closeout_sizes
venue_closeout_execution m entries e =
    let kind = text_or e.exec_type "Trade" in
    on_market m e
    && (one_of kind closeout_exec_types
        || str_eq kind "Trade" && one_of e.create_type closeout_create_types)
    && closeout_sizes e entries e.closed_size e.exec_time
