-- ===== src/Helpers/Timeframes.antt =====
-- The timeframe tables and the bar arithmetic of pynecore_bybit/helpers.py, with the two converters
-- of pynecore_bybit/provider.py. A month is its number `year * 12 + month - 1`; `datetime`'s
-- calendar is written out from 1970-01-01 on, where `ts` counts milliseconds.
pub mod Calendar
pub mod Tables
use pynecore_plugin_bybit.Prelude.{
  ℕ, zero, suc, ◌+◌, ◌-◌, ◌*◌, ◌/◌, ◌%◌, Bool, true, false, Option, none, some, List, [], ◌∷◌, ◌==◌,
  leb, ◌&&◌, ◌||◌, not, if◌then◌else◌, String, str_eq, table_get,
}

-- `TIMEFRAMES`
abbrev pub timeframes : List (String × String)
timeframes =
    ("1", "1")
    ∷ ("3", "3")
    ∷ ("5", "5")
    ∷ ("15", "15")
    ∷ ("30", "30")
    ∷ ("60", "60")
    ∷ ("120", "120")
    ∷ ("240", "240")
    ∷ ("360", "360")
    ∷ ("720", "720")
    ∷ ("1D", "D")
    ∷ ("1W", "W")
    ∷ ("1M", "M")
    ∷ []

-- `{v: k for k, v in TIMEFRAMES.items()}`, of a table with distinct values
unfoldable pub inverted : List (String × String) → List (String × String)
inverted [] = []
inverted ((k, v) ∷ m) = (v, k) ∷ inverted m

-- `TIMEFRAMES_INV`
abbrev pub timeframes_inv : List (String × String)
timeframes_inv = inverted timeframes

-- `INTERVAL_MS`
abbrev pub interval_ms : List (String × ℕ)
interval_ms =
    ("1", 60000)
    ∷ ("3", 180000)
    ∷ ("5", 300000)
    ∷ ("15", 900000)
    ∷ ("30", 1800000)
    ∷ ("60", 3600000)
    ∷ ("120", 7200000)
    ∷ ("240", 14400000)
    ∷ ("360", 21600000)
    ∷ ("720", 43200000)
    ∷ ("D", 86400000)
    ∷ ("W", 604800000)
    ∷ []

-- `to_exchange_timeframe`; `none` is the `BybitUnsupportedTimeframeError`
unfoldable pub to_exchange_timeframe : String → Option String
to_exchange_timeframe timeframe = table_get timeframe timeframes

-- `to_tradingview_timeframe`
unfoldable pub to_tradingview_timeframe : String → Option String
to_tradingview_timeframe timeframe = table_get timeframe timeframes_inv

abbrev is_leap : ℕ → Bool
is_leap y = y % 4 == 0 && (not (y % 100 == 0) || y % 400 == 0)

-- the days of a month: `m` counts from 0
unfoldable pub days_in_month : ℕ → ℕ
days_in_month mi =
    let m = mi % 12 in
    if m == 1
    then (if is_leap (mi / 12) then 29 else 28)
    else if m == 3 || m == 5 || m == 8 || m == 10
    then 30
    else 31

abbrev pub epoch_month : ℕ
epoch_month = 1970 * 12

abbrev pub day_ms : ℕ
day_ms = 86400000

-- the day on which the month `n` months after the epoch's starts
unfoldable pub first_day : ℕ → ℕ
unfolding days_in_month
first_day zero = 0
first_day (suc n) = first_day n + days_in_month (epoch_month + n)

-- `datetime.fromtimestamp`: the month after the epoch's that holds a day; `n` months are over
unfoldable pub month_from : ℕ → ℕ → ℕ → ℕ
month_from zero n day = n
month_from (suc fuel) n day =
    let later = month_from fuel (suc n) day in if leb (first_day (suc n)) day then later else n

unfoldable pub month_of : ℕ → ℕ
month_of day = month_from (suc day) 0 day

-- the month start that `datetime(...)` builds
unfoldable pub month_start : ℕ → ℕ
month_start n = first_day n * day_ms

-- a fixed step, or months where the table has none
unfoldable pub add_on : Option ℕ → ℕ → ℕ → ℕ
add_on (some step_ms) ts n = ts + n * step_ms
add_on none ts n = month_start (month_of (ts / day_ms) + n)

-- `add_interval`
unfoldable pub add_interval : ℕ → String → ℕ → ℕ
add_interval ts interval n = add_on (table_get interval interval_ms) ts n

unfoldable pub bar_close_ts : ℕ → String → ℕ
bar_close_ts bar_start interval = add_interval bar_start interval 1
