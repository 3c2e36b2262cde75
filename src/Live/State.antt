-- ===== src/Live/State.antt =====
-- The state of `_LiveProviderMixin` (pynecore_bybit/live_provider.py) between two turns of its event
-- loop. Times are epoch milliseconds; prices stay the text that the venue sent, since the provider
-- never computes with them. Of a socket it is kept whether its receive loop is alive and when it last
-- heard from the venue.
use pynecore_plugin_bybit.Prelude.{ℕ, Bool, true, false, Option, none, some, List, ltb, leb, String}

-- `OHLCV` of the core
pub record Ohlcv : Type 0 where
  pub timestamp : ℕ
  pub opening : String
  pub high : String
  pub low : String
  pub closing : String
  pub volume : String
  pub is_closed : Bool

pub record Socket : Type 0 where
  pub is_open : Bool
  pub last_message_ts : ℕ

-- A `none` in the queue is the sentinel of a closed stream. `data_ready` is the event with its flag.
pub record LiveProvider : Type 0 where
  pub update_queue : Option (List (Option Ohlcv))
  pub latest_snapshot : Option Ohlcv
  pub data_ready : Option Bool
  pub pending_closed : Option (List Ohlcv)
  pub last_closed_bar_ts : Option ℕ
  pub stream_bar_ts : Option ℕ
  pub last_price : Option String
  pub public_ws : Option Socket
  pub watchdog_task : Bool

-- `WS_STALE_THRESHOLD_S`, in milliseconds
abbrev pub ws_stale_threshold_ms : ℕ
ws_stale_threshold_ms = 60000

-- `cursor is not None and bar_ts <= cursor`
unfoldable pub is_settled : ℕ → Option ℕ → Bool
is_settled bar_ts none = false
is_settled bar_ts (some cursor) = leb bar_ts cursor

-- `cursor is None or cursor < bar_ts`
unfoldable pub is_beyond : ℕ → Option ℕ → Bool
is_beyond bar_ts none = true
is_beyond bar_ts (some cursor) = ltb cursor bar_ts

-- `event.set()` where there is an event
unfoldable pub wake : Option Bool → Option Bool
wake none = none
wake (some ready) = some true

unfoldable pub set_ready : LiveProvider → LiveProvider
set_ready p = record p { data_ready = wake p.data_ready }
