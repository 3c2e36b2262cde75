-- ===== src/Live/Consumer.antt =====
-- The connection of pynecore_bybit/live_provider.py and its consumer's side: `connect`, `disconnect`,
-- `is_connected`, `watch_ohlcv`. Whether the market can be resolved and whether the socket opens and
-- subscribes is an argument of `connect`.
use pynecore_plugin_bybit.Prelude.{
  ℕ, Bool, true, false, ◌||◌, Option, none, some, List, [], ◌∷◌, if◌then◌else◌, String,
}
use pynecore_plugin_bybit.Helpers.Timeframes.{to_exchange_timeframe}
use pynecore_plugin_bybit.Live.State.{Ohlcv, Socket, LiveProvider}
use pynecore_plugin_bybit.Live.Dispatch.{Push, on_messages, Arrival, arrive_all}

-- the configuration that `connect` reads; `ws_public` is `none` where the region has no such host
pub record Setup : Type 0 where
  pub symbol : Option String
  pub timeframe : Option String
  pub ws_public : Option String

-- the end of `connect`, an error or not
pub data Connected : Type 0 where
  live refused : LiveProvider → Connected

unfoldable pub is_some : {A : Type 0} → Option A → Bool
is_some none = false
is_some (some a) = true

-- `[] if there is something to resume from else None`
unfoldable pub held_back : Option ℕ → Option ℕ → Option (List Ohlcv)
held_back last_closed stream_bar =
    if is_some last_closed || is_some stream_bar then some [] else none

-- fresh state of a connection
unfoldable pub fresh : LiveProvider → LiveProvider
fresh p = record p {
  update_queue = some [];
  latest_snapshot = none;
  data_ready = some false;
  pending_closed = held_back p.last_closed_bar_ts p.stream_bar_ts;
}

-- a socket that is being opened at `now_ts`
unfoldable pub dial : ℕ → LiveProvider → LiveProvider
dial now_ts p = record p { public_ws = some (record { is_open = true; last_message_ts = now_ts }) }

-- it is subscribed, or forget again; `closing` is what still comes while it is closed
unfoldable pub subscribed : Bool → List Push → LiveProvider → Connected
subscribed true closing p = live (record p { watchdog_task = true })
subscribed false closing p = refused (on_messages closing (record p { public_ws = none }))

-- `meanwhile` is what arrives until the subscription is acknowledged
unfoldable pub connect_to :
    Option String → Bool → List Push → List Arrival → ℕ → LiveProvider → Connected
connect_to none opened closing meanwhile now_ts p = refused p
connect_to (some host) opened closing meanwhile now_ts p =
    subscribed opened closing (arrive_all meanwhile (dial now_ts (fresh p)))

unfoldable pub connect_on :
    Option String
    → Option String
    → Bool
    → Bool
    → List Push
    → List Arrival
    → ℕ
    → LiveProvider
    → Connected
connect_on none ws_public resolved opened closing meanwhile now_ts p = refused p
connect_on (some interval) ws_public resolved opened closing meanwhile now_ts p =
    if resolved then connect_to ws_public opened closing meanwhile now_ts p else refused p

unfoldable pub connect_with :
    Option String
    → Option String
    → Option String
    → Bool
    → Bool
    → List Push
    → List Arrival
    → ℕ
    → LiveProvider
    → Connected
connect_with none timeframe ws_public resolved opened closing meanwhile now_ts p = refused p
connect_with (some s) none ws_public resolved opened closing meanwhile now_ts p = refused p
connect_with (some s) (some timeframe) ws_public resolved opened closing meanwhile now_ts p =
    connect_on (to_exchange_timeframe timeframe) ws_public resolved opened closing meanwhile now_ts
      p

-- `connect`
unfoldable pub connect :
    Setup → Bool → Bool → List Push → List Arrival → ℕ → LiveProvider → Connected
connect c resolved opened closing meanwhile now_ts p =
    connect_with c.symbol c.timeframe c.ws_public resolved opened closing meanwhile now_ts p

-- the transport is closed, if there is one
unfoldable pub hang_up : List Push → Option Socket → LiveProvider → LiveProvider
hang_up closing none p = p
hang_up closing (some ws) p = on_messages closing p

unfoldable pub forget : LiveProvider → LiveProvider
forget p = record p {
  update_queue = none;
  latest_snapshot = none;
  data_ready = none;
  pending_closed = none;
}

-- `disconnect`
unfoldable pub disconnect : List Push → LiveProvider → LiveProvider
disconnect closing p =
    forget (hang_up closing p.public_ws (record p { watchdog_task = false; public_ws = none }))

unfoldable pub socket_open : Option Socket → Bool
socket_open none = false
socket_open (some ws) = ws.is_open

unfoldable pub is_connected : LiveProvider → Bool
is_connected p = socket_open p.public_ws

-- One round of `watch_ohlcv`: an update is returned, the stream is closed, there is no connection,
-- or the round waits for the event.
pub data Watched : Type 0 where
  update : Ohlcv → LiveProvider → Watched
  stream_closed : LiveProvider → Watched
  unconnected : Watched
  waiting : LiveProvider → Watched

unfoldable pub watch_snapshot : Option Ohlcv → LiveProvider → Watched
watch_snapshot none p = waiting (record p { data_ready = some false })
watch_snapshot (some bar) p = update bar (record p { latest_snapshot = none })

unfoldable pub watch_item : Option Ohlcv → LiveProvider → Watched
watch_item none p = stream_closed p
watch_item (some bar) p = update bar p

unfoldable pub watch_queue : List (Option Ohlcv) → LiveProvider → Watched
watch_queue [] p = watch_snapshot p.latest_snapshot p
watch_queue (item ∷ rest) p = watch_item item (record p { update_queue = some rest })

unfoldable pub watch_on : Option (List (Option Ohlcv)) → Option Bool → LiveProvider → Watched
watch_on none event p = unconnected
watch_on (some items) none p = unconnected
watch_on (some items) (some ready) p = watch_queue items p

-- `watch_ohlcv`
unfoldable pub watch_ohlcv : LiveProvider → Watched
watch_ohlcv p = watch_on p.update_queue p.data_ready p
