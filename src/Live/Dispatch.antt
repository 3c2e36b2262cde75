-- ===== src/Live/Dispatch.antt =====
-- What arrives from the public stream: `_on_ws_message`, `_on_ws_closed`, the watchdog's check and
-- the one way into the queue, `_enqueue_closed`.
use pynecore_plugin_bybit.Prelude.{
  ◌>>=◌, ℕ, ◌-◌, Bool, false, not, ◌&&◌, Option, none, some, List, [], ◌∷◌, ◌++◌, leb,
  if◌then◌else◌, String,
}
use pynecore_plugin_bybit.Prelude.Texts.{codes, begins}
use pynecore_plugin_bybit.Live.State.{
  Ohlcv, Socket, LiveProvider, ws_stale_threshold_ms, is_settled, is_beyond, wake, set_ready,
}

-- One entry of a push. A field is `none` where it is missing or its conversion raises.
pub record KlineEntry : Type 0 where
  pub start : Option ℕ
  pub opening : Option String
  pub high : Option String
  pub low : Option String
  pub closing : Option String
  pub volume : Option String
  pub confirm : Option Bool

pub record Push : Type 0 where
  pub topic : String
  pub entries : List KlineEntry

-- `bool(entry.get('confirm', False))`
unfoldable pub confirmed : Option Bool → Bool
confirmed none = false
confirmed (some b) = b

unfoldable pub bar_of : KlineEntry → Option Ohlcv
bar_of e = do
  start ← e.start
  opening ← e.opening
  high ← e.high
  low ← e.low
  closing ← e.closing
  volume ← e.volume
  some (record {
    timestamp = start;
    opening = opening;
    high = high;
    low = low;
    closing = closing;
    volume = volume;
    is_closed = confirmed e.confirm;
  })

-- the snapshot after a close: one of the same bar or of an older one is dropped
unfoldable pub drop_stale : ℕ → Option Ohlcv → Option Ohlcv
drop_stale bar_ts none = none
drop_stale bar_ts (some snapshot) = if leb snapshot.timestamp bar_ts then none else some snapshot

-- `queue.put_nowait(item)` where there is a queue
unfoldable pub put : Option Ohlcv → Option (List (Option Ohlcv)) → Option (List (Option Ohlcv))
put item none = none
put item (some items) = some (items ++ item ∷ [])

-- `_enqueue_closed`
unfoldable pub enqueue_closed : Ohlcv → LiveProvider → LiveProvider
enqueue_closed bar p = record p {
  latest_snapshot = drop_stale bar.timestamp p.latest_snapshot;
  last_closed_bar_ts = some bar.timestamp;
  update_queue = put (some bar) p.update_queue;
}

-- the price and the newest bar that a push leaves behind
unfoldable pub note_trade : Ohlcv → LiveProvider → LiveProvider
note_trade bar p = record p {
  last_price = some bar.closing;
  stream_bar_ts =
      if is_beyond bar.timestamp p.stream_bar_ts then some bar.timestamp else p.stream_bar_ts;
}

-- a confirmed bar: held back while a backfill is pending, else queued, once
unfoldable pub on_closed_bar : Option (List Ohlcv) → Ohlcv → LiveProvider → LiveProvider
on_closed_bar (some pending) bar p = record p { pending_closed = some (pending ++ bar ∷ []) }
on_closed_bar none bar p =
    if is_settled bar.timestamp p.last_closed_bar_ts then p else enqueue_closed bar p

unfoldable pub on_bar : Ohlcv → LiveProvider → LiveProvider
on_bar bar p =
    if not bar.is_closed && is_settled bar.timestamp p.last_closed_bar_ts
    then p
    else if bar.is_closed
    then on_closed_bar p.pending_closed bar (note_trade bar p)
    else record (note_trade bar p) { latest_snapshot = some bar }

-- the body of the loop over the entries
unfoldable pub on_entry : Option Ohlcv → LiveProvider → LiveProvider
on_entry none p = p
on_entry (some bar) p = on_bar bar p

unfoldable pub on_entries : List KlineEntry → LiveProvider → LiveProvider
on_entries [] p = p
on_entries (e ∷ es) p = on_entries es (on_entry (bar_of e) p)

-- `_on_ws_message`, the guard and the loop
unfoldable pub on_push : Option (List (Option Ohlcv)) → Push → LiveProvider → LiveProvider
on_push none m p = p
on_push (some items) m p =
    if begins (codes "kline.") (codes m.topic) then set_ready (on_entries m.entries p) else p

unfoldable pub on_ws_message : Push → LiveProvider → LiveProvider
on_ws_message m p = on_push p.update_queue m p

-- `_on_ws_closed`
unfoldable pub on_ws_closed : LiveProvider → LiveProvider
on_ws_closed p = record p { update_queue = put none p.update_queue; data_ready = wake p.data_ready }

-- the receive loop ends on its own: the socket stays, closed, and the callback runs
unfoldable pub shut : Option Socket → Option Socket
shut none = none
shut (some ws) = some (record ws { is_open = false })

unfoldable pub on_death : LiveProvider → LiveProvider
on_death p = on_ws_closed (record p { public_ws = shut p.public_ws })

-- what the receive loop still hands on while the provider awaits the close of a transport
unfoldable pub on_messages : List Push → LiveProvider → LiveProvider
on_messages [] p = p
on_messages (m ∷ ms) p = on_messages ms (on_ws_message m p)

-- the close that the provider asks for: the socket's own callback stays silent
unfoldable pub force_close : List Push → LiveProvider → LiveProvider
force_close closing p = on_ws_closed (on_messages closing (record p { public_ws = none }))

-- one turn of `_feed_watchdog_loop`, `now_ts` the clock; the task ends where there is no socket and
-- after it closed one
unfoldable pub watch_feed : Option Socket → ℕ → List Push → LiveProvider → LiveProvider
watch_feed none now_ts closing p = record p { watchdog_task = false }
watch_feed (some ws) now_ts closing p =
    if leb (now_ts - ws.last_message_ts) ws_stale_threshold_ms
    then p
    else force_close closing (record p { watchdog_task = false })

unfoldable pub feed_watchdog : ℕ → List Push → LiveProvider → LiveProvider
feed_watchdog now_ts closing p =
    if p.watchdog_task then watch_feed p.public_ws now_ts closing p else p

-- What the event loop may run while the provider awaits. A turn of the watchdog has the pushes that
-- still come while it closes a transport.
pub data Arrival : Type 0 where
  pushed : Push → Arrival
  died : Arrival
  ticked : ℕ → List Push → Arrival

unfoldable pub arrive : Arrival → LiveProvider → LiveProvider
arrive (pushed m) p = on_ws_message m p
arrive died p = on_death p
arrive (ticked now_ts closing) p = feed_watchdog now_ts closing p

unfoldable pub arrive_all : List Arrival → LiveProvider → LiveProvider
arrive_all [] p = p
arrive_all (a ∷ rest) p = arrive_all rest (arrive a p)
