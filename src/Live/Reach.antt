-- ===== src/Live/Reach.antt =====
-- A live provider at work: any calls of its operations and any arrivals, in any order in which the
-- framework makes them, from the start of a run.
use mathlib.Core.Path.{subst}
use pynecore_plugin_bybit.Prelude.{
  ℕ, Bool, true, false, ◌≡◌, arith, Option, none, some, List, [], ◌∷◌, String,
}
use pynecore_plugin_bybit.Live.State.{Ohlcv, Socket, LiveProvider, set_ready}
use pynecore_plugin_bybit.Live.Dispatch.{Push, enqueue_closed, note_trade, Arrival, arrive}
use pynecore_plugin_bybit.Live.Kept.{IsPushed, on_messages-IsKept, arrive-IsKept, arrive_all-IsKept}
use pynecore_plugin_bybit.Live.Backfill.{complete, raised, crashed, World, on_reconnect}
use pynecore_plugin_bybit.Live.Consumer.{
  Setup, Connected, live, refused, fresh, dial, subscribed, connect_to, connect_on, connect_with,
  connect, hang_up, forget, disconnect, held_back, is_some, update, stream_closed, waiting,
  watch_ohlcv,
}
use pynecore_plugin_bybit.Live.Order.{
  newest_closed, Ordered, Held, Reached, Reached-later, IsLive, IsLive-IsKept,
}
use pynecore_plugin_bybit.Live.Resume.{
  IsResumable, IsLive-IsResumable, Resumed-of, on_reconnect-IsResumed,
}
use pynecore_plugin_bybit.Live.Startup.{found, error, backfill_closed_bars}
use pynecore_plugin_bybit.Live.Handing.{Leaves, backfill_closed_bars-IsLive}
use pynecore_plugin_bybit.Live.Delivery.{Delivers, watch_ohlcv-Delivers}

-- A run: the provider, the updates the consumer got so far, newest first, and whether the last
-- `on_reconnect` raised.
pub record Run : Type 0 where
  pub provider : LiveProvider
  pub seen : List Ohlcv
  pub aborted : Bool

-- the provider of a new plugin
abbrev pub new_provider : LiveProvider
new_provider = record {
  update_queue = none;
  latest_snapshot = none;
  data_ready = none;
  pending_closed = none;
  last_closed_bar_ts = none;
  stream_bar_ts = none;
  last_price = none;
  public_ws = none;
  watchdog_task = false;
}

abbrev pub connected_provider : Connected → LiveProvider
connected_provider (live p) = p
connected_provider (refused p) = p

-- One step. After an `on_reconnect` that raised a `BybitError` the framework goes on with `disconnect`,
-- as the docstring of `on_reconnect` says, and nothing arrives, since there is no socket. What
-- `backfill_closed_bars` hands over goes to the framework, not through `watch_ohlcv`.
pub data Step : Run → Run → Type 0 where
  disconnected :
      (closing : List Push) (r : Run)
      → Step r (record { provider = disconnect closing r.provider; seen = r.seen; aborted = false })
  connected :
      (c : Setup) (resolved opened : Bool) (closing : List Push) (meanwhile : List Arrival)
      (now_ts : ℕ) (r : Run)
      → r.aborted ≡ false
      → Step r (record r {
        provider =
            connected_provider (connect c resolved opened closing meanwhile now_ts r.provider);
      })
  arrived :
      (a : Arrival) (r : Run)
      → r.aborted ≡ false
      → Step r (record r { provider = arrive a r.provider })
  reconnected :
      (w : World) (timeframe : Option String) (p : LiveProvider) (r : Run)
      → r.aborted ≡ false
      → on_reconnect w timeframe r.provider ≡ some (complete p)
      → Step r (record r { provider = p })
  reconnect_raised :
      (w : World) (timeframe : Option String) (p : LiveProvider) (r : Run)
      → r.aborted ≡ false
      → on_reconnect w timeframe r.provider ≡ some (raised p)
      → Step r (record { provider = p; seen = r.seen; aborted = true })
  reconnect_crashed :
      (w : World) (timeframe : Option String) (p : LiveProvider) (r : Run)
      → r.aborted ≡ false
      → on_reconnect w timeframe r.provider ≡ some (crashed p)
      → Step r (record r { provider = p })
  backfilled :
      (w : World) (timeframe : String) (since_ms : ℕ) (bars : List Ohlcv) (p : LiveProvider)
      (r : Run)
      → r.aborted ≡ false
      → backfill_closed_bars w timeframe since_ms r.provider ≡ some (found bars p)
      → Step r (record r { provider = p })
  backfill_raised :
      (w : World) (timeframe : String) (since_ms : ℕ) (p : LiveProvider) (r : Run)
      → r.aborted ≡ false
      → backfill_closed_bars w timeframe since_ms r.provider ≡ some (error p)
      → Step r (record r { provider = p })
  watched :
      (b : Ohlcv) (p : LiveProvider) (r : Run)
      → r.aborted ≡ false
      → watch_ohlcv r.provider ≡ update b p
      → Step r (record { provider = p; seen = b ∷ r.seen; aborted = false })
  watch_raised :
      (p : LiveProvider) (r : Run)
      → r.aborted ≡ false
      → watch_ohlcv r.provider ≡ stream_closed p
      → Step r (record r { provider = p })
  watch_waits :
      (p : LiveProvider) (r : Run)
      → r.aborted ≡ false
      → watch_ohlcv r.provider ≡ waiting p
      → Step r (record r { provider = p })

pub data Reach : Run → Type 0 where
  start : Reach (record { provider = new_provider; seen = []; aborted = false })
  next : {r r' : Run} → Reach r → Step r r' → Reach r'

-- What holds between any two steps.
pub record IsRunning (r : Run) : Type 0 where
  pub resumable : IsResumable r.seen r.provider
  pub going : r.aborted ≡ false → IsLive r.seen r.provider

running : (r : Run) → IsLive r.seen r.provider → IsRunning r
running r h = record {
  resumable =
      IsLive-IsResumable r.seen r.provider.update_queue r.provider.last_closed_bar_ts h.0.order h.1;
  going = λ _. h;
}

-- A provider whose queue is empty or gone is in order behind what was seen.
held_back-Held : (last_closed stream_bar : Option ℕ) → Held (held_back last_closed stream_bar)
unfolding held_back is_some
held_back-Held none none = tt
held_back-Held none (some t) = tt
held_back-Held (some t) stream_bar = tt

Resumable-IsPushed : (seen : List Ohlcv) → IsPushed (IsResumable seen)
unfolding enqueue_closed note_trade set_ready
Resumable-IsPushed seen = record {
  enqueues = λ b p final later h.
      (h.0, Reached-later (newest_closed seen) p.last_closed_bar_ts b.timestamp h.1 later);
  holds = λ pending b p e final h. h;
  notes = λ b p h. h;
  shows = λ b p still later h. h;
  wakes = λ p h. h;
}

hang_up-IsResumable :
    (closing : List Push) (ws : Option Socket) (seen : List Ohlcv) (p : LiveProvider)
    → IsResumable seen p
    → IsResumable seen (hang_up closing ws p)
unfolding hang_up
hang_up-IsResumable closing none seen p h = h
hang_up-IsResumable closing (some ws) seen p h =
    on_messages-IsKept (Resumable-IsPushed seen) closing p h

forget-IsLive : (seen : List Ohlcv) (p : LiveProvider) → IsResumable seen p → IsLive seen (forget p)
unfolding forget
forget-IsLive seen p (o, r) = (record { order = o; final = tt; held = tt; forming = tt }, r)

disconnect-IsLive :
    (closing : List Push) (seen : List Ohlcv) (p : LiveProvider)
    → IsResumable seen p
    → IsLive seen (disconnect closing p)
unfolding disconnect
disconnect-IsLive closing seen p h =
    forget-IsLive seen _ (hang_up-IsResumable closing p.public_ws seen _ h)

fresh-IsLive : (seen : List Ohlcv) (p : LiveProvider) → IsResumable seen p → IsLive seen (fresh p)
unfolding fresh
fresh-IsLive seen p (o, r) = (
  record {
    order = o;
    final = tt;
    held = held_back-Held p.last_closed_bar_ts p.stream_bar_ts;
    forming = tt;
  },
  r,
)

module _ (seen : List Ohlcv) where
  subscribed-IsLive :
      (opened : Bool) (closing : List Push) (p : LiveProvider)
      → IsLive seen p
      → IsLive seen (connected_provider (subscribed opened closing p))
  unfolding subscribed
  subscribed-IsLive true closing p h = h
  subscribed-IsLive false closing p h = on_messages-IsKept (IsLive-IsKept seen).pushes closing _ h

  connect_to-IsLive :
      (host : Option String) (opened : Bool) (closing : List Push) (meanwhile : List Arrival)
      (now_ts : ℕ) (p : LiveProvider)
      → IsResumable seen p
      → IsLive seen p
      → IsLive seen (connected_provider (connect_to host opened closing meanwhile now_ts p))
  unfolding connect_to dial
  connect_to-IsLive none opened closing meanwhile now_ts p r h = h
  connect_to-IsLive (some host) opened closing meanwhile now_ts p r h =
      subscribed-IsLive opened closing _
        (arrive_all-IsKept (IsLive-IsKept seen) meanwhile _ (fresh-IsLive seen p r))

  connect_on-IsLive :
      (interval host : Option String) (resolved opened : Bool) (closing : List Push)
      (meanwhile : List Arrival) (now_ts : ℕ) (p : LiveProvider)
      → IsResumable seen p
      → IsLive seen p
      → IsLive seen
          (connected_provider (connect_on interval host resolved opened closing meanwhile now_ts p))
  unfolding connect_on
  connect_on-IsLive none host resolved opened closing meanwhile now_ts p r h = h
  connect_on-IsLive (some i) host true opened closing meanwhile now_ts p r h =
      connect_to-IsLive host opened closing meanwhile now_ts p r h
  connect_on-IsLive (some i) host false opened closing meanwhile now_ts p r h = h

  connect_with-IsLive :
      (symbol timeframe host : Option String) (resolved opened : Bool) (closing : List Push)
      (meanwhile : List Arrival) (now_ts : ℕ) (p : LiveProvider)
      → IsResumable seen p
      → IsLive seen p
      → IsLive seen (
          connected_provider
            (connect_with symbol timeframe host resolved opened closing meanwhile now_ts p))
  unfolding connect_with
  connect_with-IsLive none timeframe host resolved opened closing meanwhile now_ts p r h = h
  connect_with-IsLive (some s) none host resolved opened closing meanwhile now_ts p r h = h
  connect_with-IsLive (some s) (some t) host resolved opened closing meanwhile now_ts p r h =
      connect_on-IsLive _ host resolved opened closing meanwhile now_ts p r h

Reached-trans : (s t u : Option ℕ) → Reached s t → Reached t u → Reached s u
Reached-trans none t u a b = tt
Reached-trans (some s) none u a b = absurd a
Reached-trans (some s) (some t) none a b = b
Reached-trans (some s) (some t) (some u) a b = omega (arith, a, b)

Step-IsRunning : {r r' : Run} → Step r r' → IsRunning r → IsRunning r'
Step-IsRunning (disconnected closing r) h =
    running _ (disconnect-IsLive closing r.seen r.provider h.resumable)
Step-IsRunning (connected c resolved opened closing meanwhile now_ts r on) h = running _ (
    unfold connect in
    connect_with-IsLive r.seen c.symbol c.timeframe c.ws_public resolved opened closing meanwhile
      now_ts r.provider h.resumable (h.going on))
Step-IsRunning (arrived a r on) h =
    running _ (arrive-IsKept (IsLive-IsKept r.seen) a r.provider (h.going on))
Step-IsRunning (reconnected w timeframe p r on e) h =
    running _ (
      Resumed-of (complete p) (on_reconnect-IsResumed w timeframe r.seen r.provider (h.going on)) e)
Step-IsRunning (reconnect_raised w timeframe p r on e) h =
    let rewound =
      Resumed-of (raised p) (on_reconnect-IsResumed w timeframe r.seen r.provider (h.going on)) e in
    record {
      resumable = (
        h.resumable.0,
        Reached-trans (newest_closed r.seen) r.provider.last_closed_bar_ts p.last_closed_bar_ts
            h.resumable.1 rewound.not_back,
      );
      going = λ on'. cc;
    }
Step-IsRunning (reconnect_crashed w timeframe p r on e) h =
    running _
      (Resumed-of (crashed p) (on_reconnect-IsResumed w timeframe r.seen r.provider (h.going on)) e)
Step-IsRunning (backfilled w timeframe since bars p r on e) h = running _ (
    subst (Leaves (IsLive r.seen)) e
      (backfill_closed_bars-IsLive w timeframe since r.seen r.provider (h.going on)))
Step-IsRunning (backfill_raised w timeframe since p r on e) h = running _ (
    subst (Leaves (IsLive r.seen)) e
      (backfill_closed_bars-IsLive w timeframe since r.seen r.provider (h.going on)))
Step-IsRunning (watched b p r on e) h =
    running _ (subst (Delivers r.seen) e (watch_ohlcv-Delivers r.seen r.provider (h.going on)))
Step-IsRunning (watch_raised p r on e) h =
    running _ (subst (Delivers r.seen) e (watch_ohlcv-Delivers r.seen r.provider (h.going on)))
Step-IsRunning (watch_waits p r on e) h =
    running _ (subst (Delivers r.seen) e (watch_ohlcv-Delivers r.seen r.provider (h.going on)))

Reach-IsRunning : {r : Run} → Reach r → IsRunning r
Reach-IsRunning start = running _ (record { order = tt; final = tt; held = tt; forming = tt }, tt)
Reach-IsRunning (next s step) = Step-IsRunning step (Reach-IsRunning s)

-- However the operations of a live provider and what arrives from its stream follow one another, over
-- any number of connections, as long as a reconnect that raised a `BybitError` is followed by a
-- disconnect: each update that `watch_ohlcv` returns, of a closed bar or a forming one, is of a later bar
-- than every closed bar that it returned before. The bars that `backfill_closed_bars` hands over are not
-- among these.
pub seen-Ordered : {r : Run} → Reach r → Ordered r.seen
seen-Ordered s = (Reach-IsRunning s).resumable.0

-- The same, of all that still is to come from `watch_ohlcv`: unless the last reconnect raised a
-- `BybitError`, what is queued continues its updates in order, the closed-bar cursor has reached it, and
-- the forming bar is later than all of these.
pub queued-IsLive : {r : Run} → Reach r → r.aborted ≡ false → IsLive r.seen r.provider
queued-IsLive s on = (Reach-IsRunning s).going on

-- In every such run, also after a reconnect that raised: no closed bar that `watch_ohlcv` returned is
-- later than the cursor from which the next backfill starts.
pub cursor-Reached :
    {r : Run} → Reach r → Reached (newest_closed r.seen) r.provider.last_closed_bar_ts
cursor-Reached s = (Reach-IsRunning s).resumable.1
