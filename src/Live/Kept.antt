-- ===== src/Live/Kept.antt =====
-- What nothing that arrives from the stream takes away: a property that each change of the provider
-- keeps is kept by whatever the event loop runs.
use pynecore_plugin_bybit.Prelude.{
  ℕ, ◌-◌, Bool, true, false, not, ◌&&◌, ◌≡◌, refl, Option, none, some, List, [], ◌∷◌, ◌++◌, leb,
  if_rule,
}
use pynecore_plugin_bybit.Prelude.Texts.{codes, begins}
use pynecore_plugin_bybit.Live.State.{
  Ohlcv, Socket, LiveProvider, ws_stale_threshold_ms, is_settled, set_ready,
}
use pynecore_plugin_bybit.Live.Dispatch.{
  KlineEntry, Push, bar_of, enqueue_closed, note_trade, on_closed_bar, on_bar, on_entry, on_entries,
  on_push, on_ws_message, on_messages, on_ws_closed, shut, on_death, force_close, watch_feed,
  feed_watchdog, Arrival, pushed, died, ticked, arrive, arrive_all,
}

-- the single changes by a push: a bar queued, held back or shown, the trade noted, the event set
pub record IsPushed (P : LiveProvider → Type 0) : Type 0 where
  pub enqueues :
      (b : Ohlcv) (p : LiveProvider)
      → b.is_closed ≡ true
      → is_settled b.timestamp p.last_closed_bar_ts ≡ false
      → P p
      → P (enqueue_closed b p)
  pub holds :
      (pending : List Ohlcv) (b : Ohlcv) (p : LiveProvider)
      → p.pending_closed ≡ some pending
      → b.is_closed ≡ true
      → P p
      → P (record p { pending_closed = some (pending ++ b ∷ []) })
  pub notes : (b : Ohlcv) (p : LiveProvider) → P p → P (note_trade b p)
  pub shows :
      (b : Ohlcv) (p : LiveProvider)
      → b.is_closed ≡ false
      → is_settled b.timestamp p.last_closed_bar_ts ≡ false
      → P p
      → P (record p { latest_snapshot = some b })
  pub wakes : (p : LiveProvider) → P p → P (set_ready p)

-- and the others: the sentinel put, the socket or the watchdog changed
pub record IsKept (P : LiveProvider → Type 0) : Type 0 where
  pub pushes : IsPushed P
  pub closes : (p : LiveProvider) → P p → P (on_ws_closed p)
  pub connects :
      (ws : Option Socket) (task : Bool) (p : LiveProvider)
      → P p
      → P (record p { public_ws = ws; watchdog_task = task })

unsettled :
    (b : Ohlcv) (p : LiveProvider)
    → b.is_closed ≡ false
    → (not b.is_closed && is_settled b.timestamp p.last_closed_bar_ts) ≡ false
    → is_settled b.timestamp p.last_closed_bar_ts ≡ false
unsettled b p still kept = cc

module _ {P : LiveProvider → Type 0} (k : IsPushed P) where
  on_closed_bar-IsKept :
      (pending : Option (List Ohlcv)) (b : Ohlcv) (p : LiveProvider)
      → p.pending_closed ≡ pending
      → b.is_closed ≡ true
      → P p
      → P (on_closed_bar pending b p)
  unfolding on_closed_bar
  on_closed_bar-IsKept none b p e final h =
      if_rule P (is_settled b.timestamp p.last_closed_bar_ts) _ _ (λ old. h)
        (λ later. k.enqueues b p final later h)
  on_closed_bar-IsKept (some pending) b p e final h = k.holds pending b p e final h

  on_bar-IsKept : (b : Ohlcv) (p : LiveProvider) → P p → P (on_bar b p)
  unfolding on_bar note_trade
  on_bar-IsKept b p h =
      if_rule P (not b.is_closed && is_settled b.timestamp p.last_closed_bar_ts) _ _ (λ stale. h)
        (λ kept.
          if_rule P b.is_closed _ _
            (λ final.
              on_closed_bar-IsKept p.pending_closed b (note_trade b p) refl final (k.notes b p h))
            (λ still. k.shows b (note_trade b p) still (unsettled b p still kept) (k.notes b p h)))

  on_entry-IsKept : (bar : Option Ohlcv) (p : LiveProvider) → P p → P (on_entry bar p)
  unfolding on_entry
  on_entry-IsKept none p h = h
  on_entry-IsKept (some b) p h = on_bar-IsKept b p h

  on_entries-IsKept : (es : List KlineEntry) (p : LiveProvider) → P p → P (on_entries es p)
  unfolding on_entries
  on_entries-IsKept [] p h = h
  on_entries-IsKept (e ∷ es) p h =
      on_entries-IsKept es (on_entry (bar_of e) p) (on_entry-IsKept (bar_of e) p h)

  on_push-IsKept :
      (queue : Option (List (Option Ohlcv))) (m : Push) (p : LiveProvider)
      → P p
      → P (on_push queue m p)
  unfolding on_push
  on_push-IsKept none m p h = h
  on_push-IsKept (some items) m p h =
      if_rule P (begins (codes "kline.") (codes m.topic)) _ _
        (λ kline. k.wakes (on_entries m.entries p) (on_entries-IsKept m.entries p h)) (λ other. h)

  pub on_messages-IsKept : (ms : List Push) (p : LiveProvider) → P p → P (on_messages ms p)
  unfolding on_messages on_ws_message
  on_messages-IsKept [] p h = h
  on_messages-IsKept (m ∷ ms) p h = on_messages-IsKept ms _ (on_push-IsKept p.update_queue m p h)

module _ {P : LiveProvider → Type 0} (k : IsKept P) where
  watch_feed-IsKept :
      (ws : Option Socket) (now_ts : ℕ) (closing : List Push) (p : LiveProvider)
      → P p
      → P (watch_feed ws now_ts closing p)
  unfolding watch_feed force_close
  watch_feed-IsKept none now_ts closing p h = k.connects p.public_ws false p h
  watch_feed-IsKept (some ws) now_ts closing p h =
      if_rule P (leb (now_ts - ws.last_message_ts) ws_stale_threshold_ms) _ _ (λ heard. h)
        (λ silent. k.closes _ (on_messages-IsKept k.pushes closing _ (k.connects none false p h)))

  pub arrive-IsKept : (a : Arrival) (p : LiveProvider) → P p → P (arrive a p)
  unfolding arrive on_ws_message on_death feed_watchdog
  arrive-IsKept (pushed m) p h = on_push-IsKept k.pushes p.update_queue m p h
  arrive-IsKept died p h = k.closes _ (k.connects (shut p.public_ws) p.watchdog_task p h)
  arrive-IsKept (ticked now_ts closing) p h =
      if_rule P p.watchdog_task _ _ (λ on. watch_feed-IsKept p.public_ws now_ts closing p h)
        (λ off. h)

  pub arrive_all-IsKept :
      (arrivals : List Arrival) (p : LiveProvider) → P p → P (arrive_all arrivals p)
  unfolding arrive_all
  arrive_all-IsKept [] p h = h
  arrive_all-IsKept (a ∷ rest) p h = arrive_all-IsKept rest (arrive a p) (arrive-IsKept a p h)
