-- ===== src/Live/Delivery.antt =====
-- The consumer's calls: what one round of `watch_ohlcv` takes, and that it delivers the whole queue.
use mathlib.Core.Path.{subst}
use pynecore_plugin_bybit.Prelude.{
  ℕ, Bool, true, false, ◌≡◌, refl, sym, ap, ◌∙◌, Option, none, some, List, [], ◌∷◌, ◌++◌, map,
  length, zero, suc, if◌then◌else◌,
}
use pynecore_plugin_bybit.Live.State.{Ohlcv, LiveProvider}
use pynecore_plugin_bybit.Live.Consumer.{
  Watched, update, stream_closed, unconnected, waiting, watch_snapshot, watch_item, watch_queue,
  watch_on, watch_ohlcv,
}
use pynecore_plugin_bybit.Live.Order.{
  drained, queued, newest_closed, Ordered, Reached, Forming, InOrder, IsLive,
}

-- What a round leaves, with the update added to what the consumer has seen.
abbrev pub Delivers : List Ohlcv → Watched → Type 0
Delivers seen (update b p) = IsLive (b ∷ seen) p
Delivers seen (stream_closed p) = IsLive seen p
Delivers seen unconnected = Unit
Delivers seen (waiting p) = IsLive seen p

forming_seen :
    (b : Ohlcv) (seen : List Ohlcv) (cursor : Option ℕ)
    → b.is_closed ≡ false
    → Reached (newest_closed seen) cursor
    → Reached (newest_closed (b ∷ seen)) cursor
forming_seen b seen cursor still r =
    subst (λ (t : Bool). Reached (if t then some b.timestamp else newest_closed seen) cursor)
      (sym still) r

module _ (seen : List Ohlcv) (p : LiveProvider) where
  watch_snapshot-Delivers :
      (snapshot : Option Ohlcv)
      → p.update_queue ≡ some []
      → Forming (newest_closed seen) snapshot
      → IsLive seen p
      → Delivers seen (watch_snapshot snapshot p)
  unfolding watch_snapshot
  watch_snapshot-Delivers none e f h = h
  watch_snapshot-Delivers (some b) e f h =
      let order : Ordered seen =
        subst (λ (q : Option (List (Option Ohlcv))). Ordered (queued q seen)) e h.0.order in
      let reached : Reached (newest_closed seen) p.last_closed_bar_ts =
        subst
          (λ (q : Option (List (Option Ohlcv))).
            Reached (newest_closed (queued q seen)) p.last_closed_bar_ts)
          e h.1 in
      (
        record { order = rw e (f.1, order); final = h.0.final; held = h.0.held; forming = tt },
        rw e (forming_seen b seen p.last_closed_bar_ts f.0 reached),
      )

  watch_item-Delivers :
      (item : Option Ohlcv) (rest : List (Option Ohlcv))
      → InOrder seen (some (item ∷ rest)) p.pending_closed p.latest_snapshot
      → Reached (newest_closed (drained (item ∷ rest) seen)) p.last_closed_bar_ts
      → Delivers seen (watch_item item (record p { update_queue = some rest }))
  unfolding watch_item
  watch_item-Delivers none rest o r =
      (record { order = o.order; final = o.final; held = o.held; forming = o.forming }, r)
  watch_item-Delivers (some b) rest o r =
      (record { order = o.order; final = o.final.1; held = o.held; forming = o.forming }, r)

  watch_queue-Delivers :
      (items : List (Option Ohlcv))
      → p.update_queue ≡ some items
      → IsLive seen p
      → Delivers seen (watch_queue items p)
  unfolding watch_queue
  watch_queue-Delivers [] e h =
      watch_snapshot-Delivers p.latest_snapshot e
        (subst
          (λ (q : Option (List (Option Ohlcv))).
            Forming (newest_closed (queued q seen)) p.latest_snapshot)
          e h.0.forming)
        h
  watch_queue-Delivers (item ∷ rest) e h =
      watch_item-Delivers item rest
        (subst
          (λ (q : Option (List (Option Ohlcv))). InOrder seen q p.pending_closed p.latest_snapshot)
          e h.0)
        (subst
          (λ (q : Option (List (Option Ohlcv))).
            Reached (newest_closed (queued q seen)) p.last_closed_bar_ts)
          e h.1)

  watch_on-Delivers :
      (queue : Option (List (Option Ohlcv))) (event : Option Bool)
      → p.update_queue ≡ queue
      → IsLive seen p
      → Delivers seen (watch_on queue event p)
  unfolding watch_on
  watch_on-Delivers none event e h = tt
  watch_on-Delivers (some items) none e h = tt
  watch_on-Delivers (some items) (some ready) e h = watch_queue-Delivers items e h

  pub watch_ohlcv-Delivers : IsLive seen p → Delivers seen (watch_ohlcv p)
  unfolding watch_ohlcv
  watch_ohlcv-Delivers h = watch_on-Delivers p.update_queue p.data_ready refl h

abbrev and_then : (LiveProvider → List Ohlcv) → Watched → List Ohlcv
and_then next (update b p) = b ∷ next p
and_then next (stream_closed p) = []
and_then next unconnected = []
and_then next (waiting p) = []

-- the updates that `n` calls return, in order, up to the first that returns none
abbrev pub watch_times : ℕ → LiveProvider → List Ohlcv
watch_times zero p = []
watch_times (suc n) p = and_then (watch_times n) (watch_ohlcv p)

abbrev pub as_list : Option Ohlcv → List Ohlcv
as_list none = []
as_list (some b) = b ∷ []

-- an open stream that holds these bars, oldest first
abbrev pub IsOpen : List Ohlcv → LiveProvider → Type 0
IsOpen bars p = (p.update_queue ≡ some (map some bars)) × (p.data_ready ≡ some true)

watch_ohlcv-open :
    (items : List (Option Ohlcv)) (p : LiveProvider)
    → p.update_queue ≡ some items
    → p.data_ready ≡ some true
    → watch_ohlcv p ≡ watch_queue items p
unfolding watch_ohlcv watch_on
watch_ohlcv-open items p e r =
    ap (λ q. watch_on q p.data_ready p) e ∙ ap (λ ready. watch_on (some items) ready p) r

and_then-snapshot :
    (snapshot : Option Ohlcv) (p : LiveProvider)
    → and_then (watch_times 0) (watch_snapshot snapshot p) ≡ as_list snapshot
unfolding watch_snapshot
and_then-snapshot none p = refl
and_then-snapshot (some b) p = refl

-- On an open stream that is ready and holds some closed bars, and a forming bar or none, calls of
-- `watch_ohlcv` return each of the bars in the order they were queued and the forming bar last; no
-- call before that waits or fails.
pub watch_times-delivers :
    (bars : List Ohlcv) (p : LiveProvider)
    → IsOpen bars p
    → watch_times (suc (length bars)) p ≡ bars ++ as_list p.latest_snapshot
unfolding watch_queue watch_item
watch_times-delivers [] p o =
    ap (and_then (watch_times 0)) (watch_ohlcv-open [] p o.0 o.1)
    ∙ and_then-snapshot p.latest_snapshot p
watch_times-delivers (b ∷ bars) p o =
    ap (and_then (watch_times (suc (length bars))))
      (watch_ohlcv-open (some b ∷ map some bars) p o.0 o.1)
    ∙ ap (◌∷◌ b)
        (watch_times-delivers bars (record p { update_queue = some (map some bars) }) (refl, o.1))
