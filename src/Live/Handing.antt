-- ===== src/Live/Handing.antt =====
-- The search for the bars between the warmup history and the stream keeps what the arrivals keep and what
-- moving the cursor on keeps.
use pynecore_plugin_bybit.Prelude.{
  ℕ, zero, suc, Option, none, some, List, [], ◌∷◌, leb, ltb, if◌then◌else◌, if_rule, String, arith,
}
use pynecore_plugin_bybit.Helpers.Timeframes.{add_interval, bar_close_ts, to_exchange_timeframe}
use pynecore_plugin_bybit.Live.State.{Ohlcv, LiveProvider, is_beyond}
use pynecore_plugin_bybit.Live.Dispatch.{Arrival, arrive_all}
use pynecore_plugin_bybit.Live.Kept.{IsKept, arrive_all-IsKept}
use pynecore_plugin_bybit.Live.Backfill.{Answer, no_answer, untimed, answered, chunk_end, World}
use pynecore_plugin_bybit.Live.Startup.{
  advance_closed_cursor, Recovery, cursor_past, Recovered, found, error, Search, broken, searched,
  take_recovery, take_found, hand_over, search_chunk, after_search, search_window, search_fuel,
  search_gap, search_on, backfill_closed_bars,
}
use pynecore_plugin_bybit.Live.Order.{Reached, newest_closed, queued, IsLive, IsLive-IsKept}

-- the provider that a search leaves
abbrev pub Leaves : (LiveProvider → Type 0) → Option Recovered → Type 0
Leaves P none = Unit
Leaves P (some (found bars p)) = P p
Leaves P (some (error p)) = P p

abbrev Holds : (LiveProvider → Type 0) → Search → Type 0
Holds P (broken p) = P p
Holds P (searched cursor bars p) = P p

module _ {P : LiveProvider → Type 0} (k : IsKept P)
    (on : (t : ℕ) (p : LiveProvider) → P p → P (advance_closed_cursor t p)) where
  hand_over-Leaves :
      (bars : List Ohlcv) (p : LiveProvider) → P p → Leaves P (some (hand_over bars p))
  unfolding hand_over
  hand_over-Leaves [] p h = h
  hand_over-Leaves (b ∷ bs) p h = on b.timestamp p h

  take_recovery-Holds :
      (interval : String) (end cursor : ℕ) (r : Recovery) (p : LiveProvider)
      → P p
      → Holds P (take_recovery interval end cursor r p)
  unfolding take_recovery
  take_recovery-Holds interval end cursor r p h =
      if_rule (Holds P) r.crash (broken p)
        (searched (cursor_past interval end cursor r.newest) r.recovered p) (λ crash. h)
        (λ readable. h)

  take_found-Holds :
      (interval : String) (now_ts since end cursor : ℕ) (a : Answer) (bars : List Ohlcv)
      (p : LiveProvider)
      → P p
      → Holds P (take_found interval now_ts since end cursor a bars p)
  unfolding take_found
  take_found-Holds interval now_ts since end cursor no_answer bars p h = h
  take_found-Holds interval now_ts since end cursor untimed bars p h = h
  take_found-Holds interval now_ts since end cursor (answered rows) bars p h =
      take_recovery-Holds interval end cursor _ p h

  module _ (venue : ℕ → ℕ → List Arrival × Answer) (interval : String) (now_ts since : ℕ) where
    after_search-Leaves :
        (next : ℕ → List Ohlcv → LiveProvider → Option Recovered) (s : Search)
        → ((cursor : ℕ) (bars : List Ohlcv) (p : LiveProvider)
            → P p
            → Leaves P (next cursor bars p))
        → Holds P s
        → Leaves P (after_search venue interval now_ts since next s)
    unfolding after_search
    after_search-Leaves next (broken p) ih h = h
    after_search-Leaves next (searched cursor bars p) ih h = ih cursor bars p h

    search_window-Leaves :
        (fuel cursor : ℕ) (bars : List Ohlcv) (p : LiveProvider)
        → P p
        → Leaves P (search_window venue interval now_ts since fuel cursor bars p)
    unfolding search_window search_chunk
    search_window-Leaves zero cursor bars p h = tt
    search_window-Leaves (suc n) cursor bars p h =
        let end = chunk_end interval now_ts cursor in
        if_rule (Leaves P) (leb (bar_close_ts cursor interval) now_ts) _ _
          (λ more.
            after_search-Leaves (search_window venue interval now_ts since n) _
              (λ c bs q hq. search_window-Leaves n c bs q hq)
              (take_found-Holds interval now_ts since end cursor (venue cursor end).1 bars
                (arrive_all (venue cursor end).0 p) (arrive_all-IsKept k (venue cursor end).0 p h)))
          (λ over. hand_over-Leaves bars p h)

  search_on-Leaves :
      (w : World) (interval : Option String) (since : ℕ) (p : LiveProvider)
      → P p
      → Leaves P (search_on w interval since p)
  unfolding search_on search_gap
  search_on-Leaves w none since p h = h
  search_on-Leaves w (some i) since p h =
      let q = advance_closed_cursor since p in
      let cursor = add_interval since i 1 in
      let kept = arrive_all-IsKept k w.meanwhile q (on since p h) in
      if_rule (Leaves P) (ltb w.now_ts (bar_close_ts cursor i)) _ _ (λ early. on since p h)
        (λ due.
          if_rule (Leaves P) w.resolved _ _
            (λ known.
              search_window-Leaves w.venue i w.now_ts since (search_fuel w.now_ts) cursor []
                (arrive_all w.meanwhile q) kept)
            (λ unknown. kept))

  pub backfill_closed_bars-Leaves :
      (w : World) (timeframe : String) (since : ℕ) (p : LiveProvider)
      → P p
      → Leaves P (backfill_closed_bars w timeframe since p)
  unfolding backfill_closed_bars
  backfill_closed_bars-Leaves w timeframe since p h =
      search_on-Leaves w (to_exchange_timeframe timeframe) since p h

Reached-beyond :
    (newest : Option ℕ) (t : ℕ) (cursor : Option ℕ)
    → Reached newest cursor
    → Reached newest (if is_beyond t cursor then some t else cursor)
unfolding is_beyond
Reached-beyond none t none r = tt
Reached-beyond none t (some c) r = tt
Reached-beyond (some s) t none r = absurd r
Reached-beyond (some s) t (some c) r =
    if_rule (Reached (some s)) (ltb c t) _ _ (λ beyond. ground (arith, r, beyond)) (λ behind. r)

advance_closed_cursor-IsLive :
    (seen : List Ohlcv) (t : ℕ) (p : LiveProvider)
    → IsLive seen p
    → IsLive seen (advance_closed_cursor t p)
unfolding advance_closed_cursor
advance_closed_cursor-IsLive seen t p h = (
  record { order = h.0.order; final = h.0.final; held = h.0.held; forming = h.0.forming },
  Reached-beyond (newest_closed (queued p.update_queue seen)) t p.last_closed_bar_ts h.1,
)

-- The search keeps the order of what is queued, whatever it hands over.
pub backfill_closed_bars-IsLive :
    (w : World) (timeframe : String) (since : ℕ) (seen : List Ohlcv) (p : LiveProvider)
    → IsLive seen p
    → Leaves (IsLive seen) (backfill_closed_bars w timeframe since p)
backfill_closed_bars-IsLive w timeframe since seen p h =
    backfill_closed_bars-Leaves (IsLive-IsKept seen) (advance_closed_cursor-IsLive seen) w timeframe
      since p h
