-- ===== src/Live/Recovery.antt =====
-- What `backfill_closed_bars` hands to the framework, and that it comes to an end.
use pynecore_plugin_bybit.Prelude.{
  ℕ, zero, suc, ◌*◌, ◌≤◌, ◌<◌, true, false, ◌≡◌, refl, Option, none, some, List, [], ◌∷◌, leb, ltb,
  if◌then◌else◌, if_rule, String, arith,
}
use pynecore_plugin_bybit.Helpers.Timeframes.{add_interval, bar_close_ts, to_exchange_timeframe}
use pynecore_plugin_bybit.Helpers.Timeframes.Calendar.{add_interval_later}
use pynecore_plugin_bybit.Live.State.{Ohlcv, LiveProvider, is_settled, is_beyond}
use pynecore_plugin_bybit.Live.Dispatch.{Arrival, arrive_all}
use pynecore_plugin_bybit.Live.Kept.{arrive_all-IsKept}
use pynecore_plugin_bybit.Live.Backfill.{
  Row, Prices, Answer, no_answer, untimed, answered, closed_bar, ascending_rows, or_zero, chunk_end,
  past_chunk, World,
}
use pynecore_plugin_bybit.Live.Startup.{
  advance_closed_cursor, newest_recovered, Recovery, recover_bar, recover_row, recover_rows,
  cursor_past, Recovered, found, error, Search, broken, searched, take_recovery, take_found,
  hand_over, search_chunk, after_search, search_window, search_fuel, search_gap, search_on,
  backfill_closed_bars,
}
use pynecore_plugin_bybit.Live.Ends.{
  AtLeast, AtLeast-IsKept, past_chunk_later, left, left_wrote, left_skipped, fuel_enough,
}

-- the newest bar the run holds: of those recovered, or the one it had
abbrev pub held_until : ℕ → List Ohlcv → ℕ
held_until since [] = since
held_until since (b ∷ bs) = b.timestamp

-- Newest first: each bar is closed by now, and later than all that the run held before it.
abbrev pub Gapless : String → ℕ → ℕ → List Ohlcv → Type 0
Gapless interval since now_ts [] = Unit
Gapless interval since now_ts (b ∷ bs) =
    (held_until since bs < b.timestamp)
    × (bar_close_ts b.timestamp interval ≤ now_ts)
    × (b.is_closed ≡ true)
    × Gapless interval since now_ts bs

-- what a chunk has found, of a run that held bars until `c`
abbrev Gains : ℕ → ℕ → ℕ → Option ℕ → List Ohlcv → Type 0
Gains since c now_ts none bars = c ≤ held_until since bars
Gains since c now_ts (some t) bars =
    (t ≡ held_until since bars) × (c < held_until since bars) × (held_until since bars ≤ now_ts)

module _ (interval : String) (since now_ts : ℕ) where
  abbrev Finds : ℕ → Recovery → Type 0
  Finds c r = Gapless interval since now_ts r.recovered × Gains since c now_ts r.newest r.recovered

  held_until_later :
      (c : ℕ) (newest : Option ℕ) (bars : List Ohlcv)
      → Gains since c now_ts newest bars
      → c ≤ held_until since bars
  held_until_later c none bars h = h
  held_until_later c (some t) bars h = omega (arith, h.1)

  later_than_held :
      (t : ℕ) (bars : List Ohlcv)
      → leb t since ≡ false
      → is_settled t (newest_recovered bars) ≡ false
      → held_until since bars < t
  unfolding is_settled newest_recovered
  later_than_held t [] h k = ground arith
  later_than_held t (b ∷ bs) h k = ground arith

  recover_bar-Finds :
      (c start : ℕ) (prices : Option Prices) (r : Recovery)
      → Finds c r
      → leb start since ≡ false
      → is_settled start (newest_recovered r.recovered) ≡ false
      → ltb now_ts (bar_close_ts start interval) ≡ false
      → Finds c (recover_bar start prices r)
  unfolding recover_bar closed_bar bar_close_ts
  recover_bar-Finds c start none r h later unknown shut = h
  recover_bar-Finds c start (some prices) r h later unknown shut =
      let up = add_interval_later start interval 1 (omega arith) in
      let past = later_than_held start r.recovered later unknown in
      let over : add_interval start interval 1 ≤ now_ts = ground (arith, shut) in
      let reach = held_until_later c r.newest r.recovered h.1 in
      ((past, over, refl, h.0), (refl, omega (arith, past, reach), omega (arith, up, over)))

  recover_row-Finds :
      (c : ℕ) (row : Row) (r : Recovery)
      → Finds c r
      → Finds c (recover_row interval now_ts since row r)
  unfolding recover_row
  recover_row-Finds c row r h =
      if_rule (Finds c) r.crash _ _ (λ crash. h)
        (λ readable.
          if_rule (Finds c) (leb row.start since) _ _ (λ old. h)
            (λ later.
              if_rule (Finds c) (is_settled row.start (newest_recovered r.recovered)) _ _
                (λ known. h)
                (λ unknown.
                  if_rule (Finds c) (ltb now_ts (bar_close_ts row.start interval)) _ _
                    (λ forming. h)
                    (λ shut. recover_bar-Finds c row.start row.prices r h later unknown shut))))

  recover_rows-Finds :
      (c : ℕ) (rows : List Row) (r : Recovery)
      → Finds c r
      → Finds c (recover_rows interval now_ts since rows r)
  unfolding recover_rows
  recover_rows-Finds c [] r h = h
  recover_rows-Finds c (row ∷ rows) r h =
      recover_rows-Finds c rows (recover_row interval now_ts since row r)
        (recover_row-Finds c row r h)

  -- What a search promises: bars without a gap in their order, and a cursor that has reached them.
  abbrev pub Handed : Recovered → Type 0
  Handed (found bars p) = Gapless interval since now_ts bars × AtLeast (held_until since bars) p
  Handed (error p) = AtLeast since p

  pub record IsHanded (o : Option Recovered) : Type 0 where
    pub result : Recovered
    pub ends : o ≡ some result
    pub handed : Handed result

  pub advance_closed_cursor-AtLeast :
      (t : ℕ) (p : LiveProvider) → AtLeast t (advance_closed_cursor t p)
  unfolding advance_closed_cursor
  advance_closed_cursor-AtLeast t p = go p.last_closed_bar_ts
    where
      go : (cursor : Option ℕ) → t ≤ or_zero (if is_beyond t cursor then some t else cursor)
      go none = unfold or_zero is_beyond in omega arith
      go (some c) = unfold or_zero is_beyond in ground arith

  hand_over-Handed :
      (bars : List Ohlcv) (p : LiveProvider)
      → Gapless interval since now_ts bars
      → AtLeast since p
      → Handed (hand_over bars p)
  unfolding hand_over
  hand_over-Handed [] p g h = (tt, h)
  hand_over-Handed (b ∷ bs) p g h = (g, advance_closed_cursor-AtLeast b.timestamp p)

  -- a chunk breaks the search off, or leaves fewer to go
  abbrev Comes : ℕ → Search → Type 0
  Comes fuel (broken p) = AtLeast since p
  Comes fuel (searched cursor bars p) =
      AtLeast since p
      × Gapless interval since now_ts bars
      × (left now_ts (held_until since bars) cursor ≤ fuel)

  cursor_comes :
      (end c cursor fuel : ℕ) (newest : Option ℕ) (bars : List Ohlcv)
      → Gains since c now_ts newest bars
      → cursor ≤ now_ts
      → left now_ts c cursor ≤ suc fuel
      → left now_ts (held_until since bars) (cursor_past interval end cursor newest) ≤ fuel
  unfolding cursor_past
  cursor_comes end c cursor fuel none bars h top enough =
      left_skipped now_ts c (held_until since bars) cursor (past_chunk interval end cursor) fuel h
        (past_chunk_later interval end cursor) top enough
  cursor_comes end c cursor fuel (some t) bars h top enough =
      left_wrote now_ts c (held_until since bars) cursor (add_interval t interval 1) fuel h.1 h.2
        enough

  take_found-Comes :
      (end cursor fuel : ℕ) (rows : Answer) (bars : List Ohlcv) (p : LiveProvider)
      → AtLeast since p
      → Gapless interval since now_ts bars
      → cursor ≤ now_ts
      → left now_ts (held_until since bars) cursor ≤ suc fuel
      → Comes fuel (take_found interval now_ts since end cursor rows bars p)
  unfolding take_found take_recovery
  take_found-Comes end cursor fuel no_answer bars p h g top enough = h
  take_found-Comes end cursor fuel untimed bars p h g top enough = h
  take_found-Comes end cursor fuel (answered rows) bars p h g top enough =
      let c = held_until since bars in
      let start : Recovery = record { recovered = bars; newest = none; crash = false } in
      let r = recover_rows interval now_ts since (ascending_rows rows) start in
      let (gapless, gains) = recover_rows-Finds c (ascending_rows rows) start (g, omega arith) in
      if_rule (Comes fuel) r.crash _ _ (λ crash. h)
        (λ readable. (h, gapless, cursor_comes end c cursor fuel _ _ gains top enough))

  module _ (venue : ℕ → ℕ → List Arrival × Answer) where
    after_search-IsHanded :
        (next : ℕ → List Ohlcv → LiveProvider → Option Recovered) (fuel : ℕ) (s : Search)
        → ((cursor : ℕ) (bars : List Ohlcv) (p : LiveProvider)
            → Comes fuel (searched cursor bars p)
            → IsHanded (next cursor bars p))
        → Comes fuel s
        → IsHanded (after_search venue interval now_ts since next s)
    unfolding after_search
    after_search-IsHanded next fuel (broken p) ih h = record {
      result = error p;
      ends = refl;
      handed = h;
    }
    after_search-IsHanded next fuel (searched cursor bars p) ih h = ih cursor bars p h

    finished :
        (bars : List Ohlcv) (p : LiveProvider)
        → Gapless interval since now_ts bars
        → AtLeast since p
        → IsHanded (some (hand_over bars p))
    finished bars p g h = record {
      result = hand_over bars p;
      ends = refl;
      handed = hand_over-Handed bars p g h;
    }

    search_window-IsHanded :
        (fuel cursor : ℕ) (bars : List Ohlcv) (p : LiveProvider)
        → Comes fuel (searched cursor bars p)
        → IsHanded (search_window venue interval now_ts since (suc fuel) cursor bars p)
    unfolding search_window bar_close_ts search_chunk
    search_window-IsHanded zero cursor bars p (h, g, enough) =
        let up = add_interval_later cursor interval 1 (omega arith) in
        if_rule IsHanded (leb (add_interval cursor interval 1) now_ts) _ _
          (λ more. absurd (ground (arith, up, more, enough))) (λ over. finished bars p g h)
    search_window-IsHanded (suc n) cursor bars p (h, g, enough) =
        let up = add_interval_later cursor interval 1 (omega arith) in
        let arrived = (venue cursor (chunk_end interval now_ts cursor)).0 in
        if_rule IsHanded (leb (add_interval cursor interval 1) now_ts) _ _
          (λ more.
            after_search-IsHanded (search_window venue interval now_ts since (suc n)) n _
              (λ c bs q left_over. search_window-IsHanded n c bs q left_over)
              (take_found-Comes _ cursor n _ bars (arrive_all arrived p)
                (arrive_all-IsKept (AtLeast-IsKept since) arrived p h) g (ground (arith, up, more))
                enough))
          (λ over. finished bars p g h)

search_gap-IsHanded :
    (w : World) (interval : String) (since cursor : ℕ) (p : LiveProvider)
    → AtLeast since p
    → IsHanded interval since w.now_ts (search_gap w interval since cursor p)
unfolding search_gap search_fuel
search_gap-IsHanded w interval since cursor p h =
    let arrived = arrive_all w.meanwhile p in
    let kept = arrive_all-IsKept (AtLeast-IsKept since) w.meanwhile p h in
    if_rule (IsHanded interval since w.now_ts) (ltb w.now_ts (bar_close_ts cursor interval)) _ _
      (λ early. record { result = found [] p; ends = refl; handed = (tt, h) })
      (λ due.
        if_rule (IsHanded interval since w.now_ts) w.resolved _ _
          (λ known.
            search_window-IsHanded interval since w.now_ts w.venue
              (suc w.now_ts * suc (suc w.now_ts)) cursor [] arrived
              (kept, tt, fuel_enough w.now_ts since cursor))
          (λ unknown. record { result = error arrived; ends = refl; handed = kept }))

-- Whatever the venue answers and whatever the stream delivers meanwhile, the search for the bars
-- between the warmup history and the stream comes to an end. The bars it hands over are closed, each
-- strictly later than the one before it and than the last bar the run held, none still forming at the
-- clock of the call; and the closed-bar cursor has then reached the newest of them, or the bar the run
-- held. Where a request raises or a row cannot be read, the cursor has reached that bar too. The timeframe is one of the venue.
pub backfill_closed_bars-IsHanded :
    (w : World) (timeframe interval : String) (since_ms : ℕ) (p : LiveProvider)
    → to_exchange_timeframe timeframe ≡ some interval
    → IsHanded interval since_ms w.now_ts (backfill_closed_bars w timeframe since_ms p)
unfolding backfill_closed_bars search_on
backfill_closed_bars-IsHanded w timeframe interval since_ms p e = rw e (
    search_gap-IsHanded w interval since_ms (add_interval since_ms interval 1)
      (advance_closed_cursor since_ms p)
      (advance_closed_cursor-AtLeast interval since_ms w.now_ts since_ms p))
