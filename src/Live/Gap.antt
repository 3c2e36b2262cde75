-- ===== src/Live/Gap.antt =====
-- The backfill of a reconnect, whatever the venue answers and whatever arrives meanwhile: it comes to
-- an end, and keeps what the arrivals keep.
use pynecore_plugin_bybit.Prelude.{
  ℕ, zero, suc, ◌*◌, ◌≤◌, ◌<◌, false, ◌≡◌, refl, inl, inr, Bool-cases, Option, none, some, List, [],
  ◌∷◌, leb, ltb, if_rule, String, arith,
}
use pynecore_plugin_bybit.Helpers.Timeframes.{add_interval, bar_close_ts, to_exchange_timeframe}
use pynecore_plugin_bybit.Helpers.Timeframes.Calendar.{add_interval_later}
use pynecore_plugin_bybit.Live.State.{Ohlcv, LiveProvider, set_ready}
use pynecore_plugin_bybit.Live.Dispatch.{Arrival, arrive_all}
use pynecore_plugin_bybit.Live.Kept.{IsKept, arrive_all-IsKept}
use pynecore_plugin_bybit.Live.Backfill.{
  Row, Prices, Answer, no_answer, untimed, answered, fill_bar, closed_bar, ascending_rows, or_zero,
  Filling, fill_row, fill_rows, chunk_end, cursor_after, Backfilled, complete, raised, crashed,
  Round, failed, unreadable, moved, after_rows, take_answer, fill_chunk, after_round, fill_window,
  gap_start, gap_fuel, World, fill_gap, fill_from, fill_on, backfill_gap,
}
use pynecore_plugin_bybit.Live.Ends.{
  AtLeast, AtLeast-IsKept, beyond_zero, Fills, fill_rows-Fills, past_chunk_later, left, left_wrote,
  left_skipped, fuel_enough,
}

-- the provider that a backfill leaves
abbrev pub provider_of : Backfilled → LiveProvider
provider_of (complete p) = p
provider_of (raised p) = p
provider_of (crashed p) = p

-- A backfill came to an end, with a provider of which `P` holds.
pub record EndsWith (P : LiveProvider → Type 0) (o : Option Backfilled) : Type 0 where
  pub result : Backfilled
  pub ends : o ≡ some result
  pub provider : P (provider_of result)

-- a round fails or leaves fewer rounds to go
abbrev Nears : (LiveProvider → Type 0) → ℕ → ℕ → Round → Type 0
Nears P now_ts fuel (failed p) = P p
Nears P now_ts fuel (unreadable p) = P p
Nears P now_ts fuel (moved cursor p) =
    P p × (left now_ts (or_zero p.last_closed_bar_ts) cursor ≤ fuel)

module _ {P : LiveProvider → Type 0} (k : IsKept P) where
  fill_bar-IsKept :
      (start : ℕ) (prices : Option Prices) (f : Filling)
      → leb start (or_zero f.provider.last_closed_bar_ts) ≡ false
      → P f.provider
      → P (fill_bar start prices f).provider
  unfolding fill_bar closed_bar
  fill_bar-IsKept start none f later h = h
  fill_bar-IsKept start (some prices) f later h =
      k.pushes.enqueues (closed_bar start prices) f.provider refl
        (beyond_zero start f.provider.last_closed_bar_ts later) h

  fill_row-IsKept :
      (interval : String) (now_ts : ℕ) (r : Row) (f : Filling)
      → P f.provider
      → P (fill_row interval now_ts r f).provider
  unfolding fill_row
  fill_row-IsKept interval now_ts r f h =
      let holds = λ (x : Filling). P x.provider in
      if_rule holds f.crash _ _ (λ crashed. h)
        (λ readable.
          if_rule holds (leb r.start (or_zero f.provider.last_closed_bar_ts)) _ _ (λ old. h)
            (λ later.
              if_rule holds (ltb now_ts (bar_close_ts r.start interval)) _ _ (λ forming. h)
                (λ shut. fill_bar-IsKept r.start r.prices f later h)))

  fill_rows-IsKept :
      (interval : String) (now_ts : ℕ) (rs : List Row) (f : Filling)
      → P f.provider
      → P (fill_rows interval now_ts rs f).provider
  unfolding fill_rows
  fill_rows-IsKept interval now_ts [] f h = h
  fill_rows-IsKept interval now_ts (r ∷ rs) f h =
      fill_rows-IsKept interval now_ts rs (fill_row interval now_ts r f)
        (fill_row-IsKept interval now_ts r f h)

  cursor_nears :
      (interval : String) (now_ts end closed cursor fuel : ℕ) (f : Filling)
      → Fills closed now_ts f
      → cursor ≤ now_ts
      → left now_ts closed cursor ≤ suc fuel
      → left now_ts (or_zero f.provider.last_closed_bar_ts) (cursor_after interval end cursor f)
        ≤ fuel
  unfolding cursor_after
  cursor_nears interval now_ts end closed cursor fuel f h top enough = elim (Bool-cases f.wrote) [
    | inl wrote ↦
        left_wrote now_ts closed (or_zero f.provider.last_closed_bar_ts) cursor
          (cursor_after interval end cursor f) fuel (h.1 wrote).0 (h.1 wrote).1 enough
    | inr empty ↦
        let on : cursor < cursor_after interval end cursor f =
          simp empty (past_chunk_later interval end cursor) in
        left_skipped now_ts closed (or_zero f.provider.last_closed_bar_ts) cursor
          (cursor_after interval end cursor f) fuel h.0 on top enough
  ]

  take_answer-Nears :
      (interval : String) (now_ts end closed cursor fuel : ℕ) (rows : Answer) (p : LiveProvider)
      → AtLeast closed p
      → cursor ≤ now_ts
      → left now_ts closed cursor ≤ suc fuel
      → P p
      → Nears P now_ts fuel (take_answer interval now_ts end cursor rows p)
  unfolding take_answer after_rows
  take_answer-Nears interval now_ts end closed cursor fuel no_answer p c top enough h = h
  take_answer-Nears interval now_ts end closed cursor fuel untimed p c top enough h = h
  take_answer-Nears interval now_ts end closed cursor fuel (answered rows) p c top enough h =
      let f : Filling = record { provider = p; wrote = false; crash = false } in
      let filled = fill_rows interval now_ts (ascending_rows rows) f in
      let kept = fill_rows-IsKept interval now_ts (ascending_rows rows) f h in
      if_rule (Nears P now_ts fuel) filled.crash _ _ (λ crash. kept)
        (λ readable. (
          kept,
          cursor_nears interval now_ts end closed cursor fuel filled
              (fill_rows-Fills interval closed now_ts (ascending_rows rows) f (c, λ e. cc)) top
              enough,
        ))

  module _ (venue : ℕ → ℕ → List Arrival × Answer) (interval : String) (now_ts : ℕ) where
    fill_chunk-Nears :
        (cursor fuel : ℕ) (p : LiveProvider)
        → cursor ≤ now_ts
        → left now_ts (or_zero p.last_closed_bar_ts) cursor ≤ suc fuel
        → P p
        → Nears P now_ts fuel (fill_chunk venue interval now_ts cursor p)
    unfolding fill_chunk
    fill_chunk-Nears cursor fuel p top enough h =
        let closed = or_zero p.last_closed_bar_ts in
        let arrived = (venue cursor (chunk_end interval now_ts cursor)).0 in
        take_answer-Nears interval now_ts _ closed cursor fuel _ (arrive_all arrived p)
          (arrive_all-IsKept (AtLeast-IsKept closed) arrived p (omega arith)) top enough
          (arrive_all-IsKept k arrived p h)

    after_round-EndsWith :
        (next : ℕ → LiveProvider → Option Backfilled) (fuel : ℕ) (r : Round)
        → ((cursor : ℕ) (p : LiveProvider)
            → left now_ts (or_zero p.last_closed_bar_ts) cursor ≤ fuel
            → P p
            → EndsWith P (next cursor p))
        → Nears P now_ts fuel r
        → EndsWith P (after_round venue interval now_ts next r)
    unfolding after_round
    after_round-EndsWith next fuel (failed p) ih h = record {
      result = raised p;
      ends = refl;
      provider = h;
    }
    after_round-EndsWith next fuel (unreadable p) ih h = record {
      result = crashed p;
      ends = refl;
      provider = h;
    }
    after_round-EndsWith next fuel (moved cursor p) ih h = ih cursor p h.1 h.0

    fill_window-EndsWith :
        (fuel cursor : ℕ) (p : LiveProvider)
        → left now_ts (or_zero p.last_closed_bar_ts) cursor ≤ fuel
        → P p
        → EndsWith P (fill_window venue interval now_ts (suc fuel) cursor p)
    unfolding fill_window bar_close_ts
    fill_window-EndsWith zero cursor p enough h =
        let up = add_interval_later cursor interval 1 (omega arith) in
        if_rule (EndsWith P) (leb (add_interval cursor interval 1) now_ts) _ _
          (λ more. absurd (ground (arith, up, more, enough)))
          (λ over. record {
            result = complete (set_ready p);
            ends = refl;
            provider = k.pushes.wakes p h;
          })
    fill_window-EndsWith (suc n) cursor p enough h =
        let up = add_interval_later cursor interval 1 (omega arith) in
        if_rule (EndsWith P) (leb (add_interval cursor interval 1) now_ts) _ _
          (λ more.
            after_round-EndsWith (fill_window venue interval now_ts (suc n)) n
              (fill_chunk venue interval now_ts cursor p)
              (λ c q fewer hq. fill_window-EndsWith n c q fewer hq)
              (fill_chunk-Nears cursor n p (ground (arith, up, more)) enough h))
          (λ over. record {
            result = complete (set_ready p);
            ends = refl;
            provider = k.pushes.wakes p h;
          })

  fill_gap-EndsWith :
      (w : World) (interval : String) (cursor : ℕ) (p : LiveProvider)
      → P p
      → EndsWith P (fill_gap w interval cursor p)
  unfolding fill_gap gap_fuel
  fill_gap-EndsWith w interval cursor p h =
      let arrived = arrive_all w.meanwhile p in
      let kept = arrive_all-IsKept k w.meanwhile p h in
      if_rule (EndsWith P) (ltb w.now_ts (bar_close_ts cursor interval)) _ _
        (λ early. record { result = complete p; ends = refl; provider = h })
        (λ due.
          if_rule (EndsWith P) w.resolved _ _
            (λ known.
              fill_window-EndsWith w.venue interval w.now_ts (suc w.now_ts * suc (suc w.now_ts))
                cursor arrived (fuel_enough w.now_ts _ cursor) kept)
            (λ unknown. record { result = raised arrived; ends = refl; provider = kept }))

  fill_from-EndsWith :
      (w : World) (interval : String) (start : Option ℕ) (p : LiveProvider)
      → P p
      → EndsWith P (fill_from w interval start p)
  unfolding fill_from
  fill_from-EndsWith w interval none p h = record { result = complete p; ends = refl; provider = h }
  fill_from-EndsWith w interval (some cursor) p h = fill_gap-EndsWith w interval cursor p h

  fill_on-EndsWith :
      (w : World) (interval : Option String) (p : LiveProvider)
      → P p
      → EndsWith P (fill_on w interval p)
  unfolding fill_on
  fill_on-EndsWith w none p h = record { result = raised p; ends = refl; provider = h }
  fill_on-EndsWith w (some interval) p h =
      fill_from-EndsWith w interval (gap_start interval p.last_closed_bar_ts p.stream_bar_ts) p h

  -- What the arrivals keep, the backfill keeps, which comes to an end.
  pub backfill_gap-EndsWith :
      (w : World) (timeframe : Option String) (queue : Option (List (Option Ohlcv)))
      (p : LiveProvider)
      → P p
      → EndsWith P (backfill_gap w timeframe queue p)
  unfolding backfill_gap
  backfill_gap-EndsWith w none queue p h = record { result = complete p; ends = refl; provider = h }
  backfill_gap-EndsWith w (some timeframe) none p h = record {
    result = complete p;
    ends = refl;
    provider = h;
  }
  backfill_gap-EndsWith w (some timeframe) (some items) p h =
      fill_on-EndsWith w (to_exchange_timeframe timeframe) p h
