-- ===== src/Live/Startup.antt =====
-- `backfill_closed_bars` and `_advance_closed_cursor` of pynecore_bybit/live_provider.py: the bars that
-- closed between the warmup history and the stream, handed to the framework and not to the queue. The
-- list of recovered bars is kept newest first.
use pynecore_plugin_bybit.Prelude.{
  ℕ, zero, suc, ◌*◌, Bool, true, false, Option, none, some, List, [], ◌∷◌, leb, ltb, if◌then◌else◌,
  String,
}
use pynecore_plugin_bybit.Helpers.Timeframes.{add_interval, bar_close_ts, to_exchange_timeframe}
use pynecore_plugin_bybit.Live.State.{Ohlcv, LiveProvider, is_settled, is_beyond}
use pynecore_plugin_bybit.Live.Dispatch.{Arrival, arrive_all}
use pynecore_plugin_bybit.Live.Backfill.{
  Row, Prices, Answer, no_answer, untimed, answered, closed_bar, ascending_rows, chunk_end,
  past_chunk, World,
}

-- `_advance_closed_cursor`
unfoldable pub advance_closed_cursor : ℕ → LiveProvider → LiveProvider
advance_closed_cursor bar_ts p = record p {
  last_closed_bar_ts =
      if is_beyond bar_ts p.last_closed_bar_ts then some bar_ts else p.last_closed_bar_ts;
}

-- `recovered[-1].timestamp`
unfoldable pub newest_recovered : List Ohlcv → Option ℕ
newest_recovered [] = none
newest_recovered (b ∷ bs) = some b.timestamp

-- the bars recovered so far, the newest of this chunk, and whether a conversion raised
pub record Recovery : Type 0 where
  pub recovered : List Ohlcv
  pub newest : Option ℕ
  pub crash : Bool

unfoldable pub recover_bar : ℕ → Option Prices → Recovery → Recovery
recover_bar start none r = record r { crash = true }
recover_bar start (some prices) r = record r {
  recovered = closed_bar start prices ∷ r.recovered;
  newest = some start;
}

unfoldable pub recover_row : String → ℕ → ℕ → Row → Recovery → Recovery
recover_row interval now_ts since_ms row r =
    if r.crash
    then r
    else if leb row.start since_ms
    then r
    else if is_settled row.start (newest_recovered r.recovered)
    then r
    else if ltb now_ts (bar_close_ts row.start interval)
    then r
    else recover_bar row.start row.prices r

unfoldable pub recover_rows : String → ℕ → ℕ → List Row → Recovery → Recovery
recover_rows interval now_ts since_ms [] r = r
recover_rows interval now_ts since_ms (row ∷ rows) r =
    recover_rows interval now_ts since_ms rows (recover_row interval now_ts since_ms row r)

unfoldable pub cursor_past : String → ℕ → ℕ → Option ℕ → ℕ
cursor_past interval end cursor none = past_chunk interval end cursor
cursor_past interval end cursor (some newest) = add_interval newest interval 1

-- The bars found, or the error of a request; either way the provider as it is left.
pub data Recovered : Type 0 where
  found : List Ohlcv → LiveProvider → Recovered
  error : LiveProvider → Recovered

pub data Search : Type 0 where
  broken : LiveProvider → Search
  searched : ℕ → List Ohlcv → LiveProvider → Search

unfoldable pub take_recovery : String → ℕ → ℕ → Recovery → LiveProvider → Search
take_recovery interval end cursor r p =
    if r.crash then broken p else searched (cursor_past interval end cursor r.newest) r.recovered p

unfoldable pub take_found : String → ℕ → ℕ → ℕ → ℕ → Answer → List Ohlcv → LiveProvider → Search
take_found interval now_ts since_ms end cursor no_answer bars p = broken p
take_found interval now_ts since_ms end cursor untimed bars p = broken p
take_found interval now_ts since_ms end cursor (answered rows) bars p =
    take_recovery interval end cursor
      (recover_rows interval now_ts since_ms (ascending_rows rows)
        (record { recovered = bars; newest = none; crash = false }))
      p

-- the cursor moves to the newest bar handed over
unfoldable pub hand_over : List Ohlcv → LiveProvider → Recovered
hand_over [] p = found [] p
hand_over (b ∷ bs) p = found (b ∷ bs) (advance_closed_cursor b.timestamp p)

module _ (venue : ℕ → ℕ → List Arrival × Answer) (interval : String) (now_ts since_ms : ℕ) where
  unfoldable pub search_chunk : ℕ → List Ohlcv → LiveProvider → Search
  search_chunk cursor bars p =
      let end = chunk_end interval now_ts cursor in
      let answer = venue cursor end in
      take_found interval now_ts since_ms end cursor answer.1 bars (arrive_all answer.0 p)

  unfoldable pub after_search :
      (ℕ → List Ohlcv → LiveProvider → Option Recovered) → Search → Option Recovered
  after_search next (broken p) = some (error p)
  after_search next (searched cursor bars p) = next cursor bars p

  -- `while bar_close_ts(cursor, interval) <= now_ts`; `none`: out of fuel
  unfoldable pub search_window : ℕ → ℕ → List Ohlcv → LiveProvider → Option Recovered
  unfolding after_search
  search_window zero cursor bars p = none
  search_window (suc fuel) cursor bars p =
      let step = after_search (search_window fuel) (search_chunk cursor bars p) in
      if leb (bar_close_ts cursor interval) now_ts then step else some (hand_over bars p)

-- rounds enough for every gap: see Live/Recovery
unfoldable pub search_fuel : ℕ → ℕ
search_fuel now_ts = suc (suc now_ts * suc (suc now_ts))

unfoldable pub search_gap : World → String → ℕ → ℕ → LiveProvider → Option Recovered
search_gap w interval since_ms cursor p =
    let arrived = arrive_all w.meanwhile p in
    if ltb w.now_ts (bar_close_ts cursor interval)
    then some (found [] p)
    else if w.resolved
    then search_window w.venue interval w.now_ts since_ms (search_fuel w.now_ts) cursor [] arrived
    else some (error arrived)

unfoldable pub search_on : World → Option String → ℕ → LiveProvider → Option Recovered
search_on w none since_ms p = some (error p)
search_on w (some interval) since_ms p =
    search_gap w interval since_ms (add_interval since_ms interval 1)
      (advance_closed_cursor since_ms p)

-- `backfill_closed_bars`
unfoldable pub backfill_closed_bars : World → String → ℕ → LiveProvider → Option Recovered
backfill_closed_bars w timeframe since_ms p =
    search_on w (to_exchange_timeframe timeframe) since_ms p
