-- ===== src/Live/Backfill.antt =====
-- The bars missed while the stream was down: `_backfill_gap`, `on_reconnect` and
-- `_release_pending_closed`. `venue` gives, for a request with its start and end, what the event loop
-- ran while the request was awaited and the answer; the framework starts no
-- other call of the provider in between.
use pynecore_plugin_bybit.Prelude.{
  ℕ, zero, suc, ◌-◌, ◌*◌, Bool, true, false, Option, none, some, List, [], ◌∷◌, leb, ltb,
  if◌then◌else◌, sort_by, String,
}
use pynecore_plugin_bybit.Helpers.Timeframes.{add_interval, bar_close_ts, to_exchange_timeframe}
use pynecore_plugin_bybit.Download.{kline_limit}
use pynecore_plugin_bybit.Live.State.{Ohlcv, Socket, LiveProvider, is_settled, set_ready}
use pynecore_plugin_bybit.Live.Dispatch.{Push, enqueue_closed, force_close, Arrival, arrive_all}

-- the five values of a row
pub record Prices : Type 0 where
  pub opening : String
  pub high : String
  pub low : String
  pub closing : String
  pub volume : String

-- One row of the answer, its time converted; the values are `none` where the conversion of one raises.
pub record Row : Type 0 where
  pub start : ℕ
  pub prices : Option Prices

-- An answer of the venue: a `BybitError`, an answer with a row whose time `int` refuses, so that the
-- sorting raises a `ValueError`, or rows.
pub data Answer : Type 0 where
  no_answer untimed : Answer
  answered : List Row → Answer

unfoldable pub closed_bar : ℕ → Prices → Ohlcv
closed_bar start r = record {
  timestamp = start;
  opening = r.opening;
  high = r.high;
  low = r.low;
  closing = r.closing;
  volume = r.volume;
  is_closed = true;
}

abbrev older_row : Row → Row → Bool
older_row x y = ltb x.start y.start

-- `sorted(result.get('list') or [], key=lambda r: int(r[0]))`
unfoldable pub ascending_rows : List Row → List Row
ascending_rows rows = sort_by older_row rows

-- `self._last_closed_bar_ts or 0`
unfoldable pub or_zero : Option ℕ → ℕ
or_zero none = 0
or_zero (some ts) = ts

-- the provider within one chunk, whether the chunk has queued a bar, and whether a conversion raised
pub record Filling : Type 0 where
  pub provider : LiveProvider
  pub wrote : Bool
  pub crash : Bool

unfoldable pub fill_bar : ℕ → Option Prices → Filling → Filling
fill_bar start none f = record f { crash = true }
fill_bar start (some prices) f = record f {
  provider = enqueue_closed (closed_bar start prices) f.provider;
  wrote = true;
}

unfoldable pub fill_row : String → ℕ → Row → Filling → Filling
fill_row interval now_ts row f =
    if f.crash
    then f
    else if leb row.start (or_zero f.provider.last_closed_bar_ts)
    then f
    else if ltb now_ts (bar_close_ts row.start interval)
    then f
    else fill_bar row.start row.prices f

unfoldable pub fill_rows : String → ℕ → List Row → Filling → Filling
fill_rows interval now_ts [] f = f
fill_rows interval now_ts (r ∷ rs) f = fill_rows interval now_ts rs (fill_row interval now_ts r f)

-- `min(add_interval(cursor, interval, KLINE_LIMIT - 1), now_ts)`
unfoldable pub chunk_end : String → ℕ → ℕ → ℕ
chunk_end interval now_ts cursor =
    let full = add_interval cursor interval (kline_limit - 1) in
    if leb full now_ts then full else now_ts

-- `max(add_interval(chunk_end, interval, 1), add_interval(cursor, interval, 1))`
unfoldable pub past_chunk : String → ℕ → ℕ → ℕ
past_chunk interval end cursor =
    let beyond = add_interval end interval 1 in
    let next = add_interval cursor interval 1 in if leb next beyond then beyond else next

unfoldable pub cursor_after : String → ℕ → ℕ → Filling → ℕ
cursor_after interval end cursor f =
    if f.wrote
    then add_interval (or_zero f.provider.last_closed_bar_ts) interval 1
    else past_chunk interval end cursor

-- How a backfill ends: with all of the gap queued, at a request that raises a `BybitError`, or at the
-- `ValueError` of a row that cannot be read.
pub data Backfilled : Type 0 where
  complete raised crashed : LiveProvider → Backfilled

pub data Round : Type 0 where
  failed unreadable : LiveProvider → Round
  moved : ℕ → LiveProvider → Round

unfoldable pub after_rows : String → ℕ → ℕ → Filling → Round
after_rows interval end cursor f =
    if f.crash then unreadable f.provider else moved (cursor_after interval end cursor f) f.provider

unfoldable pub take_answer : String → ℕ → ℕ → ℕ → Answer → LiveProvider → Round
take_answer interval now_ts end cursor no_answer p = failed p
take_answer interval now_ts end cursor untimed p = unreadable p
take_answer interval now_ts end cursor (answered rows) p = after_rows interval end cursor (
    fill_rows interval now_ts (ascending_rows rows)
      (record { provider = p; wrote = false; crash = false }))

module _ (venue : ℕ → ℕ → List Arrival × Answer) (interval : String) (now_ts : ℕ) where
  -- one request, with what arrives while it is awaited
  unfoldable pub fill_chunk : ℕ → LiveProvider → Round
  fill_chunk cursor p =
      let end = chunk_end interval now_ts cursor in
      let answer = venue cursor end in
      take_answer interval now_ts end cursor answer.1 (arrive_all answer.0 p)

  unfoldable pub after_round : (ℕ → LiveProvider → Option Backfilled) → Round → Option Backfilled
  after_round next (failed p) = some (raised p)
  after_round next (unreadable p) = some (crashed p)
  after_round next (moved cursor p) = next cursor p

  -- `while bar_close_ts(cursor, interval) <= now_ts`; `none`: out of fuel
  unfoldable pub fill_window : ℕ → ℕ → LiveProvider → Option Backfilled
  unfolding after_round
  fill_window zero cursor p = none
  fill_window (suc fuel) cursor p =
      let step = after_round (fill_window fuel) (fill_chunk cursor p) in
      if leb (bar_close_ts cursor interval) now_ts then step else some (complete (set_ready p))

-- where the gap starts, if there is anything to resume from
unfoldable pub gap_start : String → Option ℕ → Option ℕ → Option ℕ
gap_start interval (some last_closed) stream_bar = some (add_interval last_closed interval 1)
gap_start interval none (some ts) = some ts
gap_start interval none none = none

-- rounds enough for every gap: see Live/Ends
unfoldable pub gap_fuel : ℕ → ℕ
gap_fuel now_ts = suc (suc now_ts * suc (suc now_ts))

-- what surrounds a backfill: the clock, what arrives while the market is resolved and whether it is,
-- the venue, and the pushes that still come while a transport is closed
pub record World : Type 0 where
  pub closing : List Push
  pub now_ts : ℕ
  pub meanwhile : List Arrival
  pub resolved : Bool
  pub venue : ℕ → ℕ → List Arrival × Answer

unfoldable pub fill_gap : World → String → ℕ → LiveProvider → Option Backfilled
fill_gap w interval cursor p =
    let arrived = arrive_all w.meanwhile p in
    if ltb w.now_ts (bar_close_ts cursor interval)
    then some (complete p)
    else if w.resolved
    then fill_window w.venue interval w.now_ts (gap_fuel w.now_ts) cursor arrived
    else some (raised arrived)

unfoldable pub fill_from : World → String → Option ℕ → LiveProvider → Option Backfilled
fill_from w interval none p = some (complete p)
fill_from w interval (some cursor) p = fill_gap w interval cursor p

unfoldable pub fill_on : World → Option String → LiveProvider → Option Backfilled
fill_on w none p = some (raised p)
fill_on w (some interval) p =
    fill_from w interval (gap_start interval p.last_closed_bar_ts p.stream_bar_ts) p

-- `_backfill_gap`; a provider without a timeframe or a queue has nothing to do
unfoldable pub backfill_gap :
    World → Option String → Option (List (Option Ohlcv)) → LiveProvider → Option Backfilled
backfill_gap w none queue p = some (complete p)
backfill_gap w (some timeframe) none p = some (complete p)
backfill_gap w (some timeframe) (some items) p = fill_on w (to_exchange_timeframe timeframe) p

unfoldable pub release : List Ohlcv → LiveProvider → LiveProvider
release [] p = p
release (b ∷ bs) p =
    release bs (if is_settled b.timestamp p.last_closed_bar_ts then p else enqueue_closed b p)

abbrev pub older_bar : Ohlcv → Ohlcv → Bool
older_bar x y = ltb x.timestamp y.timestamp

-- `not pending or queue is None`: nothing to flush
unfoldable pub release_on :
    Option (List Ohlcv) → Option (List (Option Ohlcv)) → LiveProvider → LiveProvider
release_on none queue p = p
release_on (some []) queue p = p
release_on (some (b ∷ bs)) none p = p
release_on (some (b ∷ bs)) (some items) p = set_ready (release (sort_by older_bar (b ∷ bs)) p)

-- `_release_pending_closed`
unfoldable pub release_pending : LiveProvider → LiveProvider
release_pending p = release_on p.pending_closed p.update_queue (record p { pending_closed = none })

-- the transport is closed and the sentinel queued, if there still is a transport
unfoldable pub kill : List Push → Option Socket → LiveProvider → LiveProvider
kill closing none p = p
kill closing (some ws) p = force_close closing p

-- the handler of the `BybitError`
unfoldable pub rewind : List Push → Option ℕ → LiveProvider → LiveProvider
rewind closing resume_from p =
    kill closing p.public_ws (record p { last_closed_bar_ts = resume_from; pending_closed = none })

unfoldable pub settle_reconnect : List Push → Option ℕ → Backfilled → Backfilled
settle_reconnect closing resume_from (complete p) = complete (release_pending p)
settle_reconnect closing resume_from (raised p) = raised (rewind closing resume_from p)
settle_reconnect closing resume_from (crashed p) = crashed p

unfoldable pub settled_reconnect : List Push → Option ℕ → Option Backfilled → Option Backfilled
settled_reconnect closing resume_from none = none
settled_reconnect closing resume_from (some b) = some (settle_reconnect closing resume_from b)

-- `on_reconnect`; `raised` is the error that it passes on, `crashed` one that it does not catch
unfoldable pub on_reconnect : World → Option String → LiveProvider → Option Backfilled
on_reconnect w timeframe p =
    settled_reconnect w.closing p.last_closed_bar_ts (backfill_gap w timeframe p.update_queue p)
