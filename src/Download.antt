-- ===== src/Download.antt =====
-- `download_ohlcv` of pynecore_bybit/provider.py: the window is walked forward in chunks. `kline` is
-- the venue's answer to one request (`none`: the request raises), `saved` what `save_ohlcv_data` was
-- given so far, newest first. Times are epoch milliseconds.
mod Progress
mod Examples
use pynecore_plugin_bybit.Prelude.{
  ℕ, zero, suc, ◌-◌, ◌*◌, ◌/◌, Bool, true, false, Option, none, some, List, [], ◌∷◌, leb, ltb,
  if◌then◌else◌, sort_by, String,
}
use pynecore_plugin_bybit.Helpers.Timeframes.{add_interval, bar_close_ts}

-- `KLINE_LIMIT`
abbrev pub kline_limit : ℕ
kline_limit = 1000

-- one row of the answer, prices as their raw text
pub record Bar : Type 0 where
  pub timestamp : ℕ
  pub prices : List String

-- `limit if limit is not None and limit > 0 else KLINE_LIMIT`, brought into 2 ... KLINE_LIMIT
unfoldable pub effective_limit : Option ℕ → ℕ
effective_limit none = kline_limit
effective_limit (some zero) = kline_limit
effective_limit (some (suc n)) =
    if leb (suc n) 2 then 2 else if leb (suc n) kline_limit then suc n else kline_limit

pub record Written : Type 0 where
  pub last_written : Option ℕ
  pub saved : List Bar

-- was this bucket written before?
unfoldable pub is_behind : ℕ → Option ℕ → Bool
is_behind bar_start none = false
is_behind bar_start (some last) = leb bar_start last

-- the body of the loop over the rows of one chunk
unfoldable pub save_row : String → ℕ → ℕ → Bar → Written → Written
save_row interval now_ts cursor bar w =
    if ltb bar.timestamp cursor
    then w
    else if ltb now_ts (bar_close_ts bar.timestamp interval)
    then w
    else if is_behind bar.timestamp w.last_written
    then w
    else record { last_written = some bar.timestamp; saved = bar ∷ w.saved }

unfoldable pub save_rows : String → ℕ → ℕ → List Bar → Written → Written
save_rows interval now_ts cursor [] w = w
save_rows interval now_ts cursor (bar ∷ bars) w =
    save_rows interval now_ts cursor bars (save_row interval now_ts cursor bar w)

abbrev older : Bar → Bar → Bool
older x y = ltb x.timestamp y.timestamp

-- `sorted(rows, key=lambda r: int(r[0]))`
unfoldable pub ascending : List Bar → List Bar
ascending rows = sort_by older rows

-- `max(chunk_end, add_interval(cursor, interval, 1))`
unfoldable pub skip_chunk : String → ℕ → ℕ → ℕ
skip_chunk interval cursor chunk_end =
    let next = add_interval cursor interval 1 in if leb next chunk_end then chunk_end else next

-- the cursor after a chunk with rows
unfoldable pub next_cursor : String → ℕ → ℕ → Option ℕ → ℕ
next_cursor interval cursor chunk_end none = skip_chunk interval cursor chunk_end
next_cursor interval cursor chunk_end (some last) =
    if leb cursor last then add_interval last interval 1 else skip_chunk interval cursor chunk_end

-- `complete`: the loop ended; `aborted`: a request raised. Either way with what is saved.
pub data Downloaded : Type 0 where
  complete aborted : List Bar → Downloaded

-- What one chunk does: the request fails, or the cursor and what is written move on.
pub data Chunk : Type 0 where
  failed : Chunk
  walked : ℕ → Written → Chunk

unfoldable pub take_rows : String → ℕ → ℕ → ℕ → Option (List Bar) → Written → Chunk
take_rows interval now_ts cursor chunk_end none w = failed
take_rows interval now_ts cursor chunk_end (some []) w =
    walked (skip_chunk interval cursor chunk_end) w
take_rows interval now_ts cursor chunk_end (some (r ∷ rows)) w =
    let w' = save_rows interval now_ts cursor (ascending (r ∷ rows)) w in
    walked (next_cursor interval cursor chunk_end w'.last_written) w'

module _ (kline : ℕ → ℕ → ℕ → Option (List Bar)) (interval : String) (limit now_ts end_ts : ℕ) where
  unfoldable pub chunk_end_of : ℕ → ℕ
  chunk_end_of cursor =
      let full = add_interval cursor interval (limit - 1) in
      if leb full end_ts then full else end_ts

  unfoldable pub walk_chunk : ℕ → Written → Chunk
  walk_chunk cursor w =
      let chunk_end = chunk_end_of cursor in
      take_rows interval now_ts cursor chunk_end (kline cursor chunk_end limit) w

  -- one round of the loop, where `next` is the rest of it
  unfoldable pub go_on : (ℕ → Written → Option Downloaded) → Chunk → Written → Option Downloaded
  go_on next failed w = some (aborted w.saved)
  go_on next (walked cursor w') w = next cursor w'

  -- `while cursor < end_ts`; `none`: out of fuel
  unfoldable pub walk_window : ℕ → ℕ → Written → Option Downloaded
  unfolding go_on
  walk_window zero cursor w = none
  walk_window (suc fuel) cursor w =
      let step = go_on (walk_window fuel) (walk_chunk cursor w) w in
      if ltb cursor end_ts then step else some (complete w.saved)

-- `download_ohlcv` from the resolved market and interval on; `start_s`, `until_s` and `now_s` are the
-- whole seconds of the window's bounds and of the clock
unfoldable pub download_ohlcv :
    (ℕ → ℕ → ℕ → Option (List Bar)) → String → Option ℕ → ℕ → ℕ → ℕ → Option Downloaded
download_ohlcv kline interval limit now_s start_s until_s =
    let end_ts = (if leb until_s now_s then until_s else now_s) * 1000 in
    let cursor = start_s * 1000 in
    walk_window kline interval (effective_limit limit) (now_s * 1000) end_ts (suc (end_ts - cursor))
      cursor (record { last_written = none; saved = [] })
