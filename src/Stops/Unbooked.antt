-- ===== src/Stops/Unbooked.antt =====
-- The search of the execution history in windows (`_drain_deriv_exec_window`, `_unbooked_executions` and
-- its two callers in pynecore_bybit/events.py).
use pynecore_plugin_bybit.Prelude.{
  ℕ, zero, suc, ◌+◌, ◌-◌, Bool, true, false, not, ◌&&◌, ltb, leb, Option, none, some, List, [], ◌∷◌,
  ◌++◌, keep, some_of, sort_by, if◌then◌else◌, str_eq, String,
}
use pynecore_plugin_bybit.Inventory.Paging.{execution_window_ms, execution_cursor_overlap_ms}
use pynecore_plugin_bybit.Stops.Downtime.{
  ExecRow, ExecMarket, LiveRow, execution_since_skew_ms, one_of, sorts_before,
  own_venue_stop_execution, venue_closeout_execution,
}

-- An answer of `execution/list`; an empty cursor is `none`. An answer that is `none` is an error.
pub record ExecPage : Type 0 where
  pub rows : List ExecRow
  pub next_cursor : Option String

abbrev pub max_backfill_window_pages : ℕ
max_backfill_window_pages = 200

unfoldable pub after_answer :
    (Option String → List ExecRow → List ExecRow × Bool)
    → List ExecRow
    → Option ExecPage
    → List ExecRow × Bool
after_answer next rows none = (rows, false)
after_answer next rows (some page) =
    let rows' = rows ++ page.rows in
    elim page.next_cursor [ none ↦ (rows', true) | some c ↦ next (some c) rows' ]

-- the page loop with some rounds left; `venue` answers a cursor
unfoldable pub drain_rounds :
    ℕ → (Option String → Option ExecPage) → Option String → List ExecRow → List ExecRow × Bool
unfolding after_answer
drain_rounds zero venue cursor rows = (rows, false)
drain_rounds (suc n) venue cursor rows = after_answer (drain_rounds n venue) rows (venue cursor)

-- the venue's answers: by the window's two ends and the cursor
abbrev pub History : Type 0
History = ℕ → ℕ → Option String → Option ExecPage

unfoldable pub drain_deriv_exec_window : History → ℕ → ℕ → List ExecRow × Bool
unfolding drain_rounds
drain_deriv_exec_window venue start stop =
    drain_rounds max_backfill_window_pages (venue start stop) none []

-- an audit event of the backfill's progress; `watermark` is `none` where it is no number
pub record CursorEvent : Type 0 where
  pub cursor_scope : String
  pub category : String
  pub watermark : Option ℕ

unfoldable pub or_latest : Option ℕ → Option ℕ → Option ℕ
or_latest none latest = latest
or_latest (some w) latest = some w

unfoldable pub newest_mark : ExecMarket → Option ℕ → List CursorEvent → Option ℕ
unfolding or_latest
newest_mark m latest [] = latest
newest_mark m latest (c ∷ cs) =
    let fits = str_eq c.cursor_scope "time" && str_eq c.category m.category in
    newest_mark m (if fits then or_latest c.watermark latest else latest) cs

unfoldable pub load_deriv_exec_watermark : ExecMarket → List CursorEvent → Option ℕ
unfolding newest_mark
load_deriv_exec_watermark m events = newest_mark m none events

unfoldable pub begins_at : ℕ → Option ℕ → ℕ
begins_at oldest none = oldest - execution_since_skew_ms
begins_at oldest (some w) =
    let start = oldest - execution_since_skew_ms in
    let resumed = w - execution_cursor_overlap_ms in if ltb start resumed then resumed else start

-- Rows found, or `BybitAdoptionBaselineError`; `unfinished` is a search that ran out of fuel.
pub data ExecSearch : Type 0 where
  baseline_error unfinished : ExecSearch
  found : List ExecRow → ExecSearch

unfoldable pub has_id : String → List ExecRow → Bool
unfolding some_of
has_id id rows = some_of (λ e. str_eq e.exec_id id) rows

unfoldable pub window_stop : ℕ → ℕ → ℕ
window_stop start floor =
    if leb (start + execution_window_ms) floor then start + execution_window_ms else floor

-- `booked` has the ids that the audit trail of the run recorded, `keeps` is the caller's test.
module _ (booked : List String) (keeps : ExecRow → Bool) where
  unfoldable pub is_new : List ExecRow → ExecRow → Bool
  unfolding has_id one_of
  is_new rows e =
      not (str_eq e.exec_id "")
      && not (one_of e.exec_id booked)
      && not (has_id e.exec_id rows)
      && keeps e

  unfoldable pub note : List ExecRow → ExecRow → List ExecRow
  unfolding is_new
  note rows e = if is_new rows e then rows ++ e ∷ [] else rows

  unfoldable pub note_all : List ExecRow → List ExecRow → List ExecRow
  unfolding note
  note_all rows [] = rows
  note_all rows (e ∷ es) = note_all (note rows e) es

  unfoldable pub after_window :
      (ℕ → List ExecRow → ExecSearch) → ℕ → List ExecRow → List ExecRow × Bool → ExecSearch
  unfolding note_all
  after_window next stop rows (es, false) = baseline_error
  after_window next stop rows (es, true) = next stop (note_all rows es)

  -- the loop over the windows from `start` to `floor`, with some rounds left
  unfoldable pub search : History → ℕ → ℕ → ℕ → List ExecRow → ExecSearch
  unfolding after_window drain_deriv_exec_window window_stop sort_by
  search venue floor zero start rows =
      if ltb start floor then unfinished else found (sort_by sorts_before rows)
  search venue floor (suc n) start rows =
      let stop = window_stop start floor in
      let rest =
        after_window (search venue floor n) stop rows (drain_deriv_exec_window venue start stop) in
      if ltb start floor then rest else found (sort_by sorts_before rows)

  unfoldable pub unbooked_executions : History → ℕ → Option ℕ → ℕ → ExecSearch
  unfolding search begins_at
  unbooked_executions venue oldest watermark floor =
      search venue floor floor (begins_at oldest watermark) []

-- the run's store: live ownership rows, live orders, the ids that its audit trail booked of either kind
pub record RunStore : Type 0 where
  pub ownerships : List LiveRow
  pub live_orders : List LiveRow
  pub attributed : List String
  pub adopted : List String
  pub cursors : List CursorEvent

unfoldable pub oldest_of : LiveRow → List LiveRow → ℕ
oldest_of r [] = r.created_ts_ms
oldest_of r (s ∷ rows) =
    let rest = oldest_of s rows in if ltb rest r.created_ts_ms then rest else r.created_ts_ms

unfoldable pub search_stops : ExecMarket → RunStore → History → ℕ → List LiveRow → ExecSearch
unfolding unbooked_executions oldest_of load_deriv_exec_watermark own_venue_stop_execution
search_stops m s venue floor [] = found []
search_stops m s venue floor (r ∷ owners) =
    unbooked_executions s.attributed (own_venue_stop_execution m (r ∷ owners)) venue
      (oldest_of r owners) (load_deriv_exec_watermark m s.cursors) floor

unfoldable pub search_closeouts : ExecMarket → RunStore → History → ℕ → List LiveRow → ExecSearch
unfolding unbooked_executions oldest_of load_deriv_exec_watermark venue_closeout_execution
search_closeouts m s venue floor [] = found []
search_closeouts m s venue floor (r ∷ entries) =
    unbooked_executions s.adopted (venue_closeout_execution m (r ∷ entries)) venue
      (oldest_of r entries) (load_deriv_exec_watermark m s.cursors) floor

unfoldable pub unbooked_venue_stop_executions :
    Option RunStore → ExecMarket → History → ℕ → ExecSearch
unfolding search_stops keep one_of
unbooked_venue_stop_executions none m venue floor = found []
unbooked_venue_stop_executions (some s) m venue floor =
    let owners = keep (λ r. one_of r.side ("buy" ∷ "sell" ∷ [])) s.ownerships in
    if str_eq m.category "spot" then found [] else search_stops m s venue floor owners

unfoldable pub unbooked_venue_closeouts : Option RunStore → ExecMarket → History → ℕ → ExecSearch
unfolding search_closeouts keep
unbooked_venue_closeouts none m venue floor = found []
unbooked_venue_closeouts (some s) m venue floor =
    let entries = keep (λ r. r.is_entry && ltb 0 r.filled_qty) s.live_orders in
    if str_eq m.category "spot" then found [] else search_closeouts m s venue floor entries
