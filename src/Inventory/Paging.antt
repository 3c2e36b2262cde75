-- ===== src/Inventory/Paging.antt =====
-- The time windows of pynecore_bybit/inventory.py and their pages.
use pynecore_plugin_bybit.Prelude.{
  ℕ, zero, suc, ◌+◌, ◌-◌, Bool, true, false, Option, none, some, List, [], ◌∷◌, ◌++◌, leb, ltb,
  if◌then◌else◌, String,
}
use pynecore_plugin_bybit.Inventory.Rows.{Entry, SpotExecution, Port, to_execution}

-- One page of `execution/list`; an empty cursor is `none`.
pub record Page : Type 0 where
  pub entries : List Entry
  pub next_page : Option String

-- `_MAX_WINDOW_PAGES`
abbrev pub max_window_pages : ℕ
max_window_pages = 200

unfoldable pub executions_of : Port → List Entry → List SpotExecution
executions_of p [] = []
executions_of p (e ∷ es) = elim (to_execution p e) [
  | none ↦ executions_of p es
  | some x ↦ x ∷ executions_of p es
]

-- what one answer of the venue leads to; `next` is the rest of the loop, `none` a request that raised
unfoldable pub after_page :
    Port
    → (Option String → List SpotExecution → List SpotExecution × Bool)
    → Option Page
    → List SpotExecution
    → List SpotExecution × Bool
after_page p next none rows = (rows, false)
after_page p next (some page) rows =
    let rows' = rows ++ executions_of p page.entries in
    elim page.next_page [ none ↦ (rows', true) | some c ↦ next (some c) rows' ]

-- `_drain_window` with `pages` rounds of its loop left; `venue` answers a page's cursor
unfoldable pub drain_pages :
    ℕ
    → Port
    → (Option String → Option Page)
    → Option String
    → List SpotExecution
    → List SpotExecution × Bool
unfolding after_page
drain_pages zero p venue cursor rows = (rows, false)
drain_pages (suc n) p venue cursor rows = after_page p (drain_pages n p venue) (venue cursor) rows

unfoldable pub drain_window : Port → (Option String → Option Page) → List SpotExecution × Bool
drain_window p venue = drain_pages max_window_pages p venue none []

-- the stored time cursor: none yet, one that `int` refuses, or epoch milliseconds
pub data Cursor : Type 0 where
  absent unparsable : Cursor
  at : ℕ → Cursor

pub record SpotExecutionBatch : Type 0 where
  pub executions : List SpotExecution
  pub next_cursor : Option ℕ
  pub has_more : Bool
  pub conclusive : Bool

-- `EXECUTION_WINDOW_MS`, `EXECUTION_CURSOR_OVERLAP_MS`
abbrev pub execution_window_ms : ℕ
execution_window_ms = 604800000

abbrev pub execution_cursor_overlap_ms : ℕ
execution_cursor_overlap_ms = 60000

abbrev pub window_start : ℕ → ℕ
window_start watermark = watermark - execution_cursor_overlap_ms

unfoldable pub window_end : ℕ → ℕ → ℕ
window_end now_ms watermark =
    let full = window_start watermark + execution_window_ms in
    if leb full now_ms then full else now_ms

unfoldable pub batch_of : ℕ → ℕ → List SpotExecution × Bool → SpotExecutionBatch
batch_of now_ms until (rows, false) = record {
  executions = rows;
  next_cursor = none;
  has_more = false;
  conclusive = false;
}
batch_of now_ms until (rows, true) = record {
  executions = rows;
  next_cursor = some until;
  has_more = ltb until now_ms;
  conclusive = true;
}

-- `venue start end` answers the pages of that window
unfoldable pub fetch_executions :
    Port → (ℕ → ℕ → Option String → Option Page) → ℕ → Cursor → SpotExecutionBatch
fetch_executions p venue now_ms absent = record {
  executions = [];
  next_cursor = some now_ms;
  has_more = false;
  conclusive = true;
}
fetch_executions p venue now_ms unparsable = record {
  executions = [];
  next_cursor = none;
  has_more = false;
  conclusive = false;
}
fetch_executions p venue now_ms (at watermark) =
    let until = window_end now_ms watermark in
    batch_of now_ms until (drain_window p (venue (window_start watermark) until))
