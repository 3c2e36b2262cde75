-- ===== src/Inventory/Windows.antt =====
-- What a read of the execution history may conclude.
use pynecore_plugin_bybit.Prelude.{
  ℕ, zero, suc, ◌+◌, ◌-◌, ◌≤◌, Bool, true, false, ◌≡◌, refl, sym, ap, ◌∙◌, ◌⊎◌, Option, none, some,
  List, [], ◌++◌, ltb, String, arith,
}
use mathlib.Core.Path.{subst}
use mathlib.Core.List.{append_assoc}
use pynecore_plugin_bybit.Inventory.Rows.{SpotExecution, Port}
use pynecore_plugin_bybit.Inventory.Paging.{
  Page, executions_of, after_page, drain_pages, drain_window, max_window_pages, at, window_start,
  window_end, execution_window_ms, execution_cursor_overlap_ms, batch_of, fetch_executions,
}

-- The chain of pages from a cursor to the one that has no next, its executions and how many there are.
pub data Drained (p : Port) (venue : Option String → Option Page)
    : Option String → List SpotExecution → ℕ → Type 0 where
  last_page :
      (c : Option String) (page : Page)
      → venue c ≡ some page
      → page.next_page ≡ none
      → Drained p venue c (executions_of p page.entries) 1
  page_before :
      (c : Option String) (page : Page) (d : String) (rest : List SpotExecution) (n : ℕ)
      → venue c ≡ some page
      → page.next_page ≡ some d
      → Drained p venue (some d) rest n
      → Drained p venue c (executions_of p page.entries ++ rest) (suc n)

module _ (p : Port) (venue : Option String → Option Page) where
  -- Every chain of at most as many pages as the loop may read is read whole.
  drain_pages-Drained :
      (c : Option String) (rest : List SpotExecution) (n fuel : ℕ) (rows : List SpotExecution)
      → Drained p venue c rest n
      → n ≤ fuel
      → drain_pages fuel p venue c rows ≡ (rows ++ rest, true)
  unfolding drain_pages after_page
  drain_pages-Drained c rest n zero rows (last_page _ page e f) le = absurd (omega arith)
  drain_pages-Drained c rest n zero rows (page_before _ page d rest' m e f more) le =
      absurd (omega arith)
  drain_pages-Drained c rest n (suc fuel) rows (last_page _ page e f) le = rw (e, f) refl
  drain_pages-Drained c rest n (suc fuel) rows (page_before _ page d rest' m e f more) le =
      rw (e, f)
        (drain_pages-Drained (some d) rest' m fuel (rows ++ executions_of p page.entries) more
            (omega arith)
          ∙ ap (λ x. (x, true)) (append_assoc rows _ rest'))

  -- the part of an answer that is read whole
  abbrev Whole : Option String → List SpotExecution → List SpotExecution → Type 0
  Whole c rows out =
      (rest : List SpotExecution) × (n : ℕ) × (out ≡ rows ++ rest) × Drained p venue c rest n

  next_page-Whole :
      (next : Option String → List SpotExecution → List SpotExecution × Bool)
      → (c : Option String) (page : Page) (rows out : List SpotExecution) (d : Option String)
      → venue c ≡ some page
      → page.next_page ≡ d
      → ((k : String)
          → next (some k) (rows ++ executions_of p page.entries) ≡ (out, true)
          → Whole (some k) (rows ++ executions_of p page.entries) out)
      → after_page p next (some page) rows ≡ (out, true)
      → Whole c rows out
  unfolding after_page
  next_page-Whole next c page rows out none e f ih h =
      let same : rows ++ executions_of p page.entries ≡ out = ap (λ x. x.0) (simp f at h) in
      (executions_of p page.entries, 1, sym same, last_page c page e f)
  next_page-Whole next c page rows out (some k) e f ih h =
      let (rest, n, same, more) = ih k (simp f at h) in
      (
        executions_of p page.entries ++ rest,
        suc n,
        same ∙ append_assoc rows _ rest,
        page_before c page k rest n e f more,
      )

  answer-Whole :
      (next : Option String → List SpotExecution → List SpotExecution × Bool)
      → (c : Option String) (answer : Option Page) (rows out : List SpotExecution)
      → venue c ≡ answer
      → ((k : String) (rows' : List SpotExecution)
          → next (some k) rows' ≡ (out, true)
          → Whole (some k) rows' out)
      → after_page p next answer rows ≡ (out, true)
      → Whole c rows out
  answer-Whole next c none rows out e ih h = absurd (unfold after_page in cc)
  answer-Whole next c (some page) rows out e ih h =
      next_page-Whole next c page rows out page.next_page e refl (λ k. ih k _) h

  -- A read that says it is conclusive has read a whole chain.
  drain_pages-Whole :
      (fuel : ℕ) (c : Option String) (rows out : List SpotExecution)
      → drain_pages fuel p venue c rows ≡ (out, true)
      → Whole c rows out
  unfolding drain_pages
  drain_pages-Whole zero c rows out h = absurd (cc)
  drain_pages-Whole (suc fuel) c rows out h =
      answer-Whole (drain_pages fuel p venue) c (venue c) rows out refl
        (λ k rows' h'. drain_pages-Whole fuel (some k) rows' out h') h

batch_of-conclusive :
    (now_ms until : ℕ) (r : List SpotExecution × Bool)
    → (batch_of now_ms until r).conclusive ≡ true
    → (r ≡ ((batch_of now_ms until r).executions, true))
      × ((batch_of now_ms until r).next_cursor ≡ some until)
unfolding batch_of
batch_of-conclusive now_ms until (rows, true) h = (refl, refl)
batch_of-conclusive now_ms until (rows, false) h = absurd (cc)

-- A batch that says it is conclusive holds the executions of a whole chain of pages of its window,
-- from the first to the one that has no next, and takes the cursor to the window's end.
pub fetch_conclusive :
    (p : Port) (venue : ℕ → ℕ → Option String → Option Page) (now_ms watermark : ℕ)
    → (fetch_executions p venue now_ms (at watermark)).conclusive ≡ true
    → let batch = fetch_executions p venue now_ms (at watermark) in
      let until = window_end now_ms watermark in
      (n : ℕ) × Drained p (venue (window_start watermark) until) none batch.executions n
      × (batch.next_cursor ≡ some until)
unfolding fetch_executions drain_window
fetch_conclusive p venue now_ms watermark h =
    let until = window_end now_ms watermark in
    let pages = venue (window_start watermark) until in
    let (read, cursor) =
      batch_of-conclusive now_ms until (drain_pages max_window_pages p pages none []) h in
    let (rest, n, same, chain) = drain_pages-Whole p pages max_window_pages none [] _ read in
    (n, subst (λ (x : List SpotExecution). Drained p pages none x n) (sym same) chain, cursor)

-- A window of at most 200 pages is always read whole: the batch is conclusive, holds every execution
-- of the chain, and the cursor advances to the window's end.
pub fetch_complete :
    (p : Port) (venue : ℕ → ℕ → Option String → Option Page) (now_ms watermark : ℕ)
    → (all : List SpotExecution) (n : ℕ)
    → Drained p (venue (window_start watermark) (window_end now_ms watermark)) none all n
    → n ≤ max_window_pages
    → fetch_executions p venue now_ms (at watermark) ≡ record {
      executions = all;
      next_cursor = some (window_end now_ms watermark);
      has_more = ltb (window_end now_ms watermark) now_ms;
      conclusive = true;
    }
unfolding fetch_executions drain_window batch_of
fetch_complete p venue now_ms watermark all n chain le =
    let until = window_end now_ms watermark in
    rw
      (drain_pages-Drained p (venue (window_start watermark) until) none all n max_window_pages []
        chain le)
      refl

-- Where the clock is not behind the watermark, a window spans at most seven days and never ends after
-- the clock; it starts at or before the watermark and ends at or after it, and it reaches the clock or
-- takes the watermark on by at least seven days less the overlap.
window_end_range :
    (now_ms watermark : ℕ)
    → watermark ≤ now_ms
    → let until = window_end now_ms watermark in
      (until ≤ window_start watermark + execution_window_ms)
      × (until ≤ now_ms)
      × (window_start watermark ≤ watermark)
      × (watermark ≤ until)
      × ((until ≡ now_ms)
          ⊎ (watermark + (execution_window_ms - execution_cursor_overlap_ms) ≤ until))
unfolding window_end
window_end_range now_ms watermark h = ground arith
