-- ===== src/Download/Progress.antt =====
-- How far the download gets, and what it writes.
use mathlib.Core.Path.{subst}
use pynecore_plugin_bybit.Prelude.{
  ℕ, zero, suc, ◌+◌, ◌-◌, ◌*◌, ◌≤◌, ◌<◌, false, ◌≡◌, refl, inl, inr, Bool-cases, Option, none, some,
  List, [], ◌∷◌, leb, ltb, if◌then◌else◌, String, arith,
}
use pynecore_plugin_bybit.Helpers.Timeframes.{add_interval, bar_close_ts}
use pynecore_plugin_bybit.Helpers.Timeframes.Calendar.{add_interval_later}
use pynecore_plugin_bybit.Download.{
  Bar, Written, is_behind, save_row, save_rows, skip_chunk, next_cursor, Downloaded, complete,
  aborted, Chunk, failed, walked, take_rows, walk_chunk, go_on, walk_window, effective_limit,
  download_ohlcv,
}

-- the newest bar that is saved
abbrev pub newest : List Bar → Option ℕ
newest [] = none
newest (b ∷ _) = some b.timestamp

abbrev pub Before : Option ℕ → ℕ → Type 0
Before none t = Unit
Before (some s) t = s < t

-- Newest first, each bar strictly after the one written before it.
abbrev pub Ascending : List Bar → Type 0
Ascending [] = Unit
Ascending (b ∷ bs) = Before (newest bs) b.timestamp × Ascending bs

-- a bar at or after the start that has closed by now
abbrev pub Closed : String → ℕ → ℕ → Bar → Type 0
Closed interval start now_ts b =
    (start ≤ b.timestamp) × (bar_close_ts b.timestamp interval ≤ now_ts)

abbrev pub AllClosed : String → ℕ → ℕ → List Bar → Type 0
AllClosed interval start now_ts [] = Unit
AllClosed interval start now_ts (b ∷ bs) =
    Closed interval start now_ts b × AllClosed interval start now_ts bs

-- what the loop keeps of its writes
pub record IsWritten (interval : String) (start now_ts : ℕ) (w : Written) : Type 0 where
  pub last : w.last_written ≡ newest w.saved
  pub order : Ascending w.saved
  pub closed : AllClosed interval start now_ts w.saved

is_behind-Before : (t : ℕ) (last : Option ℕ) → is_behind t last ≡ false → Before last t
unfolding is_behind
is_behind-Before t none h = tt
is_behind-Before t (some s) h = ground arith

save_row-IsWritten :
    (interval : String) (start now_ts cursor : ℕ) (b : Bar) (w : Written)
    → start ≤ cursor
    → IsWritten interval start now_ts w
    → IsWritten interval start now_ts (save_row interval now_ts cursor b w)
unfolding save_row
save_row-IsWritten interval start now_ts cursor b w le h =
    elim (Bool-cases (ltb b.timestamp cursor)) [
      | inl early ↦ rw early h
      | inr inside ↦ elim (Bool-cases (ltb now_ts (bar_close_ts b.timestamp interval))) [
        | inl forming ↦ rw (inside, forming) h
        | inr shut ↦ elim (Bool-cases (is_behind b.timestamp w.last_written)) [
          | inl behind ↦ rw (inside, shut, behind) h
          | inr ahead ↦
              let from : start ≤ b.timestamp = ground arith in
              let over : bar_close_ts b.timestamp interval ≤ now_ts = ground arith in
              let last =
                subst (λ (x : Option ℕ). Before x b.timestamp) h.last
                  (is_behind-Before b.timestamp w.last_written ahead) in
              rw (inside, shut, ahead)
                (record { last = refl; order = (last, h.order); closed = ((from, over), h.closed) })
        ]
      ]
    ]

save_rows-IsWritten :
    (interval : String) (start now_ts cursor : ℕ) (bs : List Bar) (w : Written)
    → start ≤ cursor
    → IsWritten interval start now_ts w
    → IsWritten interval start now_ts (save_rows interval now_ts cursor bs w)
unfolding save_rows
save_rows-IsWritten interval start now_ts cursor [] w le h = h
save_rows-IsWritten interval start now_ts cursor (b ∷ bs) w le h =
    save_rows-IsWritten interval start now_ts cursor bs (save_row interval now_ts cursor b w) le
      (save_row-IsWritten interval start now_ts cursor b w le h)

skip_chunk_later :
    (interval : String) (cursor chunk_end : ℕ) → cursor < skip_chunk interval cursor chunk_end
unfolding skip_chunk
skip_chunk_later interval cursor chunk_end =
    let later = add_interval_later cursor interval 1 (omega arith) in
    elim (Bool-cases (leb (add_interval cursor interval 1) chunk_end)) [
      | inl within ↦
          let le : add_interval cursor interval 1 ≤ chunk_end = ground arith in
          rw within (omega (arith, later))
      | inr over ↦ rw over later
    ]

next_cursor_later :
    (interval : String) (cursor chunk_end : ℕ) (last : Option ℕ)
    → cursor < next_cursor interval cursor chunk_end last
unfolding next_cursor
next_cursor_later interval cursor chunk_end none = skip_chunk_later interval cursor chunk_end
next_cursor_later interval cursor chunk_end (some s) = elim (Bool-cases (leb cursor s)) [
  | inl reached ↦
      let le : cursor ≤ s = ground arith in
      rw reached (omega (arith, add_interval_later s interval 1 (omega arith)))
  | inr behind ↦ rw behind (skip_chunk_later interval cursor chunk_end)
]

-- a chunk fails, or moves the cursor on and writes as promised
abbrev Moves : String → ℕ → ℕ → ℕ → Chunk → Type 0
Moves interval start now_ts cursor failed = Unit
Moves interval start now_ts cursor (walked next w) =
    (cursor < next) × IsWritten interval start now_ts w

take_rows-Moves :
    (interval : String) (start now_ts cursor chunk_end : ℕ) (rows : Option (List Bar)) (w : Written)
    → start ≤ cursor
    → IsWritten interval start now_ts w
    → Moves interval start now_ts cursor (take_rows interval now_ts cursor chunk_end rows w)
unfolding take_rows
take_rows-Moves interval start now_ts cursor chunk_end none w le h = tt
take_rows-Moves interval start now_ts cursor chunk_end (some []) w le h =
    (skip_chunk_later interval cursor chunk_end, h)
take_rows-Moves interval start now_ts cursor chunk_end (some (r ∷ rows)) w le h = (
  next_cursor_later interval cursor chunk_end _,
  save_rows-IsWritten interval start now_ts cursor _ w le h,
)

abbrev pub bars_of : Downloaded → List Bar
bars_of (complete bars) = bars
bars_of (aborted bars) = bars

-- The answer of a download: it came to an end, and its bars are in order and closed.
pub record IsAnswer (interval : String) (start now_ts : ℕ) (o : Option Downloaded) : Type 0 where
  pub result : Downloaded
  pub ends : o ≡ some result
  pub order : Ascending (bars_of result)
  pub closed : AllClosed interval start now_ts (bars_of result)

module _ (kline : ℕ → ℕ → ℕ → Option (List Bar)) (interval : String)
    (limit now_ts end_ts start : ℕ) where
  go_on-IsAnswer :
      (next : ℕ → Written → Option Downloaded) (cursor : ℕ) (c : Chunk) (w : Written)
      → IsWritten interval start now_ts w
      → ((k : ℕ) (w' : Written)
          → cursor < k
          → IsWritten interval start now_ts w'
          → IsAnswer interval start now_ts (next k w'))
      → Moves interval start now_ts cursor c
      → IsAnswer interval start now_ts (go_on kline interval limit now_ts end_ts next c w)
  unfolding go_on
  go_on-IsAnswer next cursor failed w h ih m = record {
    result = aborted w.saved;
    ends = refl;
    order = h.order;
    closed = h.closed;
  }
  go_on-IsAnswer next cursor (walked k w') w h ih m = ih k w' m.0 m.1

  walk_window-IsAnswer :
      (fuel cursor : ℕ) (w : Written)
      → start ≤ cursor
      → end_ts ≤ cursor + fuel
      → IsWritten interval start now_ts w
      → IsAnswer interval start now_ts
          (walk_window kline interval limit now_ts end_ts (suc fuel) cursor w)
  unfolding walk_window walk_chunk
  walk_window-IsAnswer zero cursor w le enough h =
      let over : ltb cursor end_ts ≡ false = ground arith in
      rw over
        (record { result = complete w.saved; ends = refl; order = h.order; closed = h.closed })
  walk_window-IsAnswer (suc fuel) cursor w le enough h = elim (Bool-cases (ltb cursor end_ts)) [
    | inl more ↦ rw more (
        go_on-IsAnswer _ cursor _ w h
          (λ k w' later h'. walk_window-IsAnswer fuel k w' (omega arith) (omega arith) h')
          (take_rows-Moves interval start now_ts cursor _ _ w le h))
    | inr over ↦
        rw over
          (record { result = complete w.saved; ends = refl; order = h.order; closed = h.closed })
  ]

-- Whatever the venue answers, a download comes to an end, complete or at a request that raises; the
-- bars it has written by then are strictly ascending, none opens before the start of the window, and
-- each had closed by the clock of the call.
pub download_ohlcv-IsAnswer :
    (kline : ℕ → ℕ → ℕ → Option (List Bar)) (interval : String) (limit : Option ℕ)
    (now_s start_s until_s : ℕ)
    → IsAnswer interval
        (start_s * 1000)
        (now_s * 1000)
        (download_ohlcv kline interval limit now_s start_s until_s)
unfolding download_ohlcv
download_ohlcv-IsAnswer kline interval limit now_s start_s until_s =
    let end_ts = (if leb until_s now_s then until_s else now_s) * 1000 in
    walk_window-IsAnswer kline interval (effective_limit limit) (now_s * 1000) end_ts
      (start_s * 1000) (end_ts - start_s * 1000) (start_s * 1000) _ (omega arith) (omega arith)
      (record { last = refl; order = tt; closed = tt })
