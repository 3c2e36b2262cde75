-- ===== src/Live/Ends.antt =====
-- Why the backfill of a reconnect comes to an end: what a chunk does to the closed-bar cursor, and how
-- many rounds are left.
use native.Mathlib.Nat.{mul-le-mul_right}
use pynecore_plugin_bybit.Prelude.{
  ℕ, suc, ◌+◌, ◌-◌, ◌*◌, ◌≤◌, ◌<◌, true, false, ◌≡◌, refl, Option, none, some, List, [], ◌∷◌, leb,
  ltb, if_rule, String, arith,
}
use pynecore_plugin_bybit.Helpers.Timeframes.{bar_close_ts}
use pynecore_plugin_bybit.Helpers.Timeframes.Calendar.{add_interval_later}
use pynecore_plugin_bybit.Live.State.{LiveProvider, is_settled, set_ready}
use pynecore_plugin_bybit.Live.Dispatch.{enqueue_closed, note_trade, on_ws_closed}
use pynecore_plugin_bybit.Live.Kept.{IsKept}
use pynecore_plugin_bybit.Live.Backfill.{
  Row, Prices, closed_bar, fill_bar, or_zero, Filling, fill_row, fill_rows, past_chunk,
}

-- the cursor has reached `c`
abbrev pub AtLeast : ℕ → LiveProvider → Type 0
AtLeast c p = c ≤ or_zero p.last_closed_bar_ts

unsettled_later : (t : ℕ) (cursor : Option ℕ) → is_settled t cursor ≡ false → or_zero cursor ≤ t
unfolding is_settled or_zero
unsettled_later t none h = omega arith
unsettled_later t (some c) h = ground arith

-- Nothing moves the cursor back.
pub AtLeast-IsKept : (c : ℕ) → IsKept (AtLeast c)
unfolding enqueue_closed note_trade set_ready on_ws_closed
AtLeast-IsKept c = record {
  pushes = record {
    enqueues = λ b p final later h.
        let up = unsettled_later b.timestamp p.last_closed_bar_ts later in
        unfold or_zero in omega (arith, h, up);
    holds = λ pending b p e final h. h;
    notes = λ b p h. h;
    shows = λ b p still later h. h;
    wakes = λ p h. h;
  };
  closes = λ p h. h;
  connects = λ ws task p h. h;
}

pub beyond_zero :
    (t : ℕ) (cursor : Option ℕ) → leb t (or_zero cursor) ≡ false → is_settled t cursor ≡ false
unfolding is_settled or_zero
beyond_zero t none h = refl
beyond_zero t (some c) h = h

-- what a chunk does to the cursor: a bar that is queued moves it on, to one closed by now
abbrev pub Fills : ℕ → ℕ → Filling → Type 0
Fills c now_ts f =
    AtLeast c f.provider
    × (f.wrote ≡ true
        → (c < or_zero f.provider.last_closed_bar_ts)
          × (or_zero f.provider.last_closed_bar_ts ≤ now_ts))

fill_bar-Fills :
    (interval : String) (c now_ts start : ℕ) (prices : Option Prices) (f : Filling)
    → Fills c now_ts f
    → leb start (or_zero f.provider.last_closed_bar_ts) ≡ false
    → ltb now_ts (bar_close_ts start interval) ≡ false
    → Fills c now_ts (fill_bar start prices f)
unfolding fill_bar enqueue_closed closed_bar bar_close_ts or_zero
fill_bar-Fills interval c now_ts start none f h later shut = h
fill_bar-Fills interval c now_ts start (some prices) f h later shut =
    let up = add_interval_later start interval 1 (omega arith) in
    let past : c < start = ground (arith, h.0, later) in
    let closed : start ≤ now_ts = ground (arith, up, shut) in
    (omega (arith, past), λ wrote. (past, closed))

fill_row-Fills :
    (interval : String) (c now_ts : ℕ) (r : Row) (f : Filling)
    → Fills c now_ts f
    → Fills c now_ts (fill_row interval now_ts r f)
unfolding fill_row
fill_row-Fills interval c now_ts r f h =
    if_rule (Fills c now_ts) f.crash _ _ (λ crashed. h)
      (λ readable.
        if_rule (Fills c now_ts) (leb r.start (or_zero f.provider.last_closed_bar_ts)) _ _
          (λ old. h)
          (λ later.
            if_rule (Fills c now_ts) (ltb now_ts (bar_close_ts r.start interval)) _ _ (λ forming. h)
              (λ shut. fill_bar-Fills interval c now_ts r.start r.prices f h later shut)))

pub fill_rows-Fills :
    (interval : String) (c now_ts : ℕ) (rs : List Row) (f : Filling)
    → Fills c now_ts f
    → Fills c now_ts (fill_rows interval now_ts rs f)
unfolding fill_rows
fill_rows-Fills interval c now_ts [] f h = h
fill_rows-Fills interval c now_ts (r ∷ rs) f h =
    fill_rows-Fills interval c now_ts rs (fill_row interval now_ts r f)
      (fill_row-Fills interval c now_ts r f h)

pub past_chunk_later :
    (interval : String) (end cursor : ℕ) → cursor < past_chunk interval end cursor
unfolding past_chunk
past_chunk_later interval end cursor =
    let later = add_interval_later cursor interval 1 (omega arith) in ground (arith, later)

-- the rounds that are left, at most: a round with a bar moves the closed cursor on, one without moves
-- the request's
abbrev pub left : ℕ → ℕ → ℕ → ℕ
left now_ts closed cursor = (now_ts - closed) * suc (suc now_ts) + (suc now_ts - cursor)

pub left_wrote :
    (now_ts closed closed' cursor cursor' fuel : ℕ)
    → closed < closed'
    → closed' ≤ now_ts
    → left now_ts closed cursor ≤ suc fuel
    → left now_ts closed' cursor' ≤ fuel
left_wrote now_ts closed closed' cursor cursor' fuel up top enough =
    let fewer : suc (now_ts - closed') * suc (suc now_ts) ≤ (now_ts - closed) * suc (suc now_ts) =
      mul-le-mul_right (suc (suc now_ts)) (omega arith) in
    let one : suc (now_ts - closed') * suc (suc now_ts)
        ≡ suc (suc now_ts) + (now_ts - closed') * suc (suc now_ts) =
      grind arith in
    omega (arith, fewer, one)

pub left_skipped :
    (now_ts closed closed' cursor cursor' fuel : ℕ)
    → closed ≤ closed'
    → cursor < cursor'
    → cursor ≤ now_ts
    → left now_ts closed cursor ≤ suc fuel
    → left now_ts closed' cursor' ≤ fuel
left_skipped now_ts closed closed' cursor cursor' fuel up on top enough =
    let fewer : (now_ts - closed') * suc (suc now_ts) ≤ (now_ts - closed) * suc (suc now_ts) =
      mul-le-mul_right (suc (suc now_ts)) (omega arith) in
    omega (arith, fewer)

pub fuel_enough :
    (now_ts closed cursor : ℕ) → left now_ts closed cursor ≤ suc now_ts * suc (suc now_ts)
fuel_enough now_ts closed cursor =
    let most : (now_ts - closed) * suc (suc now_ts) ≤ now_ts * suc (suc now_ts) =
      mul-le-mul_right (suc (suc now_ts)) (omega arith) in
    let one : suc now_ts * suc (suc now_ts) ≡ suc (suc now_ts) + now_ts * suc (suc now_ts) =
      grind arith in
    omega (arith, most, one)
