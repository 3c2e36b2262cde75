-- ===== src/Stops/Tiling.antt =====
-- The windows of the search of the execution history (`_unbooked_executions` of
-- pynecore_bybit/events.py).
use pynecore_plugin_bybit.Prelude.{
  ℕ, zero, suc, ◌+◌, ◌≤◌, ◌<◌, ◌≡◌, refl, ltb, if_rule, List, [], ◌∷◌, arith, ltb→lt,
}
use pynecore_plugin_bybit.Stops.Unbooked.{window_stop}
use pynecore_plugin_bybit.Stops.Recovered.{Window, windows}

pub stop_advances :
    (floor start n : ℕ)
    → start < floor
    → floor ≤ start + suc n
    → floor ≤ window_stop start floor + n
unfolding window_stop
stop_advances floor start n before enough = ground arith

-- Windows without a gap and without an overlap, from a time up to the floor, none longer than the
-- seven days of a request.
abbrev pub Tiles : ℕ → ℕ → List Window → Type 0
Tiles floor start [] = floor ≤ start
Tiles floor start (w ∷ ws) =
    (w.0 ≡ start) × (start < w.1) × (w.1 ≤ start + 604800000) × (w.1 ≤ floor) × Tiles floor w.1 ws

stop_range :
    (floor start : ℕ)
    → start < floor
    → (start < window_stop start floor)
      × (window_stop start floor ≤ start + 604800000)
      × (window_stop start floor ≤ floor)
unfolding window_stop
stop_range floor start before = ground arith

pub windows-Tiles :
    (floor n start : ℕ) → floor ≤ start + n → Tiles floor start (windows floor n start)
unfolding windows
windows-Tiles floor zero start enough = omega (arith, enough)
windows-Tiles floor (suc n) start enough =
    if_rule (Tiles floor start) (ltb start floor)
      ((start, window_stop start floor) ∷ windows floor n (window_stop start floor)) []
      (λ before.
        let earlier = ltb→lt start floor before in
        let (up, short, within) = stop_range floor start earlier in
        (
          refl,
          up,
          short,
          within,
          windows-Tiles floor n (window_stop start floor)
              (stop_advances floor start n earlier enough),
        ))
      (λ over. ground (arith, over))
