-- ===== src/Helpers/Rounding.antt =====
-- How far the grids of pynecore_bybit/helpers.py move a value.
use native.Mathlib.Nat.{
  le-div_iff_mul-le, div-lt_iff_lt-mul, mul-div-le, lt-div-mul-add, mul-le-mul_right,
}
use pynecore_plugin_bybit.Prelude.{
  ℕ, suc, ◌+◌, ◌*◌, ◌/◌, ◌≤◌, ◌<◌, ◌≡◌, refl, false, ◌==◌, arith, ◌⊎◌, inl, inr, sym,
}
use pynecore_plugin_bybit.Helpers.Grid.{
  round_half_up, nano, floor_to_step, base_to_contracts, base_to_contracts_reduce,
}

div_eq : (n d k : ℕ) → 0 < d → k * d ≤ n → n < suc k * d → n / d ≡ k
div_eq n d k pos lo hi =
    let a = (le-div_iff_mul-le {x = k} {y = n} pos).1 lo in
    let b = (div-lt_iff_lt-mul {x = n} {y = suc k} pos).1 hi in omega arith

div_range : (n d : ℕ) → 0 < d → (n / d * d ≤ n) × (n < n / d * d + d)
div_range n d pos = (omega (arith, mul-div-le n d), lt-div-mul-add pos)

round_half_up_range :
    (n d : ℕ)
    → 0 < d
    → (2 * (round_half_up n d * d) ≤ 2 * n + d) × (2 * n < 2 * (round_half_up n d * d) + d)
unfolding round_half_up
round_half_up_range n d pos =
    let (lo, hi) = div_range (2 * n + d) (2 * d) (omega arith) in
    (grind (arith, lo), grind (arith, hi))

sign_cases : (n : ℕ) → (n ≡ 0) ⊎ (0 < n)
sign_cases n = ground arith

le_cases : (a b : ℕ) → (a ≤ b) ⊎ (b < a)
le_cases a b = ground arith

nano_positive : 0 < nano
nano_positive = omega arith

step_given : (step : ℕ) → 0 < step → (step == 0) ≡ false
step_given step pos = ground arith

-- A value that is at most half a billionth of a step below the multiple `k` of the step, and by more
-- than that below the next multiple, is floored onto `k`.
floor_to_step_onto :
    (value step k : ℕ)
    → 0 < step
    → 2 * nano * (k * step) ≤ 2 * nano * value + step
    → 2 * nano * value + step < 2 * nano * (suc k * step)
    → floor_to_step value step ≡ k * step
unfolding floor_to_step round_half_up
floor_to_step_onto value step k pos lo hi =
    let a : k * nano * (2 * step) ≤ 2 * (value * nano) + step = grind (arith, lo) in
    let b : 2 * (value * nano) + step < suc k * nano * (2 * step) = grind (arith, hi) in
    let ratio = (2 * (value * nano) + step) / (2 * step) in
    let c : k * nano ≤ ratio = (le-div_iff_mul-le (omega arith)).1 a in
    let d : ratio < suc k * nano = (div-lt_iff_lt-mul (omega arith)).1 b in
    let e : ratio / nano ≡ k = div_eq ratio nano k nano_positive c d in
    rw (step_given step pos, e) refl

above_ratio :
    (v s k r : ℕ)
    → k * nano ≤ r
    → r * (2 * s) ≤ 2 * (v * nano) + s
    → 2 * nano * (k * s) ≤ 2 * nano * v + s
above_ratio v s k r lo h =
    let a : k * nano * (2 * s) ≤ r * (2 * s) = mul-le-mul_right (2 * s) lo in grind (arith, a, h)

below_ratio :
    (v s k r : ℕ)
    → 0 < s
    → r < k * nano + nano
    → 2 * (v * nano) + s < r * (2 * s) + 2 * s
    → v < k * s + s
below_ratio v s k r pos hi h =
    let a : suc r * (2 * s) ≤ (k * nano + nano) * (2 * s) = mul-le-mul_right (2 * s) hi in
    grind (arith, a, h)

-- The grid of a sell or of an entry: the result is never a whole step below the value, and exceeds
-- it by no more than half a billionth of a step.
pub floor_to_step_range :
    (value step : ℕ)
    → 0 < step
    → (2 * nano * floor_to_step value step ≤ 2 * nano * value + step)
      × (value < floor_to_step value step + step)
unfolding floor_to_step round_half_up
floor_to_step_range value step pos =
    let ratio = (2 * (value * nano) + step) / (2 * step) in
    let (a, b) = div_range (2 * (value * nano) + step) (2 * step) (omega arith) in
    let (c, d) = div_range ratio nano (omega arith) in
    rw (step_given step pos) (
      above_ratio value step (ratio / nano) ratio c a,
      below_ratio value step (ratio / nano) ratio pos d b,
    )

-- Quantizing twice is quantizing once: a quantity that is on the grid stays as it is.
floor_to_step_idem :
    (value step : ℕ) → floor_to_step (floor_to_step value step) step ≡ floor_to_step value step
floor_to_step_idem value step = elim (sign_cases step) [
  | inl nothing ↦ rw nothing (unfold floor_to_step in refl)
  | inr pos ↦
      let k = round_half_up (value * nano) step / nano in
      let e : floor_to_step value step ≡ k * step =
        unfold floor_to_step in (rw (step_given step pos) refl) in
      rw e (floor_to_step_onto (k * step) step k pos (omega arith) (grind (arith, pos)))
]

-- A reduce is sized within half a step of what the size is worth, and a half is rounded up.
reduce_nearest :
    (qty price step : ℕ)
    → 0 < step
    → (2 * base_to_contracts_reduce qty price step ≤ 2 * (qty * price) + step)
      × (2 * (qty * price) < 2 * base_to_contracts_reduce qty price step + step)
unfolding base_to_contracts_reduce
reduce_nearest qty price step pos =
    rw (step_given step pos) (round_half_up_range (qty * price) step pos)

no_step_over :
    (k m x s : ℕ) → 0 < s → 2 * nano * (k * s) ≤ 2 * nano * x + s → 2 * x < 2 * (m * s) + s → k ≤ m
no_step_over k m x s pos a b = elim (le_cases k m) [
  | inl fits ↦ fits
  | inr over ↦
      let c : suc m * s ≤ k * s = mul-le-mul_right s over in absurd (grind (arith, a, b, c))
]

-- The reduce of a size at a price is never smaller than the entry of that size at that price.
pub contracts_le_reduce :
    (qty price step : ℕ)
    → base_to_contracts qty price step ≤ base_to_contracts_reduce qty price step
unfolding base_to_contracts base_to_contracts_reduce
contracts_le_reduce qty price step = elim (sign_cases step) [
  | inl nothing ↦ rw nothing (unfold floor_to_step in (omega arith))
  | inr pos ↦
      let x = qty * price in
      let k = round_half_up (x * nano) step / nano in
      let e : floor_to_step x step ≡ k * step =
        unfold floor_to_step in (rw (step_given step pos) refl) in
      let a : 2 * nano * (k * step) ≤ 2 * nano * x + step =
        rw (sym e) ((floor_to_step_range x step pos).0) in
      rw (step_given step pos, e)
        (mul-le-mul_right step
          (no_step_over k (round_half_up x step) x step pos a (round_half_up_range x step pos).1))
]
