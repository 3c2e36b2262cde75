-- ===== src/Helpers/Timeframes/Calendar.antt =====
-- Bars on the calendar: the month of a day, and where `add_interval` lands.
use native.Mathlib.Nat.{lt-div-mul-add, mul-div_left, mul-le-mul_right}
use pynecore_plugin_bybit.Prelude.{
  table_get, ℕ, zero, suc, ◌+◌, ◌-◌, ◌*◌, ◌/◌, ◌≤◌, ◌<◌, Option, none, some, ◌≡◌, refl, ap, ◌⊎◌,
  Bool-cases, inl, inr, leb, String, arith,
}
use pynecore_plugin_bybit.Helpers.Timeframes.{
  interval_ms, days_in_month, first_day, month_from, month_of, month_start, day_ms, epoch_month,
  add_on, add_interval,
}
use pynecore_plugin_bybit.Helpers.Timeframes.Tables.{interval_ms_positive}

days_in_month_range : (m : ℕ) → (28 ≤ days_in_month m) × (days_in_month m ≤ 31)
unfolding days_in_month
days_in_month_range m = ground arith

first_day_next : (n : ℕ) → first_day n + 28 ≤ first_day (suc n)
unfolding first_day
first_day_next n = omega (arith, days_in_month_range (epoch_month + n))

first_day_mono : (n k : ℕ) → first_day n + 28 * k ≤ first_day (k + n)
first_day_mono n zero = let e : 0 + n ≡ n = omega arith in omega (arith, ap first_day e)
first_day_mono n (suc k) =
    let e : suc k + n ≡ suc (k + n) = omega arith in
    omega (arith, first_day_mono n k, first_day_next (k + n), ap first_day e)

-- the month that starts on or before a day, the next one after it
abbrev pub Holds : ℕ → ℕ → Type 0
Holds n day = (first_day n ≤ day) × (day < first_day (suc n))

month_from-Holds :
    (fuel n day : ℕ)
    → first_day n ≤ day
    → day < first_day n + fuel
    → Holds (month_from fuel n day) day
unfolding month_from
month_from-Holds zero n day lo hi = absurd (omega arith)
month_from-Holds (suc fuel) n day lo hi = elim (Bool-cases (leb (first_day (suc n)) day)) [
  | inl over ↦
      let next : first_day (suc n) ≤ day = ground arith in
      rw over (month_from-Holds fuel (suc n) day next (omega (arith, first_day_next n)))
  | inr within ↦ let next : day < first_day (suc n) = ground arith in rw within (lo, next)
]

-- The month that is read off a day holds it.
pub month_of-Holds : (day : ℕ) → Holds (month_of day) day
unfolding month_of
month_of-Holds day =
    month_from-Holds (suc day) 0 day (unfold first_day in (omega arith))
      (unfold first_day in (omega arith))

first_day_le : (a b : ℕ) → a ≤ b → first_day a ≤ first_day b
first_day_le a b h =
    let e : b - a + a ≡ b = omega arith in omega (arith, first_day_mono a (b - a), ap first_day e)

Holds-eq : (a b day : ℕ) → Holds a day → Holds b day → a ≡ b
Holds-eq a b day h k = elim (order a b) [
  | inl same ↦ same
  | inr (inl below) ↦ absurd (omega (arith, first_day_le (suc a) b below, h, k))
  | inr (inr above) ↦ absurd (omega (arith, first_day_le (suc b) a above, h, k))
]
  where
    order : (a b : ℕ) → (a ≡ b) ⊎ (a < b) ⊎ (b < a)
    order a b = ground arith

month_of-first_day : (n : ℕ) → month_of (first_day n) ≡ n
month_of-first_day n =
    Holds-eq _ n (first_day n) (month_of-Holds (first_day n))
      (omega arith, omega (arith, first_day_next n))

month_start-month_of : (n : ℕ) → month_of (month_start n / day_ms) ≡ n
unfolding month_start
month_start-month_of n =
    rw (mul-div_left (first_day n) {n = day_ms} (omega arith)) (month_of-first_day n)

add_on_later :
    (step : Option ℕ) (ts n : ℕ) → 0 < n → ((s : ℕ) → step ≡ some s → 0 < s) → ts < add_on step ts n
unfolding add_on month_start
add_on_later none ts n pos h =
    let day = ts / day_ms in
    let m = month_of day in
    let a = (month_of-Holds day).1 in
    let b = first_day_le (suc m) (m + n) (omega arith) in
    omega (arith, a, b, lt-div-mul-add {a = ts} {b = day_ms} (omega arith))
add_on_later (some s) ts n pos h =
    let a : 1 * s ≤ n * s = mul-le-mul_right s pos in omega (arith, a, h s refl)

-- `add_interval` moves forward on every interval, the calendar month included, from every time.
pub add_interval_later :
    (ts : ℕ) (interval : String) (n : ℕ) → 0 < n → ts < add_interval ts interval n
unfolding add_interval
add_interval_later ts interval n pos =
    add_on_later (table_get interval interval_ms) ts n pos (interval_ms_positive interval)

add_on_split :
    (step : Option ℕ) (ts a b : ℕ) → add_on step (add_on step ts a) b ≡ add_on step ts (a + b)
unfolding add_on
add_on_split none ts a b =
    let m = month_of (ts / day_ms) in
    let same : m + a + b ≡ m + (a + b) = omega arith in
    rw (month_start-month_of (m + a)) (ap month_start same)
add_on_split (some s) ts a b = grind arith

-- Two moves by `add_interval` are one by their sum, on every interval.
add_interval_split :
    (ts : ℕ) (interval : String) (a b : ℕ)
    → add_interval (add_interval ts interval a) interval b ≡ add_interval ts interval (a + b)
unfolding add_interval
add_interval_split ts interval a b = add_on_split (table_get interval interval_ms) ts a b
