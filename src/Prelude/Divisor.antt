-- ===== src/Prelude/Divisor.antt =====
-- `math.gcd`, as Euclid's loop on fuel: its second argument goes down, so one more than it is enough.
use Prim.Native.Nat.{◌∣◌}
use native.Mathlib.Nat
use pynecore_plugin_bybit.Prelude.{ℕ, zero, suc, ◌*◌, ◌/◌, ◌%◌, ◌≤◌, ◌<◌, ◌≡◌, sym, arith}
use mathlib.Core.Path.{subst}

unfoldable pub euclid : ℕ → ℕ → ℕ → ℕ
euclid fuel a zero = a
euclid zero a (suc b) = a
euclid (suc fuel) a (suc b) = euclid fuel (suc b) (a % suc b)

unfoldable pub gcd : ℕ → ℕ → ℕ
gcd a b = euclid b a b

euclid-divides : (fuel a b : ℕ) → b ≤ fuel → (euclid fuel a b ∣ a) × (euclid fuel a b ∣ b)
unfolding euclid
euclid-divides fuel a zero enough = (Nat.dvd_refl a, Nat.dvd-zero a)
euclid-divides zero a (suc b) enough = absurd (omega arith)
euclid-divides (suc fuel) a (suc b) enough =
    let below : a % suc b < suc b = omega arith in
    let ih = euclid-divides fuel (suc b) (a % suc b) (omega (arith, below, enough)) in
    ((Nat.dvd-mod_iff (euclid fuel (suc b) (a % suc b)) ih.0).0 ih.1, ih.0)

euclid-greatest : (fuel a b k : ℕ) → k ∣ a → k ∣ b → k ∣ euclid fuel a b
unfolding euclid
euclid-greatest fuel a zero k ha hb = ha
euclid-greatest zero a (suc b) k ha hb = ha
euclid-greatest (suc fuel) a (suc b) k ha hb =
    euclid-greatest fuel (suc b) (a % suc b) k hb ((Nat.dvd-mod_iff k hb).1 ha)

pub gcd-divides : (a b : ℕ) → (gcd a b ∣ a) × (gcd a b ∣ b)
unfolding gcd
gcd-divides a b = euclid-divides b a b (omega arith)

pub gcd-greatest : (a b k : ℕ) → k ∣ a → k ∣ b → k ∣ gcd a b
unfolding gcd
gcd-greatest a b k ha hb = euclid-greatest b a b k ha hb

-- Divided by their common divisor, two numbers have none but 1.
pub reduced : (a b : ℕ) → 0 < b → (r : ℕ) → r ∣ a / gcd a b → r ∣ b / gcd a b → r ≡ 1
reduced a b pos r ha hb = Nat.eq-one_of_dvd-one (
    Nat.dvd_of_mul-dvd-mul_right r positive
      (subst (λ (n : ℕ). r * g ∣ n) (sym (Nat.one-mul g)) whole))
  where
    g : ℕ
    g = gcd a b

    positive : 0 < g
    positive = Nat.pos_of_dvd_of_pos (gcd-divides a b).1 pos

    times : (n : ℕ) → g ∣ n → r ∣ n / g → r * g ∣ n
    times n hg hr =
        subst (λ (m : ℕ). r * g ∣ m) (Nat.div-mul_cancel g hg) (Nat.mul-dvd-mul_right r hr g)

    whole : r * g ∣ g
    whole =
        gcd-greatest a b (r * g) (times a (gcd-divides a b).0 ha) (times b (gcd-divides a b).1 hb)
