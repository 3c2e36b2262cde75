-- ===== src/Instruments/PriceGrid/Exact.antt =====
-- The price grid is the tick, exactly and in lowest terms.
use Prim.Native.Nat.{◌∣◌}
use native.Mathlib.Nat
use mathlib.Core.Path.{subst}
use pynecore_plugin_bybit.Prelude.Texts.{codes}
use pynecore_plugin_bybit.Prelude.Divisor.{gcd, gcd-divides, reduced}
use pynecore_plugin_bybit.Prelude.{
  ℕ, zero, suc, ◌+◌, ◌-◌, ◌*◌, ◌/◌, ◌^◌, ◌<◌, true, false, ◌==◌, ◌≡◌, refl, sym, ap, ◌∙◌, ◌⊎◌, inl,
  inr, Bool-cases, Option, none, some, List, [], ◌∷◌, ◌++◌, length, if_rule, arith,
}
use pynecore_plugin_bybit.Instruments.Info.{InstrumentInfo}
use pynecore_plugin_bybit.Instruments.Symbols.{strip}
use pynecore_plugin_bybit.Instruments.PriceGrid.{
  isdigit, partition, drop_dot, read_from, read_int, grid_of, grid_of_text, price_grid,
}

-- the text without its point: the digits before it, then those after it
drop_dot-partition : (s : List ℕ) → drop_dot s ≡ (partition s).0 ++ (partition s).1
unfolding drop_dot partition
drop_dot-partition [] = refl
drop_dot-partition (c ∷ s) = elim (Bool-cases (c == b'.')) [
  | inl dot ↦ rw dot refl
  | inr digit ↦ rw digit (ap (◌∷◌ c) (drop_dot-partition s))
]

read_from-append : (n : ℕ) (xs ys : List ℕ) → read_from n (xs ++ ys) ≡ read_from (read_from n xs) ys
unfolding read_from
read_from-append n [] ys = refl
read_from-append n (c ∷ xs) ys = read_from-append (n * 10 + (c - b'0')) xs ys

shift_step :
    {here tail power : ℕ} (n d p rest : ℕ)
    → power ≡ p * 10
    → here ≡ (n * 10 + d) * p + rest
    → tail ≡ (0 * 10 + d) * p + rest
    → here ≡ n * power + tail
shift_step n d p rest e a b = rw (e, a, b) (grind arith)

read_from-shift : (n : ℕ) (s : List ℕ) → read_from n s ≡ n * 10 ^ length s + read_from 0 s
unfolding read_from
read_from-shift n [] = grind arith
read_from-shift n (c ∷ s) =
    shift_step n (c - b'0') (10 ^ length s) (read_from 0 s) (Nat.pow-suc 10 (length s))
      (read_from-shift (n * 10 + (c - b'0')) s) (read_from-shift (0 * 10 + (c - b'0')) s)

-- What a pair is to be for a tick of so many units of ten to the minus `digits`.
pub record IsExact (units digits : ℕ) (grid : ℕ × ℕ) : Type 0 where
  pub exact : grid.0 * 10 ^ digits ≡ units * grid.1
  pub positive : (0 < grid.0) × (0 < grid.1)
  pub lowest : (r : ℕ) → r ∣ grid.0 → r ∣ grid.1 → r ≡ 1

-- a text that is no number or is zero, or else the grid of its number
abbrev pub IsGridOf : List ℕ → Option (ℕ × ℕ) → Type 0
IsGridOf text none = (isdigit (drop_dot text) ≡ false) ⊎ (read_int (drop_dot text) ≡ 0)
IsGridOf text (some grid) =
    (isdigit (drop_dot text) ≡ true)
    × IsExact (read_int (drop_dot text)) (length (partition text).1) grid

power_positive : (k : ℕ) → 0 < 10 ^ k
power_positive zero = omega arith
power_positive (suc k) =
    let p = Nat.pow-suc 10 k in let ih = power_positive k in grind (arith, p, ih)

cross : (m s g : ℕ) {u p : ℕ} → m * g ≡ u → s * g ≡ p → m * p ≡ u * s
cross m s g a b = rw (← a, ← b) (grind arith)

factor : (m g : ℕ) {u : ℕ} → m * g ≡ u → 0 < u → 0 < m
factor zero g e h = omega (arith, e, h)
factor (suc m) g e h = omega arith

reduced-IsExact :
    (units digits : ℕ)
    → 0 < units
    → IsExact units digits (units / gcd units (10 ^ digits), 10 ^ digits / gcd units (10 ^ digits))
reduced-IsExact units digits pos = record {
  exact = cross _ _ g left right;
  positive = (factor _ g left pos, factor _ g right (power_positive digits));
  lowest = λ r h k. reduced units (10 ^ digits) (power_positive digits) r h k;
}
  where
    g : ℕ
    g = gcd units (10 ^ digits)

    left : units / g * g ≡ units
    left = Nat.div-mul_cancel g (gcd-divides units (10 ^ digits)).0

    right : 10 ^ digits / g * g ≡ 10 ^ digits
    right = Nat.div-mul_cancel g (gcd-divides units (10 ^ digits)).1

grid_of-IsGridOf :
    (text : List ℕ) (units digits : ℕ)
    → isdigit (drop_dot text) ≡ true
    → units ≡ read_int (drop_dot text)
    → digits ≡ length (partition text).1
    → IsGridOf text (grid_of units (10 ^ digits))
unfolding grid_of
grid_of-IsGridOf text units digits number e l =
    let divisor = gcd units (10 ^ digits) in
    let grid : ℕ × ℕ = (units / divisor, 10 ^ digits / divisor) in
    if_rule (IsGridOf text) (units == 0) _ _ (λ nil. inr (sym e ∙ ground (arith, nil)))
      (λ some_units. (
        number,
        subst (λ (u : ℕ). IsExact u (length (partition text).1) grid) e
            (subst (λ (k : ℕ). IsExact units k grid) l
              (reduced-IsExact units digits (ground (arith, some_units)))),
      ))

parts-read_int :
    (text : List ℕ)
    → read_int (partition text).0 * 10 ^ length (partition text).1 + read_int (partition text).1
      ≡ read_int (drop_dot text)
unfolding read_int
parts-read_int text = sym (
    ap (read_from 0) (drop_dot-partition text)
    ∙ read_from-append 0 (partition text).0 (partition text).1
    ∙ read_from-shift (read_from 0 (partition text).0) (partition text).1)

-- The price grid of an instrument is its tick, exactly: the quotient of the pair is the number that
-- the digits of the stripped text read, scaled by the digits after the point, and no number above 1
-- divides both. There is no grid just when the text without its first point is not all digits, or
-- reads zero.
pub price_grid-IsGridOf :
    (i : InstrumentInfo) → IsGridOf (strip (codes i.tick_size_str)) (price_grid i)
unfolding price_grid grid_of_text
price_grid-IsGridOf i =
    let text = strip (codes i.tick_size_str) in
    if_rule (IsGridOf text) (isdigit (drop_dot text)) _ _
      (λ number. grid_of-IsGridOf text _ _ number (parts-read_int text) refl) (λ other. inl other)
