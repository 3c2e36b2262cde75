-- ===== src/Inventory/Floors.antt =====
-- What the least sellable quantity means.
use mathlib.Core.Path.{subst}
use native.Mathlib.Nat.{mul-le-mul_right}
use pynecore_plugin_bybit.Prelude.{
  ℕ, zero, suc, ◌*◌, ◌≤◌, ◌<◌, ◌≡◌, refl, ◌⊎◌, inl, inr, Bool-cases, Option, none, some, ◌==◌,
  arith,
}
use pynecore_plugin_bybit.Inventory.Floor.{
  Market, Ratio, over, qty_floor, notional_floor, raise_floor, raised_or_none, positive_or_none,
  min_sellable_base,
}

abbrev NotionalMet : Option ℕ → ℕ → ℕ → Type 0
NotionalMet none amt q = amt ≡ 0
NotionalMet (some p) amt q = amt ≤ q * p

abbrev NotionalMissed : Option ℕ → ℕ → ℕ → Type 0
NotionalMissed none amt q = ⊥
NotionalMissed (some p) amt q = q * p < amt

-- the quantity passes each of the venue's three minimums
abbrev pub Sellable : Market → Option ℕ → ℕ → Type 0
Sellable m price q = (m.qty_step ≤ q) × (m.min_order_qty ≤ q) × NotionalMet price m.min_order_amt q

-- the quantity fails one of them
abbrev pub Unsellable : Market → Option ℕ → ℕ → Type 0
Unsellable m price q =
    (q < m.qty_step) ⊎ (q < m.min_order_qty) ⊎ NotionalMissed price m.min_order_amt q

-- the floor draws the line exactly at the venue's minimums
abbrev pub Exact : Market → Option ℕ → ℕ → Ratio → Type 0
Exact m price q f =
    (q * f.den < f.num) × Unsellable m price q ⊎ (f.num ≤ q * f.den) × Sellable m price q

order : (a b : ℕ) → (a < b) ⊎ (b ≤ a)
order a b = ground arith

quantity_line :
    (m : Market) (q : ℕ)
    → (q < (qty_floor m).num) × ((q < m.qty_step) ⊎ (q < m.min_order_qty))
      ⊎ ((qty_floor m).num ≤ q) × (m.qty_step ≤ q) × (m.min_order_qty ≤ q)
unfolding qty_floor
quantity_line m q = ground arith

scaled_below : (a b p : ℕ) → a * p < b * p → a < b
scaled_below a b p h = elim (order a b) [
  | inl below ↦ below
  | inr above ↦ absurd (omega (arith, h, mul-le-mul_right p above))
]

-- the floor of the quantity grid, where a quantity that reaches it meets the notional minimum
quantity_floor-Exact :
    (m : Market) (price : Option ℕ) (q : ℕ)
    → ((qty_floor m).num ≤ q → NotionalMet price m.min_order_amt q)
    → Exact m price q (qty_floor m)
quantity_floor-Exact m price q met =
    let one : (qty_floor m).den ≡ 1 = unfold qty_floor in refl in
    elim (quantity_line m q) [
      | inl (below, inl step) ↦ inl (rw one (omega (arith, below)), inl step)
      | inl (below, inr least) ↦ inl (rw one (omega (arith, below)), inr (inl least))
      | inr (above, step, least) ↦ inr (rw one (omega (arith, above)), (step, least, met above))
    ]

raised-Exact :
    (m : Market) (p q : ℕ)
    → Exact m
        (some (suc p))
        q
        (raise_floor (qty_floor m) (some (record { num = m.min_order_amt; den = suc p })))
unfolding raise_floor
raised-Exact m p q =
    let notional : Ratio = record { num = m.min_order_amt; den = suc p } in
    let one : (qty_floor m).den ≡ 1 = unfold qty_floor in refl in
    elim (Bool-cases (over notional (qty_floor m))) [
      | inl higher ↦
          let more : (qty_floor m).num * suc p < m.min_order_amt =
            unfold over in (ground (arith, one)) in
          rw higher (elim (order (q * suc p) m.min_order_amt) [
            | inl missed ↦ inl (missed, inr (inr missed))
            | inr met ↦
                let reaches : (qty_floor m).num < q =
                  scaled_below (qty_floor m).num q (suc p) (omega (arith, more, met)) in
                elim (quantity_line m q) [
                  | inl below ↦ absurd (omega (arith, reaches, below.0))
                  | inr above ↦ inr (met, (above.1, above.2, met))
                ]
          ])
      | inr lower ↦
          let less : m.min_order_amt ≤ (qty_floor m).num * suc p =
            unfold over in (ground (arith, one)) in
          rw lower (
            quantity_floor-Exact m (some (suc p)) q
              (λ above. omega (arith, less, mul-le-mul_right (suc p) above)))
    ]

abbrev ExactOr : Market → Option ℕ → ℕ → Option Ratio → Type 0
ExactOr m price q none = Unit
ExactOr m price q (some f) = Exact m price q f

positive_or_none-ExactOr :
    (m : Market) (price : Option ℕ) (q : ℕ) (f : Ratio)
    → Exact m price q f
    → ExactOr m price q (positive_or_none f)
positive_or_none-ExactOr m price q f h = elim (Bool-cases (f.num == 0)) [
  | inl nothing ↦ rw nothing tt
  | inr positive ↦ rw positive h
]

raised_or_none-ExactOr :
    (m : Market) (price : Option ℕ) (q : ℕ)
    → ExactOr m price q (raised_or_none (qty_floor m) (notional_floor m price))
unfolding raised_or_none notional_floor
raised_or_none-ExactOr m none q = tt
raised_or_none-ExactOr m (some zero) q = tt
raised_or_none-ExactOr m (some (suc p)) q =
    positive_or_none-ExactOr m (some (suc p)) q _ (raised-Exact m p q)

no_amount : (price : Option ℕ) (amt q : ℕ) → amt ≡ 0 → NotionalMet price amt q
no_amount none amt q h = h
no_amount (some p) amt q h = omega (arith, h)

min_sellable_base-ExactOr :
    (m : Market) (price : Option ℕ) (q : ℕ) → ExactOr m price q (min_sellable_base m price)
unfolding min_sellable_base
min_sellable_base-ExactOr m price q = elim (Bool-cases (m.min_order_amt == 0)) [
  | inl free ↦
      let none_asked : m.min_order_amt ≡ 0 = ground arith in
      rw free (
        positive_or_none-ExactOr m price q (qty_floor m)
          (quantity_floor-Exact m price q (λ _. no_amount price m.min_order_amt q none_asked)))
  | inr asked ↦ rw asked (raised_or_none-ExactOr m price q)
]

-- The least sellable quantity, where there is one, draws the line exactly: whatever is below it fails one of the venue's
-- three minimums, and whatever reaches it passes all three.
pub min_sellable_base-Exact :
    (m : Market) (price : Option ℕ) (f : Ratio)
    → min_sellable_base m price ≡ some f
    → (q : ℕ) → Exact m price q f
min_sellable_base-Exact m price f h q =
    subst (λ (x : Option Ratio). ExactOr m price q x) h (min_sellable_base-ExactOr m price q)
