-- ===== src/Inverse/Capped.antt =====
-- How many contracts a reducing order gets.
use pynecore_plugin_bybit.Prelude.{
  ℕ, ◌*◌, ◌≤◌, true, false, ◌==◌, ◌≡◌, refl, Option, none, some, leb, if_rule, arith,
}
use pynecore_plugin_bybit.Helpers.Grid.{quantize_qty}
use pynecore_plugin_bybit.Inverse.Mirror.{Mirror, size_of, is_zero}
use pynecore_plugin_bybit.Inverse.Convert.{
  Anchor, Amount, floored_at, nearest_at, cap_amount, positive_amount, mirror_anchor, covers,
  reduce_slice, reduce_held, is_held, inverse_reduce_contracts, inverse_amend_contracts,
}

-- Of an order that is sent: its contracts are more than none and at most a count of whole ones.
abbrev pub AtMost : ℕ → Option (Amount × Anchor) → Type 0
AtMost net none = Unit
AtMost net (some (a, anchor)) = ((a.units == 0) ≡ false) × (a.units ≤ net * a.parts)

cap_amount-le :
    (net_c step : ℕ) (a : Amount)
    → (cap_amount net_c step a).units ≤ quantize_qty net_c step * (cap_amount net_c step a).parts
unfolding cap_amount
cap_amount-le net_c step a =
    if_rule (λ (x : Amount). x.units ≤ quantize_qty net_c step * x.parts)
      (leb a.units (quantize_qty net_c step * a.parts)) _ _ (λ below. ground (arith, below))
      (λ above. omega arith)

positive_amount-AtMost :
    (net : ℕ) (a : Amount) (anchor : Anchor)
    → a.units ≤ net * a.parts
    → AtMost net (positive_amount a anchor)
unfolding positive_amount
positive_amount-AtMost net a anchor le =
    if_rule (AtMost net) (a.units == 0) _ _ (λ nothing. tt) (λ sent. (sent, le))

reduce_slice-AtMost :
    (qty step : ℕ) (entry : Option Anchor) (m : Mirror)
    → AtMost (quantize_qty (size_of m.net_contracts) step) (reduce_slice qty step entry m)
unfolding reduce_slice
reduce_slice-AtMost qty step none m =
    positive_amount-AtMost _ _ _
      (cap_amount-le (size_of m.net_contracts) step (nearest_at (mirror_anchor m) qty step))
reduce_slice-AtMost qty step (some entry) m =
    positive_amount-AtMost _ _ _
      (cap_amount-le (size_of m.net_contracts) step (floored_at entry qty step))

-- While the mirror holds a position, a reducing order never asks for more contracts than it holds, on
-- the quantity grid, whatever anchor it converts at; and an order for the whole mirrored base asks for
-- all of them, or is not sent where the grid leaves none.
pub inverse_reduce_contracts-AtMost :
    (qty step : ℕ) (entry : Option Anchor) (ref : Option ℕ) (m : Mirror)
    → is_held m ≡ true
    → AtMost
        (quantize_qty (size_of m.net_contracts) step)
        (inverse_reduce_contracts qty step entry ref m)
      × (covers qty (size_of m.net_base) ≡ true
          → inverse_reduce_contracts qty step entry ref m
            ≡ positive_amount
                (record { units = quantize_qty (size_of m.net_contracts) step; parts = 1 })
                (mirror_anchor m))
unfolding inverse_reduce_contracts reduce_held
inverse_reduce_contracts-AtMost qty step entry ref m held =
    let net = quantize_qty (size_of m.net_contracts) step in
    let all : Amount = record { units = net; parts = 1 } in
    if_rule
      (λ (o : Option (Amount × Anchor)).
        AtMost net o
        × (covers qty (size_of m.net_base) ≡ true → o ≡ positive_amount all (mirror_anchor m)))
      (is_held m) _ _
      (λ known.
        if_rule
          (λ (o : Option (Amount × Anchor)).
            AtMost net o
            × (covers qty (size_of m.net_base) ≡ true → o ≡ positive_amount all (mirror_anchor m)))
          (covers qty (size_of m.net_base)) _ _
          (λ whole. (positive_amount-AtMost net all (mirror_anchor m) (grind arith), λ e. refl))
          (λ part. (reduce_slice-AtMost qty step entry m, λ e. absurd cc)))
      (λ unknown. absurd cc)

-- Nor does an amended order ask for more contracts than a mirror with contracts holds.
pub inverse_amend_contracts-AtMost :
    (qty step : ℕ) (anchor : Anchor) (m : Mirror)
    → is_zero m.net_contracts ≡ false
    → AtMost
        (quantize_qty (size_of m.net_contracts) step)
        (inverse_amend_contracts qty step anchor m)
unfolding inverse_amend_contracts
inverse_amend_contracts-AtMost qty step anchor m held = positive_amount-AtMost _ _ anchor (
    if_rule (λ (a : Amount). a.units ≤ quantize_qty (size_of m.net_contracts) step * a.parts)
      (is_zero m.net_contracts) _ _ (λ empty. absurd cc)
      (λ some_held. cap_amount-le (size_of m.net_contracts) step (nearest_at anchor qty step)))
