-- ===== src/Stops/Shares.antt =====
-- The slices of a stop's execution add up to it (`_venue_bracket_claim_slices` of
-- pynecore_bybit/events.py).
use pynecore_plugin_bybit.Prelude.{
  ℕ, ◌+◌, ◌<◌, Bool, true, ◌≡◌, ap, sym, ◌∙◌, refl, List, [], ◌∷◌, ltb, ◌==◌, ◌&&◌, if◌then◌else◌,
  if_rule, arith,
}
use pynecore_plugin_bybit.Prelude.Int.{ℤ, pos, ◌+ℤ◌, ◌-ℤ◌, +ℤ_parts, -ℤ_parts, eq_of_parts}
use pynecore_plugin_bybit.Stops.Slices.{
  Execution, Claim, Slice, qty_of, fee_of, total_of, slice, is_single, passed, cut, run_fee,
  venue_bracket_claim_slices, qtys, fees,
}

plus_zero : (a : ℤ) → a +ℤ pos 0 ≡ a
plus_zero a = eq_of_parts (a +ℤ pos 0) a (omega (arith, +ℤ_parts a (pos 0)))

share_and_rest : (a b : ℤ) → a +ℤ (b -ℤ a) ≡ b
share_and_rest a b =
    eq_of_parts (a +ℤ (b -ℤ a)) b (omega (arith, +ℤ_parts a (b -ℤ a), -ℤ_parts b a))

module _ (pro_rata : ℤ → ℕ → ℕ → ℤ) (single : Bool) (e : Execution) (total : ℕ) (fee : ℤ) where
  qtys-cut :
      (left : ℤ) (cs : List Claim) → qtys (cut pro_rata single e total fee left cs) ≡ total_of cs
  unfolding qtys cut slice qty_of total_of
  qtys-cut left [] = refl
  qtys-cut left (c ∷ []) = refl
  qtys-cut left (c ∷ d ∷ cs) = ap (λ n. c.qty + n) (qtys-cut (left -ℤ share) (d ∷ cs))
    where
      share : ℤ
      share = if ltb 0 total then pro_rata fee c.qty total else pos 0

  fees-cut :
      (left : ℤ) (c : Claim) (cs : List Claim)
      → fees (cut pro_rata single e total fee left (c ∷ cs)) ≡ left
  unfolding fees cut slice fee_of
  fees-cut left c [] = plus_zero left
  fees-cut left c (d ∷ cs) =
      ap (λ r. share +ℤ r) (fees-cut (left -ℤ share) d cs) ∙ share_and_rest share left
    where
      share : ℤ
      share = if ltb 0 total then pro_rata fee c.qty total else pos 0

-- The parts keep the claimed quantity and the run's part of the fee.
abbrev AddUp : (ℤ → ℕ → ℕ → ℤ) → Execution → List Claim → List Slice → Type 0
AddUp pro_rata e cs ss = (qtys ss ≡ total_of cs) × (fees ss ≡ run_fee pro_rata e cs)

run_fee_whole :
    (pro_rata : ℤ → ℕ → ℕ → ℤ) (e : Execution) (cs : List Claim)
    → total_of cs ≡ qty_of e.exec_qty
    → run_fee pro_rata e cs ≡ fee_of e.exec_fee
unfolding run_fee
run_fee_whole pro_rata e cs h =
    if_rule (λ r. r ≡ fee_of e.exec_fee)
      (ltb 0 (qty_of e.exec_qty) && ltb (total_of cs) (qty_of e.exec_qty)) _ _ (λ t. ground arith)
      (λ _. refl)

passed-AddUp :
    (pro_rata : ℤ → ℕ → ℕ → ℤ) (e : Execution) (cs : List Claim)
    → (is_single cs && total_of cs == qty_of e.exec_qty) ≡ true
    → AddUp pro_rata e cs (passed e cs)
unfolding passed is_single qtys fees total_of
passed-AddUp pro_rata e [] h = ground arith
passed-AddUp pro_rata e (c ∷ []) h =
    (ground arith, plus_zero _ ∙ sym (run_fee_whole pro_rata e (c ∷ []) (ground arith)))
passed-AddUp pro_rata e (c ∷ d ∷ cs) h = ground arith

slices-AddUp :
    (pro_rata : ℤ → ℕ → ℕ → ℤ) (e : Execution) (cs : List Claim)
    → 0 < total_of cs
    → (qtys (venue_bracket_claim_slices pro_rata e cs) ≡ total_of cs)
      × (fees (venue_bracket_claim_slices pro_rata e cs) ≡ run_fee pro_rata e cs)
unfolding venue_bracket_claim_slices total_of
slices-AddUp pro_rata e [] h = ground arith
slices-AddUp pro_rata e (c ∷ cs) h =
    if_rule (AddUp pro_rata e (c ∷ cs)) (total == 0) [] _ (λ is_zero. ground arith)
      (λ _.
        if_rule (AddUp pro_rata e (c ∷ cs)) (is_single (c ∷ cs) && total == qty_of e.exec_qty)
          (passed e (c ∷ cs)) _ (passed-AddUp pro_rata e (c ∷ cs))
          (λ _. (
            qtys-cut pro_rata (is_single (c ∷ cs)) e total fee fee (c ∷ cs),
            fees-cut pro_rata (is_single (c ∷ cs)) e total fee fee c cs,
          )))
  where
    total : ℕ
    total = total_of (c ∷ cs)

    fee : ℤ
    fee = run_fee pro_rata e (c ∷ cs)

run_fee_share :
    (pro_rata : ℤ → ℕ → ℕ → ℤ) (e : Execution) (cs : List Claim)
    → run_fee pro_rata e cs ≡ (
        if ltb (total_of cs) (qty_of e.exec_qty)
        then pro_rata (fee_of e.exec_fee) (total_of cs) (qty_of e.exec_qty)
        else fee_of e.exec_fee)
unfolding run_fee
run_fee_share pro_rata e cs = ground arith

-- The slices of a stop's execution carry together the quantity of the run's claims, if there is any, and
-- the run's part of the fee: its pro-rated share where the claims are less than the execution, and else
-- all of it. This holds whatever a share is rounded to, since the last slice takes the rest.
pub venue_bracket_claim_slices-AddUp :
    (pro_rata : ℤ → ℕ → ℕ → ℤ) (e : Execution) (cs : List Claim)
    → 0 < total_of cs
    → (qtys (venue_bracket_claim_slices pro_rata e cs) ≡ total_of cs)
      × (fees (venue_bracket_claim_slices pro_rata e cs) ≡ (
          if ltb (total_of cs) (qty_of e.exec_qty)
          then pro_rata (fee_of e.exec_fee) (total_of cs) (qty_of e.exec_qty)
          else fee_of e.exec_fee))
venue_bracket_claim_slices-AddUp pro_rata e cs h =
    let parts = slices-AddUp pro_rata e cs h in (parts.0, parts.1 ∙ run_fee_share pro_rata e cs)
