-- ===== src/Inverse/Flat.antt =====
-- The mirror of a flat position, and what it tells the core of a position that is not.
use pynecore_plugin_bybit.Prelude.{
  ℕ, zero, suc, ◌≤◌, Bool, true, false, not, ◌&&◌, ◌||◌, ◌==◌, ◌≡◌, refl, [], ◌∷◌, ltb,
  if◌then◌else◌, if_rule, String, arith,
}
use pynecore_plugin_bybit.Prelude.Int.{ℤ, pos, negsuc, neg, ◌+ℤ◌, pos_part}
use pynecore_plugin_bybit.Inverse.Mirror.{
  Mirror, flat, size_of, is_zero, same, same_sign, signed, PositionRow, is_side, seed_row,
  seed_rows, inverse_seed_net, inverse_core_size, snapped, apply_inverse_fill, net_inverse_mirror,
}

-- no contracts, no base
abbrev pub IsSnapped : Mirror → Type 0
IsSnapped m = is_zero m.net_contracts ≡ true → m.net_base ≡ pos 0

snapped-IsSnapped : (contracts base : ℤ) → IsSnapped (snapped contracts base)
unfolding snapped
snapped-IsSnapped contracts base empty = rw empty refl

-- One change of the mirror. A one-way account, which an inverse market requires, has one position row
-- at most.
pub data Change (quotient : ℕ → ℕ → ℕ) (rescaled : ℤ → ℤ → ℤ → ℤ) : Mirror → Mirror → Type 0 where
  seeded_flat : (m : Mirror) → Change quotient rescaled m (inverse_seed_net quotient [])
  seeded :
      (row : PositionRow) (m : Mirror)
      → Change quotient rescaled m (inverse_seed_net quotient (row ∷ []))
  filled :
      (side : String) (contracts base : ℕ) (m : Mirror)
      → Change quotient rescaled m (apply_inverse_fill side contracts base m)
  netted :
      (inverse : Bool) (side : String) (contracts : ℕ) (m : Mirror)
      → Change quotient rescaled m (net_inverse_mirror rescaled inverse side contracts m)

pub data Reach (quotient : ℕ → ℕ → ℕ) (rescaled : ℤ → ℤ → ℤ → ℤ) : Mirror → Type 0 where
  start : Reach quotient rescaled flat
  next :
      {m m' : Mirror}
      → Reach quotient rescaled m
      → Change quotient rescaled m m'
      → Reach quotient rescaled m'

signed_size : (side : String) (n : ℕ) → size_of (pos 0 +ℤ signed side n) ≡ n
unfolding signed ◌+ℤ◌ neg
signed_size side n = ground arith

seed_row-IsSnapped :
    (quotient : ℕ → ℕ → ℕ) (row : PositionRow) → IsSnapped (seed_row quotient row flat)
unfolding seed_row
seed_row-IsSnapped quotient row =
    if_rule IsSnapped (row.size == 0) _ _ (λ none_held zero. refl)
      (λ held.
        if_rule IsSnapped (not (is_side row.side) || row.avg_price == 0) _ _ (λ skipped zero. refl)
          (λ taken_in zero. absurd (ground (arith, held, zero, signed_size row.side row.size))))

module _ {quotient : ℕ → ℕ → ℕ} {rescaled : ℤ → ℤ → ℤ → ℤ} where
  Change-IsSnapped : {m m' : Mirror} → Change quotient rescaled m m' → IsSnapped m → IsSnapped m'
  Change-IsSnapped (seeded_flat m) h = unfold inverse_seed_net seed_rows in λ zero. refl
  Change-IsSnapped (seeded row m) h =
      unfold inverse_seed_net seed_rows in seed_row-IsSnapped quotient row
  Change-IsSnapped (filled side contracts base m) h =
      unfold apply_inverse_fill in snapped-IsSnapped _ _
  Change-IsSnapped (netted inverse side contracts m) h =
      unfold net_inverse_mirror in
      if_rule IsSnapped (not inverse || contracts == 0) _ _ (λ other. h)
        (λ own.
          if_rule IsSnapped (is_zero m.net_contracts) _ _ (λ empty. h)
            (λ held. snapped-IsSnapped _ _))

  -- Whatever fills, nettings and seeds the mirror has been through: without contracts it holds no base
  -- either, so no residue of a closed position is left to be reported.
  pub Reach-IsSnapped : {m : Mirror} → Reach quotient rescaled m → IsSnapped m
  Reach-IsSnapped start = λ zero. refl
  Reach-IsSnapped (next r c) = Change-IsSnapped c (Reach-IsSnapped r)

closing_cancels :
    (c : ℤ) → c +ℤ signed (if ltb 0 (pos_part c) then "sell" else "buy") (size_of c) ≡ pos 0
unfolding signed ◌+ℤ◌ neg
closing_cancels (pos zero) = refl
closing_cancels (pos (suc n)) =
    let long : ltb 0 (suc n) ≡ true = ground arith in rw long (ground arith)
closing_cancels (negsuc n) = ground arith

-- the side that closes the mirrored position
abbrev pub closing_side : Mirror → String
closing_side m = if ltb 0 (pos_part m.net_contracts) then "sell" else "buy"

-- A fill that closes all of the mirrored contracts leaves the mirror flat, whatever base it books.
pub full_close_flat :
    (base : ℕ) (m : Mirror)
    → apply_inverse_fill (closing_side m) (size_of m.net_contracts) base m ≡ flat
unfolding apply_inverse_fill
full_close_flat base m = rw (closing_cancels m.net_contracts) (unfold snapped in refl)

signed_whole : (side : String) (n : ℕ) → size_of (signed side n) ≡ n
unfolding signed neg
signed_whole side n = ground arith

as_large :
    (a b : ℤ)
    → same_sign a b ≡ true
    → size_of b ≤ size_of a
    → same a b ≡ false
    → (same_sign a b && ltb (size_of b) (size_of a)) ≡ false
    → ⊥
as_large a b h le k l = ground arith

-- The position reported to the core is at least the base that the run's fills booked as long as the
-- venue holds the mirrored contracts or more on the same side, and exactly that base where it holds
-- the mirrored contracts: the core sees no reduction that did not happen.
pub inverse_core_size-keeps :
    (quotient : ℕ → ℕ → ℕ) (side : String) (contracts avg_price : ℕ) (m : Mirror)
    → same_sign (signed side contracts) m.net_contracts ≡ true
    → size_of m.net_contracts ≤ contracts
    → (size_of m.net_base ≤ inverse_core_size quotient side contracts avg_price m)
      × (size_of m.net_contracts ≡ contracts
          → inverse_core_size quotient side contracts avg_price m ≡ size_of m.net_base)
unfolding inverse_core_size
inverse_core_size-keeps quotient side contracts avg_price m one_side enough =
    let held = signed side contracts in
    let whole : size_of held ≡ contracts = signed_whole side contracts in
    if_rule
      (λ (n : ℕ).
        (size_of m.net_base ≤ n) × (size_of m.net_contracts ≡ contracts → n ≡ size_of m.net_base))
      (same held m.net_contracts) _ _ (λ exact. (omega arith, λ e. refl))
      (λ differs.
        if_rule
          (λ (n : ℕ).
            (size_of m.net_base ≤ n)
            × (size_of m.net_contracts ≡ contracts → n ≡ size_of m.net_base))
          (same_sign held m.net_contracts && ltb (size_of m.net_contracts) (size_of held)) _ _
          (λ more. (omega arith, λ e. absurd (ground (arith, more, whole, e))))
          (λ other.
            absurd (
              as_large held m.net_contracts one_side (omega (arith, whole, enough)) differs other)))
