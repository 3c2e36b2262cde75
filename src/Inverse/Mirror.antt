-- ===== src/Inverse/Mirror.antt =====
-- The net-position mirror of an inverse contract (pynecore_bybit/positions.py): what the run holds in
-- contracts, and in the base that the core was told. Contracts are counts of one quantum, base amounts
-- of another. `quotient` is Python's division of contracts by a price, `rescaled` the product
-- `base * (shifted / held)`, both as counts of base.
use pynecore_plugin_bybit.Prelude.{
  ℕ, ◌+◌, ◌-◌, Bool, not, ◌&&◌, ◌||◌, ◌==◌, List, [], ◌∷◌, ltb, if◌then◌else◌, String, str_eq,
}
use pynecore_plugin_bybit.Prelude.Int.{ℤ, pos, neg, ◌+ℤ◌, pos_part, neg_part}

pub record Mirror : Type 0 where
  pub net_contracts : ℤ
  pub net_base : ℤ

abbrev pub flat : Mirror
flat = record { net_contracts = pos 0; net_base = pos 0 }

-- `abs(a)`, as a number
abbrev pub size_of : ℤ → ℕ
size_of a = pos_part a + neg_part a

abbrev pub is_zero : ℤ → Bool
is_zero a = size_of a == 0

-- `a == b`
abbrev pub same : ℤ → ℤ → Bool
same a b = pos_part a + neg_part b == pos_part b + neg_part a

-- `a * b > 0`
abbrev pub same_sign : ℤ → ℤ → Bool
same_sign a b = ltb 0 (pos_part a) && ltb 0 (pos_part b) || ltb 0 (neg_part a) && ltb 0 (neg_part b)

-- `sign * n`, of a side that is `'buy'` or not
unfoldable pub signed : String → ℕ → ℤ
signed side n = if str_eq side "buy" then pos n else neg (pos n)

-- a row of the venue's positions, its numbers parsed
pub record PositionRow : Type 0 where
  pub side : String
  pub size : ℕ
  pub avg_price : ℕ

unfoldable pub is_side : String → Bool
is_side side = str_eq side "buy" || str_eq side "sell"

module _ (quotient : ℕ → ℕ → ℕ) where
  -- `contracts_to_base`
  unfoldable pub contracts_to_base : ℕ → ℕ → ℕ
  contracts_to_base contracts price = quotient contracts price

  unfoldable pub seed_row : PositionRow → Mirror → Mirror
  seed_row row m =
      if row.size == 0
      then m
      else if not (is_side row.side) || row.avg_price == 0
      then m
      else record {
        net_contracts = m.net_contracts +ℤ signed row.side row.size;
        net_base = m.net_base +ℤ signed row.side (contracts_to_base row.size row.avg_price);
      }

  unfoldable pub seed_rows : List PositionRow → Mirror → Mirror
  seed_rows [] m = m
  seed_rows (r ∷ rs) m = seed_rows rs (seed_row r m)

  -- `_inverse_seed_net`
  unfoldable pub inverse_seed_net : List PositionRow → Mirror
  inverse_seed_net rows = seed_rows rows flat

  -- `_inverse_core_size`
  unfoldable pub inverse_core_size : String → ℕ → ℕ → Mirror → ℕ
  inverse_core_size side contracts avg_price m =
      let held = signed side contracts in
      if same held m.net_contracts
      then size_of m.net_base
      else if same_sign held m.net_contracts && ltb (size_of m.net_contracts) (size_of held)
      then size_of m.net_base + contracts_to_base (size_of held - size_of m.net_contracts) avg_price
      else contracts_to_base contracts avg_price

-- the base of a mirror without contracts is nothing
unfoldable pub snapped : ℤ → ℤ → Mirror
snapped contracts base = record {
  net_contracts = contracts;
  net_base = if is_zero contracts then pos 0 else base;
}

-- `_apply_inverse_fill`
unfoldable pub apply_inverse_fill : String → ℕ → ℕ → Mirror → Mirror
apply_inverse_fill side contracts base m =
    snapped (m.net_contracts +ℤ signed side contracts) (m.net_base +ℤ signed side base)

-- `contracts if side == 'sell' else -contracts`
unfoldable pub taken : String → ℕ → ℤ
taken side n = if str_eq side "sell" then pos n else neg (pos n)

-- `_net_inverse_mirror`; `inverse` says whether the market is known and an inverse one
unfoldable pub net_inverse_mirror : (ℤ → ℤ → ℤ → ℤ) → Bool → String → ℕ → Mirror → Mirror
net_inverse_mirror rescaled inverse side contracts m =
    let shifted = m.net_contracts +ℤ taken side contracts in
    if not inverse || contracts == 0
    then m
    else if is_zero m.net_contracts
    then m
    else snapped shifted (rescaled m.net_base shifted m.net_contracts)
