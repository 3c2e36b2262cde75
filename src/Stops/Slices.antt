-- ===== src/Stops/Slices.antt =====
-- One execution of a stop, cut into a part for each claim (`_venue_bracket_claim_slices` of
-- pynecore_bybit/events.py). Quantities and fees are multiples of a quantum, and `_FILL_EPS` is less than
-- one; a fee may be a rebate.
use pynecore_plugin_bybit.Prelude.{
  ℕ, ◌+◌, Bool, Option, none, some, List, [], ◌∷◌, ◌++◌, ltb, ◌==◌, ◌&&◌, if◌then◌else◌, length,
  String,
}
use pynecore_plugin_bybit.Prelude.Int.{ℤ, pos, ◌+ℤ◌, ◌-ℤ◌}

-- The fields of an execution that are read here, and the others, which a slice copies. A quantity or a
-- fee that is no number is `none`; a missing one is 0.
pub record Execution : Type 0 where
  pub exec_id : List ℕ
  pub exec_qty : Option ℕ
  pub exec_fee : Option ℤ
  pub others : String

pub data LegType : Type 0 where
  take_profit stop_loss trailing_stop : LegType

pub record Claim : Type 0 where
  pub pine_id : List ℕ
  pub from_entry : Option (List ℕ)
  pub leg : LegType
  pub qty : ℕ

pub record Slice : Type 0 where
  pub entry : Execution
  pub pine_id : List ℕ
  pub from_entry : Option (List ℕ)
  pub leg : LegType

unfoldable pub qty_of : Option ℕ → ℕ
qty_of none = 0
qty_of (some n) = n

unfoldable pub fee_of : Option ℤ → ℤ
fee_of none = pos 0
fee_of (some n) = n

unfoldable pub total_of : List Claim → ℕ
total_of [] = 0
total_of (c ∷ cs) = c.qty + total_of cs

-- `from_entry or ''`
unfoldable pub or_empty : Option (List ℕ) → List ℕ
or_empty none = []
or_empty (some id) = id

-- `f"{exec_id}#{pine_id}#{from_entry or ''}"`
unfoldable pub suffixed : List ℕ → Claim → List ℕ
unfolding or_empty
suffixed id c = id ++ (35 ∷ (c.pine_id ++ (35 ∷ or_empty c.from_entry)))

unfoldable pub slice_id : Bool → List ℕ → Claim → List ℕ
unfolding suffixed
slice_id single id c = if single then id else suffixed id c

unfoldable pub slice : Bool → Execution → ℤ → Claim → Slice
unfolding slice_id
slice single e fee c = record {
  entry = record e {
    exec_id = slice_id single e.exec_id c;
    exec_qty = some c.qty;
    exec_fee = some fee;
  };
  pine_id = c.pine_id;
  from_entry = c.from_entry;
  leg = c.leg;
}

unfoldable pub is_single : List Claim → Bool
is_single cs = length cs == 1

-- the row of a single claim on the whole execution, untouched
unfoldable pub passed : Execution → List Claim → List Slice
passed e [] = []
passed e (c ∷ cs) =
    record { entry = e; pine_id = c.pine_id; from_entry = c.from_entry; leg = c.leg } ∷ []

-- `pro_rata fee part whole` is `fee * (part / whole)` in floats, rounded to a quantum.
module _ (pro_rata : ℤ → ℕ → ℕ → ℤ) where
  -- the loop: each slice but the last takes its share of the fee, the last one what is left
  unfoldable pub cut : Bool → Execution → ℕ → ℤ → ℤ → List Claim → List Slice
  unfolding slice
  cut single e total fee left [] = []
  cut single e total fee left (c ∷ []) = slice single e left c ∷ []
  cut single e total fee left (c ∷ d ∷ cs) =
      let share = if ltb 0 total then pro_rata fee c.qty total else pos 0 in
      slice single e share c ∷ cut single e total fee (left -ℤ share) (d ∷ cs)

  -- the run's part of the fee
  unfoldable pub run_fee : Execution → List Claim → ℤ
  unfolding fee_of qty_of total_of
  run_fee e cs =
      let total = total_of cs in
      let qty = qty_of e.exec_qty in
      if ltb 0 qty && ltb total qty
      then pro_rata (fee_of e.exec_fee) total qty
      else fee_of e.exec_fee

  unfoldable pub venue_bracket_claim_slices : Execution → List Claim → List Slice
  unfolding run_fee cut passed is_single qty_of total_of
  venue_bracket_claim_slices e cs =
      let total = total_of cs in
      let fee = run_fee e cs in
      if total == 0
      then []
      else if is_single cs && total == qty_of e.exec_qty
      then passed e cs
      else cut (is_single cs) e total fee fee cs

-- what the slices hand on, summed
unfoldable pub qtys : List Slice → ℕ
unfolding qty_of
qtys [] = 0
qtys (s ∷ ss) = qty_of s.entry.exec_qty + qtys ss

unfoldable pub fees : List Slice → ℤ
unfolding fee_of ◌+ℤ◌
fees [] = pos 0
fees (s ∷ ss) = fee_of s.entry.exec_fee +ℤ fees ss

unfoldable pub ids : List Slice → List (List ℕ)
ids [] = []
ids (s ∷ ss) = s.entry.exec_id ∷ ids ss
