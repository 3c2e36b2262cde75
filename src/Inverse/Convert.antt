-- ===== src/Inverse/Convert.antt =====
-- From base quantities to inverse contracts (pynecore_bybit/execution.py). An anchor is a quotient of
-- contracts by base; a number of contracts at an anchor is a count of parts, as many to a contract as
-- the anchor's base. An order that is skipped or rejected is `none`.
use pynecore_plugin_bybit.Prelude.{
  ℕ, ◌+◌, ◌-◌, ◌*◌, Bool, not, ◌&&◌, ◌==◌, Option, none, some, List, ◌∷◌, leb, ltb, table_get,
  if◌then◌else◌, String, str_eq,
}
use pynecore_plugin_bybit.Prelude.Int.{pos_part}
use pynecore_plugin_bybit.Helpers.Grid.{
  nano, quantize_qty, base_to_contracts, base_to_contracts_reduce,
}
use pynecore_plugin_bybit.Inverse.Mirror.{Mirror, size_of, is_zero}

-- a factor of contracts to base
pub record Anchor : Type 0 where
  pub contracts : ℕ
  pub base : ℕ

-- so many parts of a contract, of which `parts` make one
pub record Amount : Type 0 where
  pub units : ℕ
  pub parts : ℕ

-- `_wire_anchor`
abbrev pub Anchors : Type 0
Anchors = List (String × Anchor)

unfoldable pub at_price : ℕ → Anchor
at_price price = record { contracts = price; base = 1 }

unfoldable pub fallback_anchor : Option ℕ → Option Anchor
fallback_anchor none = none
fallback_anchor (some price) = if price == 0 then none else some (at_price price)

-- an anchor of the row's extras is remembered
unfoldable pub anchor_of_row : String → Option ℕ → Option Anchor → Anchors → Option Anchor × Anchors
anchor_of_row coid fallback none anchors = (fallback_anchor fallback, anchors)
anchor_of_row coid fallback (some a) anchors = (some a, (coid, a) ∷ anchors)

unfoldable pub known_anchor :
    (String → Option Anchor) → String → Option ℕ → Option Anchor → Anchors → Option Anchor × Anchors
known_anchor stored coid fallback (some a) anchors = (some a, anchors)
known_anchor stored coid fallback none anchors =
    if str_eq coid ""
    then (fallback_anchor fallback, anchors)
    else anchor_of_row coid fallback (stored coid) anchors

-- `_inverse_anchor_for`; `stored` is the anchor of a row in the store, if there are both
unfoldable pub inverse_anchor_for :
    (String → Option Anchor) → String → Option ℕ → Anchors → Option Anchor × Anchors
inverse_anchor_for stored coid fallback anchors =
    known_anchor stored coid fallback (table_get coid anchors) anchors

-- `_inverse_ref_price`; `ticker` is the last price that the ticker reports, `none` where it cannot be
-- read
unfoldable pub ticker_price : Option ℕ → Option ℕ
ticker_price none = none
ticker_price (some last) = if last == 0 then none else some last

unfoldable pub last_or_ticker : Option ℕ → Option ℕ → Option ℕ
last_or_ticker none ticker = ticker_price ticker
last_or_ticker (some last) ticker = if last == 0 then ticker_price ticker else some last

unfoldable pub inverse_ref_price : Option ℕ → Option ℕ → Option ℕ → Option ℕ
inverse_ref_price none last ticker = last_or_ticker last ticker
inverse_ref_price (some price) last ticker =
    if price == 0 then last_or_ticker last ticker else some price

-- `base_to_contracts(qty, anchor, step)`
unfoldable pub floored_at : Anchor → ℕ → ℕ → Amount
floored_at a qty step = record {
  units = base_to_contracts qty a.contracts (step * a.base);
  parts = a.base;
}

-- `base_to_contracts_reduce(qty, anchor, step)`
unfoldable pub nearest_at : Anchor → ℕ → ℕ → Amount
nearest_at a qty step = record {
  units = base_to_contracts_reduce qty a.contracts (step * a.base);
  parts = a.base;
}

-- `min(amount, quantize_qty(net_c, step))`
unfoldable pub cap_amount : ℕ → ℕ → Amount → Amount
cap_amount net_c step a =
    let cap = quantize_qty net_c step * a.parts in
    if leb a.units cap then a else record { units = cap; parts = a.parts }

unfoldable pub positive_amount : Amount → Anchor → Option (Amount × Anchor)
positive_amount a anchor = if a.units == 0 then none else some (a, anchor)

-- `_inverse_entry_contracts`
unfoldable pub inverse_entry_contracts : ℕ → Anchor → ℕ → Option (Amount × Anchor)
inverse_entry_contracts qty anchor step = positive_amount (floored_at anchor qty step) anchor

-- the effective anchor of the mirror
unfoldable pub mirror_anchor : Mirror → Anchor
mirror_anchor m = record { contracts = size_of m.net_contracts; base = size_of m.net_base }

-- `qty >= net_b * (1.0 - 1e-9)`
unfoldable pub covers : ℕ → ℕ → Bool
covers qty net_b = leb (net_b * (nano - 1)) (qty * nano)

-- a slice of a position that the mirror knows
unfoldable pub reduce_slice : ℕ → ℕ → Option Anchor → Mirror → Option (Amount × Anchor)
reduce_slice qty step none m =
    positive_amount
      (cap_amount (size_of m.net_contracts) step (nearest_at (mirror_anchor m) qty step))
      (mirror_anchor m)
reduce_slice qty step (some entry) m =
    positive_amount (cap_amount (size_of m.net_contracts) step (floored_at entry qty step)) entry

unfoldable pub reduce_held : ℕ → ℕ → Option Anchor → Mirror → Option (Amount × Anchor)
reduce_held qty step entry m =
    let slice = reduce_slice qty step entry m in
    if covers qty (size_of m.net_base)
    then positive_amount (record { units = quantize_qty (size_of m.net_contracts) step; parts = 1 })
        (mirror_anchor m)
    else slice

unfoldable pub at_ref_price : ℕ → ℕ → Option ℕ → Option (Amount × Anchor)
at_ref_price qty step none = none
at_ref_price qty step (some price) =
    positive_amount (nearest_at (at_price price) qty step) (at_price price)

-- without a known position
unfoldable pub reduce_unknown : ℕ → ℕ → Option Anchor → Option ℕ → Option (Amount × Anchor)
reduce_unknown qty step (some entry) ref = positive_amount (floored_at entry qty step) entry
reduce_unknown qty step none ref = at_ref_price qty step ref

unfoldable pub is_held : Mirror → Bool
is_held m = not (is_zero m.net_contracts) && not (is_zero m.net_base)

-- `_inverse_reduce_contracts`: `entry` is the anchor of the parent entry, `ref` what
-- `_inverse_ref_price` gives
unfoldable pub inverse_reduce_contracts :
    ℕ → ℕ → Option Anchor → Option ℕ → Mirror → Option (Amount × Anchor)
inverse_reduce_contracts qty step entry ref m =
    if is_held m then reduce_held qty step entry m else reduce_unknown qty step entry ref

-- `_inverse_amend_contracts`
unfoldable pub inverse_amend_contracts : ℕ → ℕ → Anchor → Mirror → Option (Amount × Anchor)
inverse_amend_contracts qty step anchor m =
    let near = nearest_at anchor qty step in
    positive_amount
      (if is_zero m.net_contracts then near else cap_amount (size_of m.net_contracts) step near)
      anchor

-- does a reducing fill close the whole of the mirrored position?
unfoldable pub closes_all : String → Bool → ℕ → Mirror → Bool
closes_all side reducing contracts m =
    let net_c = size_of m.net_contracts in
    let sells = str_eq side "sell" in
    let long = ltb 0 (pos_part m.net_contracts) in
    reducing
    && is_held m
    && (if long then sells else not sells)
    && leb (net_c * (nano - 1)) (contracts * nano)
    && leb (contracts * nano) (net_c * (nano + 1))

unfoldable pub first_of : Option Anchor → Option Anchor → Anchor → Anchor
first_of (some a) parent last = a
first_of none (some a) last = a
first_of none none last = last

-- `_inverse_fill_anchor`: `own` is the anchor of the dispatch, `parent` that of the parent entry
unfoldable pub inverse_fill_anchor :
    String → Bool → ℕ → Option Anchor → Option Anchor → ℕ → Mirror → Anchor
inverse_fill_anchor side reducing contracts own parent exec_price m =
    if closes_all side reducing contracts m
    then record { contracts = contracts; base = size_of m.net_base }
    else first_of own parent (at_price exec_price)
