-- ===== src/Inventory/Floor.antt =====
-- The least sellable quantity of pynecore_bybit/inventory.py. Base quantities are counted in one
-- unit, prices in another, quote amounts in the unit of their product.
use pynecore_plugin_bybit.Prelude.{
  ℕ, zero, suc, ◌*◌, Bool, Option, none, some, ltb, ◌==◌, if◌then◌else◌, String,
}

-- What the port reads of `InstrumentInfo`.
pub record Market : Type 0 where
  pub symbol : String
  pub base_coin : String
  pub quote_coin : String
  pub qty_step : ℕ
  pub min_order_qty : ℕ
  pub min_order_amt : ℕ

-- a `Decimal` that a division made, as the fraction
pub record Ratio : Type 0 where
  pub num : ℕ
  pub den : ℕ

-- `a > b`
unfoldable pub over : Ratio → Ratio → Bool
over a b = ltb (b.num * a.den) (a.num * b.den)

abbrev pub whole : ℕ → Ratio
whole n = record { num = n; den = 1 }

unfoldable pub qty_floor : Market → Ratio
qty_floor m = whole (if ltb m.qty_step m.min_order_qty then m.min_order_qty else m.qty_step)

-- `price is None or price <= 0`: no price
unfoldable pub notional_floor : Market → Option ℕ → Option Ratio
notional_floor m none = none
notional_floor m (some zero) = none
notional_floor m (some (suc p)) = some (record { num = m.min_order_amt; den = suc p })

unfoldable pub raise_floor : Ratio → Option Ratio → Ratio
raise_floor floor none = floor
raise_floor floor (some n) = if over n floor then n else floor

unfoldable pub position_dust_threshold : Market → Option ℕ → Ratio
position_dust_threshold m price = raise_floor (qty_floor m) (notional_floor m price)

abbrev pub positive_or_none : Ratio → Option Ratio
positive_or_none r = if r.num == 0 then none else some r

-- with the notional leg, `None` without a price
unfoldable pub raised_or_none : Ratio → Option Ratio → Option Ratio
raised_or_none floor none = none
raised_or_none floor (some n) = positive_or_none (raise_floor floor (some n))

unfoldable pub min_sellable_base : Market → Option ℕ → Option Ratio
min_sellable_base m price =
    if m.min_order_amt == 0
    then positive_or_none (qty_floor m)
    else raised_or_none (qty_floor m) (notional_floor m price)
