-- ===== src/Helpers/Grid.antt =====
-- Decimal grids of pynecore_bybit/helpers.py. A `Decimal` that is not negative is a count of units
-- of a power of ten that all the arguments of a call share; a product and its step are counts of
-- the unit of the product. Quotients are exact.
use pynecore_plugin_bybit.Prelude.{ℕ, ◌+◌, ◌*◌, ◌/◌, ◌==◌, if◌then◌else◌}

-- `(n / d).to_integral_value(ROUND_HALF_UP)`
unfoldable pub round_half_up : ℕ → ℕ → ℕ
round_half_up n d = (2 * n + d) / (2 * d)

-- nine decimals, as `Decimal('1e-9')` counts them
abbrev pub nano : ℕ
nano = 1000000000

-- `_floor_to_step`
unfoldable pub floor_to_step : ℕ → ℕ → ℕ
unfolding round_half_up
floor_to_step value step =
    if step == 0
    then value
    else let ratio = round_half_up (value * nano) step in ratio / nano * step

unfoldable pub quantize_qty : ℕ → ℕ → ℕ
quantize_qty qty step = floor_to_step qty step

unfoldable pub base_to_contracts : ℕ → ℕ → ℕ → ℕ
base_to_contracts qty price step = floor_to_step (qty * price) step

unfoldable pub base_to_contracts_reduce : ℕ → ℕ → ℕ → ℕ
base_to_contracts_reduce qty price step =
    if step == 0 then qty * price else round_half_up (qty * price) step * step

unfoldable pub round_price : ℕ → ℕ → ℕ
round_price price tick = if tick == 0 then price else round_half_up price tick * tick
