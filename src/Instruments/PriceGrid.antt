-- ===== src/Instruments/PriceGrid.antt =====
-- `InstrumentInfo.price_grid` of pynecore_bybit/models.py, on the code points of the tick's text.
pub mod Exact
use pynecore_plugin_bybit.Prelude.Texts.{codes}
use pynecore_plugin_bybit.Prelude.Divisor.{gcd}
use pynecore_plugin_bybit.Prelude.{
  ℕ, ◌+◌, ◌-◌, ◌*◌, ◌/◌, ◌^◌, Bool, true, false, ◌&&◌, ◌==◌, Option, none, some, List, [], ◌∷◌,
  length, leb, if◌then◌else◌,
}
use pynecore_plugin_bybit.Instruments.Info.{InstrumentInfo}
use pynecore_plugin_bybit.Instruments.Symbols.{strip}

unfoldable pub is_digit : ℕ → Bool
is_digit c = leb b'0' c && leb c b'9'

unfoldable pub all_digits : List ℕ → Bool
all_digits [] = true
all_digits (c ∷ s) = is_digit c && all_digits s

-- `text.isdigit()`
unfoldable pub isdigit : List ℕ → Bool
isdigit [] = false
isdigit (c ∷ s) = all_digits (c ∷ s)

-- `text.partition('.')`, without the separator
unfoldable pub partition : List ℕ → List ℕ × List ℕ
partition [] = ([], [])
partition (c ∷ s) =
    let (before, after) = partition s in if c == b'.' then ([], s) else (c ∷ before, after)

-- `text.replace('.', '', 1)`
unfoldable pub drop_dot : List ℕ → List ℕ
drop_dot [] = []
drop_dot (c ∷ s) = let rest = drop_dot s in if c == b'.' then s else c ∷ rest

unfoldable pub read_from : ℕ → List ℕ → ℕ
read_from n [] = n
read_from n (c ∷ s) = read_from (n * 10 + (c - b'0')) s

-- `int(text or '0')`
unfoldable pub read_int : List ℕ → ℕ
read_int s = read_from 0 s

unfoldable pub grid_of : ℕ → ℕ → Option (ℕ × ℕ)
grid_of minmove pricescale =
    if minmove == 0
    then none
    else let divisor = gcd minmove pricescale in some (minmove / divisor, pricescale / divisor)

-- the pair of a stripped text; `none` is the `BybitSymbolError`
unfoldable pub grid_of_text : List ℕ → Option (ℕ × ℕ)
grid_of_text text =
    let (int_part, frac_part) = partition text in
    let pricescale = 10 ^ length frac_part in
    if isdigit (drop_dot text)
    then grid_of (read_int int_part * pricescale + read_int frac_part) pricescale
    else none

-- `price_grid`
unfoldable pub price_grid : InstrumentInfo → Option (ℕ × ℕ)
price_grid i = grid_of_text (strip (codes i.tick_size_str))
