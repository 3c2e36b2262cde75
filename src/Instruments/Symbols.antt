-- ===== src/Instruments/Symbols.antt =====
-- The notation of symbols in pynecore_bybit/provider.py. A name is its code points.
use pynecore_plugin_bybit.Prelude.Texts.{begins, codes, ends}
use pynecore_plugin_bybit.Prelude.{
  ℕ, ◌-◌, Bool, List, [], ◌∷◌, ◌++◌, map, drop, length, leb, ◌==◌, ◌&&◌, ◌||◌, if◌then◌else◌,
}
use pynecore_plugin_bybit.Instruments.Info.{Category, spot, linear, inverse}

-- `text.upper()` of ASCII text
unfoldable pub upper_code : ℕ → ℕ
upper_code c = if leb b'a' c && leb c b'z' then c - 32 else c

unfoldable pub upper : List ℕ → List ℕ
upper name = map upper_code name

unfoldable pub is_blank : ℕ → Bool
is_blank c = c == 32 || leb 9 c && leb c 13

unfoldable pub strip_left : List ℕ → List ℕ
strip_left [] = []
strip_left (c ∷ s) = let rest = strip_left s in if is_blank c then rest else c ∷ s

-- a blank stays only before something that stays
unfoldable pub keep_before : ℕ → List ℕ → List ℕ
keep_before c [] = if is_blank c then [] else c ∷ []
keep_before c (d ∷ s) = c ∷ d ∷ s

unfoldable pub strip_right : List ℕ → List ℕ
unfolding keep_before
strip_right [] = []
strip_right (c ∷ s) = keep_before c (strip_right s)

unfoldable pub strip : List ℕ → List ℕ
strip name = strip_right (strip_left name)

abbrev pub prefix_text : List ℕ
prefix_text = codes "BYBIT:"

abbrev pub perpetual_suffix : List ℕ
perpetual_suffix = codes ".P"

-- `name[:-2]`
unfoldable pub but_two : List ℕ → List ℕ
but_two [] = []
but_two (a ∷ []) = []
but_two (a ∷ b ∷ []) = []
but_two (a ∷ b ∷ c ∷ s) = a ∷ but_two (b ∷ c ∷ s)

-- the name in Bybit's notation with the exchange's prefix off
unfoldable pub bare_name : List ℕ → List ℕ
bare_name mapped =
    let name = strip mapped in
    upper (if begins prefix_text (upper name) then drop (length prefix_text) name else name)

-- the name to look for, and the categories to probe, in order
unfoldable pub probes_of : List ℕ → List ℕ × List Category
probes_of mapped =
    let name = bare_name mapped in
    if ends perpetual_suffix name
    then (but_two name, linear ∷ inverse ∷ [])
    else (name, spot ∷ linear ∷ inverse ∷ [])

-- one instrument in the notation of `get_list_of_symbols`
unfoldable pub listed_name : Bool → List ℕ → List ℕ
listed_name perpetual symbol = if perpetual then symbol ++ perpetual_suffix else symbol
