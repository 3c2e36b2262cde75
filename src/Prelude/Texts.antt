-- ===== src/Prelude/Texts.antt =====
-- Texts as lists of their code points, with the string methods that the source calls.
use Prim.Native.Char.{code}
use Prim.Native.Nat.{ℕ, ◌+◌}
use Prim.Native.String.{String}
use mathlib.Core.Bool.{Bool, true, false, ◌&&◌, ◌||◌}
use mathlib.Core.List.{List, [], ◌∷◌, map}
use pynecore_plugin_bybit.Prelude.Tests.{leb, ◌==◌, if◌then◌else◌}

-- the code points of a text
abbrev pub codes : String → List ℕ
codes String.[] = []
codes (String.◌∷◌ c s) = code c ∷ codes s

-- `text.startswith(part)`
unfoldable pub begins : List ℕ → List ℕ → Bool
begins [] text = true
begins (c ∷ part) [] = false
begins (c ∷ part) (d ∷ text) = c == d && begins part text

-- `part in text`
unfoldable pub occurs : List ℕ → List ℕ → Bool
unfolding begins
occurs part [] = begins part []
occurs part (d ∷ text) = begins part (d ∷ text) || occurs part text

-- `text.lower()`, of which the source compares ASCII text only
unfoldable pub lower_code : ℕ → ℕ
lower_code c = if leb b'A' c && leb c b'Z' then c + 32 else c

unfoldable pub lower : List ℕ → List ℕ
lower text = map lower_code text

-- `a == b` of texts
unfoldable pub same_text : List ℕ → List ℕ → Bool
same_text [] [] = true
same_text [] (d ∷ b) = false
same_text (c ∷ a) [] = false
same_text (c ∷ a) (d ∷ b) = let rest = same_text a b in if c == d then rest else false

-- `text.endswith(part)`
unfoldable pub ends : List ℕ → List ℕ → Bool
unfolding same_text
ends part [] = same_text part []
ends part (c ∷ text) = same_text part (c ∷ text) || ends part text
