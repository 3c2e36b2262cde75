-- ===== src/Helpers/LinkId.antt =====
-- `wire_link_id` of pynecore_bybit/helpers.py. An id is its code points; `hexdigest` is
-- `sha256(...).hexdigest()` of an id.
use pynecore_plugin_bybit.Prelude.{
  ℕ, Bool, List, [], ◌∷◌, ◌++◌, map, ◌==◌, leb, ◌&&◌, ◌||◌, if◌then◌else◌, length, ◌-◌, zero, suc,
}

-- `ORDER_LINK_ID_MAX_LEN`
abbrev pub order_link_id_max_len : ℕ
order_link_id_max_len = 36

-- letters, digits, dash and underscore: not matched by `_LINK_ID_INVALID`
unfoldable pub is_link_char : ℕ → Bool
is_link_char c =
    (leb b'A' c && leb c b'Z')
    || (leb b'a' c && leb c b'z')
    || (leb b'0' c && leb c b'9')
    || c == b'_'
    || c == b'-'

-- `_LINK_ID_INVALID.sub('_', coid)`
unfoldable pub wire_char : ℕ → ℕ
wire_char c = if is_link_char c then c else b'_'

-- `text[:n]`
unfoldable pub prefix : ℕ → List ℕ → List ℕ
prefix zero text = []
prefix (suc n) [] = []
prefix (suc n) (c ∷ text) = c ∷ prefix n text

unfoldable pub wire_link_id : (List ℕ → List ℕ) → List ℕ → List ℕ
wire_link_id hexdigest coid =
    let wire = map wire_char coid in
    if leb (length wire) order_link_id_max_len
    then wire
    else prefix (order_link_id_max_len - 10) wire ++ b'_' ∷ prefix 9 (hexdigest coid)
