-- ===== src/Helpers/WireIds.antt =====
-- What `wire_link_id` promises of the ids it puts on the wire.
use pynecore_plugin_bybit.Prelude.{
  ℕ, zero, suc, ◌-◌, ◌≤◌, Bool, true, false, ◌≡◌, refl, ap, ◌≢◌, inl, inr, Bool-cases, List, [],
  ◌∷◌, ◌++◌, map, ◌==◌, leb, not, length, length-append, some_of, arith,
}
use pynecore_plugin_bybit.Helpers.LinkId.{
  order_link_id_max_len, is_link_char, wire_char, prefix, wire_link_id,
}

-- every character is one that Bybit takes
abbrev pub AllLink : List ℕ → Type 0
AllLink [] = Unit
AllLink (c ∷ s) = (is_link_char c ≡ true) × AllLink s

-- an `orderLinkId` that Bybit takes
pub record IsWireId (s : List ℕ) : Type 0 where
  pub link_chars : AllLink s
  pub short : length s ≤ order_link_id_max_len

wire_char-is_link_char : (c : ℕ) → is_link_char (wire_char c) ≡ true
unfolding wire_char is_link_char
wire_char-is_link_char c = ground arith

map-wire_char-AllLink : (s : List ℕ) → AllLink (map wire_char s)
map-wire_char-AllLink [] = tt
map-wire_char-AllLink (c ∷ s) = (wire_char-is_link_char c, map-wire_char-AllLink s)

prefix-AllLink : (n : ℕ) (s : List ℕ) → AllLink s → AllLink (prefix n s)
unfolding prefix
prefix-AllLink zero s h = tt
prefix-AllLink (suc n) [] h = tt
prefix-AllLink (suc n) (c ∷ s) h = (h.0, prefix-AllLink n s h.1)

append-AllLink : (s r : List ℕ) → AllLink s → AllLink r → AllLink (s ++ r)
append-AllLink [] r h k = k
append-AllLink (c ∷ s) r h k = (h.0, append-AllLink s r h.1 k)

length-prefix : (n : ℕ) (s : List ℕ) → length (prefix n s) ≤ n
unfolding prefix
length-prefix zero s = omega arith
length-prefix (suc n) [] = omega arith
length-prefix (suc n) (c ∷ s) = omega (arith, length-prefix n s)

-- Every id goes out in Bybit's character set and within its length, if the digest's characters are
-- in the set.
pub wire_link_id-IsWireId :
    (hexdigest : List ℕ → List ℕ) (coid : List ℕ)
    → AllLink (hexdigest coid)
    → IsWireId (wire_link_id hexdigest coid)
unfolding wire_link_id
wire_link_id-IsWireId hexdigest coid h =
    elim (Bool-cases (leb (length (map wire_char coid)) order_link_id_max_len)) [
      | inl fits ↦
          rw fits (record { link_chars = map-wire_char-AllLink coid; short = ground arith })
      | inr long ↦
          let head = prefix (order_link_id_max_len - 10) (map wire_char coid) in
          let tail = prefix 9 (hexdigest coid) in
          rw long (record {
            link_chars =
                append-AllLink head (b'_' ∷ tail) (prefix-AllLink _ _ (map-wire_char-AllLink coid))
                  (unfold is_link_char in refl, prefix-AllLink 9 _ h);
            short =
                (omega (
                  arith,
                  length-append head (b'_' ∷ tail),
                  length-prefix 26 (map wire_char coid),
                  length-prefix 9 (hexdigest coid),
                ));
          })
    ]

map-wire_char_same : (s : List ℕ) → AllLink s → map wire_char s ≡ s
map-wire_char_same [] h = refl
map-wire_char_same (c ∷ s) h =
    let same : wire_char c ≡ c = unfold wire_char in (rw (h.0) refl) in
    cc (same, map-wire_char_same s h.1)

-- A canonical dispatch id goes out unchanged.
pub wire_link_id_same :
    (hexdigest : List ℕ → List ℕ) (coid : List ℕ)
    → IsWireId coid
    → wire_link_id hexdigest coid ≡ coid
unfolding wire_link_id
wire_link_id_same hexdigest coid h =
    let fits : leb (length coid) order_link_id_max_len ≡ true = ground (arith, h.short) in
    rw (map-wire_char_same coid h.link_chars, fits) refl

abbrev pub has_underscore : List ℕ → Bool
has_underscore s = some_of (λ c. c == b'_') s

some_of-append : (s r : List ℕ) → has_underscore r ≡ true → has_underscore (s ++ r) ≡ true
unfolding some_of
some_of-append [] r h = h
some_of-append (c ∷ s) r h = ground (arith, some_of-append s r h)

abbrev pub has_foreign_char : List ℕ → Bool
has_foreign_char s = some_of (λ c. not (is_link_char c)) s

map-wire_char-has_underscore :
    (s : List ℕ) → has_foreign_char s ≡ true → has_underscore (map wire_char s) ≡ true
unfolding some_of wire_char
map-wire_char-has_underscore [] h = cc
map-wire_char-has_underscore (c ∷ s) h = elim (Bool-cases (is_link_char c)) [
  | inl link ↦
      let rest : has_foreign_char s ≡ true = ground arith in
      ground (arith, map-wire_char-has_underscore s rest)
  | inr foreign ↦ rw foreign refl
]

mapped-has_underscore :
    (hexdigest : List ℕ → List ℕ) (coid : List ℕ)
    → has_foreign_char coid ≡ true
    → has_underscore (wire_link_id hexdigest coid) ≡ true
unfolding wire_link_id
mapped-has_underscore hexdigest coid h =
    elim (Bool-cases (leb (length (map wire_char coid)) order_link_id_max_len)) [
      | inl fits ↦ rw fits (map-wire_char-has_underscore coid h)
      | inr long ↦ rw long (
          some_of-append (prefix (order_link_id_max_len - 10) (map wire_char coid)) _
            (unfold some_of in refl))
    ]

-- An id that had to be mapped never collides on the wire with one that is dispatched as it is and
-- holds no underscore, whatever the digest is.
pub mapped_no_collision :
    (hexdigest : List ℕ → List ℕ) (direct mapped : List ℕ)
    → IsWireId direct
    → has_underscore direct ≡ false
    → has_foreign_char mapped ≡ true
    → wire_link_id hexdigest direct ≢ wire_link_id hexdigest mapped
mapped_no_collision hexdigest direct mapped w plain foreign e =
    let a : has_underscore (wire_link_id hexdigest direct) ≡ false =
      rw (wire_link_id_same hexdigest direct w) plain in
    let b = mapped-has_underscore hexdigest mapped foreign in cc (a, b, ap has_underscore e)

pub has_foreign_char-AllLink : (s : List ℕ) → has_foreign_char s ≡ false → AllLink s
unfolding some_of
has_foreign_char-AllLink [] h = tt
has_foreign_char-AllLink (c ∷ s) h =
    let first : is_link_char c ≡ true = ground arith in
    let rest : has_foreign_char s ≡ false = ground arith in (first, has_foreign_char-AllLink s rest)
