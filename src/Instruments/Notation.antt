-- ===== src/Instruments/Notation.antt =====
-- How the symbol resolution reads a listed name.
use pynecore_plugin_bybit.Prelude.Texts.{begins, ends, same_text}
use pynecore_plugin_bybit.Prelude.{
  ℕ, Bool, true, false, ◌≡◌, refl, ap, inl, inr, Bool-cases, List, [], ◌∷◌, ◌++◌, some_of, leb,
  ◌==◌, ◌&&◌, not, if◌then◌else◌, arith,
}
use pynecore_plugin_bybit.Instruments.Info.{Category, spot, linear, inverse}
use pynecore_plugin_bybit.Instruments.Symbols.{
  upper_code, upper, is_blank, strip_left, keep_before, strip_right, strip, prefix_text,
  perpetual_suffix, but_two, bare_name, probes_of, listed_name,
}

-- a character of Bybit's native names: no blank, no small letter, no colon
abbrev pub is_name_char : ℕ → Bool
is_name_char c = not (is_blank c) && not (leb b'a' c && leb c b'z') && not (c == b':')

abbrev pub AllName : List ℕ → Type 0
AllName [] = Unit
AllName (c ∷ s) = (is_name_char c ≡ true) × AllName s

AllName-append : (s r : List ℕ) → AllName s → AllName r → AllName (s ++ r)
AllName-append [] r h k = k
AllName-append (c ∷ s) r h k = (h.0, AllName-append s r h.1 k)

name_char_parts :
    (c : ℕ)
    → is_name_char c ≡ true
    → (is_blank c ≡ false) × (upper_code c ≡ c) × ((c == b':') ≡ false)
unfolding upper_code
name_char_parts c h = ground arith

strip_left-name : (s : List ℕ) → AllName s → strip_left s ≡ s
unfolding strip_left
strip_left-name [] h = refl
strip_left-name (c ∷ s) h = rw ((name_char_parts c h.0).0) refl

keep_before-name : (c : ℕ) (s : List ℕ) → is_blank c ≡ false → keep_before c s ≡ c ∷ s
unfolding keep_before
keep_before-name c [] h = rw h refl
keep_before-name c (d ∷ s) h = refl

strip_right-name : (s : List ℕ) → AllName s → strip_right s ≡ s
unfolding strip_right
strip_right-name [] h = refl
strip_right-name (c ∷ s) h =
    rw (strip_right-name s h.1) (keep_before-name c s (name_char_parts c h.0).0)

strip-name : (s : List ℕ) → AllName s → strip s ≡ s
unfolding strip
strip-name s h = rw (strip_left-name s h) (strip_right-name s h)

upper-name : (s : List ℕ) → AllName s → upper s ≡ s
unfolding upper
upper-name [] h = refl
upper-name (c ∷ s) h = cc ((name_char_parts c h.0).1, upper-name s h.1)

-- no name has the exchange's prefix: it holds a colon
begins_shared :
    (part s : List ℕ) → AllName s → begins part s ≡ true → some_of (λ c. c == b':') part ≡ false
unfolding begins some_of
begins_shared [] s h k = refl
begins_shared (c ∷ part) [] h k = absurd (cc)
begins_shared (c ∷ part) (d ∷ s) h k =
    let rest : begins part s ≡ true = ground arith in
    ground (arith, begins_shared part s h.1 rest, name_char_parts d h.0)

no_prefix : (s : List ℕ) → AllName s → begins prefix_text s ≡ false
no_prefix s h = elim (Bool-cases (begins prefix_text s)) [
  | inr none_there ↦ none_there
  | inl there ↦
      let colon : some_of (λ c. c == b':') prefix_text ≡ true = unfold some_of in refl in
      absurd (cc (begins_shared prefix_text s h there, colon))
]

bare_name-name : (s : List ℕ) → AllName s → bare_name s ≡ s
unfolding bare_name
bare_name-name s h = rw (strip-name s h, upper-name s h, no_prefix s h) (upper-name s h)

same_text_refl : (s : List ℕ) → same_text s s ≡ true
unfolding same_text
same_text_refl [] = refl
same_text_refl (c ∷ s) = ground (arith, same_text_refl s)

ends-append : (c : ℕ) (s part : List ℕ) → ends (c ∷ part) (s ++ c ∷ part) ≡ true
unfolding ends
ends-append c [] part = rw (same_text_refl (c ∷ part)) refl
ends-append c (d ∷ s) part = ground (arith, ends-append c s part)

but_two-append : (s : List ℕ) (x y : ℕ) → but_two (s ++ x ∷ y ∷ []) ≡ s
unfolding but_two
but_two-append [] x y = refl
but_two-append (a ∷ []) x y = refl
but_two-append (a ∷ b ∷ []) x y = refl
but_two-append (a ∷ b ∷ c ∷ s) x y = ap (λ t. a ∷ t) (but_two-append (b ∷ c ∷ s) x y)

-- what `_resolve_market` looks for under a listed name
abbrev pub probes_for : Bool → List ℕ → List ℕ × List Category
probes_for perpetual s =
    (s, if perpetual then linear ∷ inverse ∷ [] else spot ∷ linear ∷ inverse ∷ [])

-- A perpetual's listed name is looked for under the instrument's own name among the contracts only,
-- any other instrument's under its own name in all three categories. The name holds no blank, no
-- small letter and no colon, and does not itself end in `.P`.
pub listed_name_round_trip :
    (perpetual : Bool) (s : List ℕ)
    → AllName s
    → ends perpetual_suffix s ≡ false
    → probes_of (listed_name perpetual s) ≡ probes_for perpetual s
unfolding probes_of listed_name
listed_name_round_trip true s h plain =
    let all = AllName-append s perpetual_suffix h (unfold is_blank in (refl, (refl, tt))) in
    rw
      (
        bare_name-name (s ++ perpetual_suffix) all,
        ends-append b'.' s (b'P' ∷ []),
        but_two-append s b'.' b'P',
      )
      refl
listed_name_round_trip false s h plain = rw (bare_name-name s h, plain) refl
