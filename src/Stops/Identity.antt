-- ===== src/Stops/Identity.antt =====
-- The slices of one execution have fill ids of their own (`_venue_bracket_claim_slices` of
-- pynecore_bybit/events.py), so that the core books each of them.
use mathlib.Core.Path.{subst}
use pynecore_plugin_bybit.Prelude.{
  ℕ, false, ◌≡◌, ◌≢◌, refl, sym, List, [], ◌∷◌, ◌++◌, map, if◌then◌else◌, if_rule, ltb, ◌==◌, ◌&&◌,
  arith,
}
use pynecore_plugin_bybit.Prelude.Int.{ℤ, pos, ◌-ℤ◌}
use pynecore_plugin_bybit.Stops.Slices.{
  Execution, Claim, qty_of, or_empty, suffixed, slice_id, slice, total_of, is_single, passed, cut,
  run_fee, venue_bracket_claim_slices, ids,
}

-- `#` does not occur
abbrev pub Plain : List ℕ → Type 0
Plain [] = Unit
Plain (c ∷ cs) = (c ≢ 35) × Plain cs

abbrev pub AllPlain : List Claim → Type 0
AllPlain [] = Unit
AllPlain (c ∷ cs) = Plain c.pine_id × AllPlain cs

module _ {A : Type 0} where
  abbrev pub Absent : A → List A → Type 0
  Absent a [] = Unit
  Absent a (x ∷ xs) = (a ≢ x) × Absent a xs

  abbrev pub Once : List A → Type 0
  Once [] = Unit
  Once (x ∷ xs) = Absent x xs × Once xs

-- the exit and the entry that a claim is for
abbrev pub key_of : Claim → List ℕ × List ℕ
key_of c = (c.pine_id, or_empty c.from_entry)

same_rest : (a x y : List ℕ) → a ++ x ≡ a ++ y → x ≡ y
same_rest [] x y e = e
same_rest (c ∷ cs) x y e = same_rest cs x y (cc)

same_parts : (a b x y : List ℕ) → Plain a → Plain b → a ++ 35 ∷ x ≡ b ++ 35 ∷ y → (a ≡ b) × (x ≡ y)
same_parts [] [] x y p q e = (refl, cc)
same_parts [] (d ∷ b) x y p q e = absurd (q.0 (cc))
same_parts (c ∷ a) [] x y p q e = absurd (p.0 (cc))
same_parts (c ∷ a) (d ∷ b) x y p q e =
    let rest = same_parts a b x y p.1 q.1 (cc) in (cc (rest.0), rest.1)

suffixed-key :
    (id : List ℕ) (c d : Claim)
    → Plain c.pine_id
    → Plain d.pine_id
    → suffixed id c ≡ suffixed id d
    → key_of c ≡ key_of d
unfolding suffixed
suffixed-key id c d p q e =
    let parts =
      same_parts c.pine_id d.pine_id (or_empty c.from_entry) (or_empty d.from_entry) p q
        (cc (same_rest id (tail c) (tail d) e)) in
    cc (parts.0, parts.1)
  where
    tail : Claim → List ℕ
    tail f = 35 ∷ (f.pine_id ++ (35 ∷ or_empty f.from_entry))

module _ (pro_rata : ℤ → ℕ → ℕ → ℤ) (e : Execution) (total : ℕ) (fee : ℤ) where
  cut-Absent :
      (c : Claim) (left : ℤ) (cs : List Claim)
      → Plain c.pine_id
      → AllPlain cs
      → Absent (key_of c) (map key_of cs)
      → Absent (suffixed e.exec_id c) (ids (cut pro_rata false e total fee left cs))
  unfolding cut ids slice slice_id
  cut-Absent c left [] p ps h = tt
  cut-Absent c left (d ∷ []) p ps h = (λ same. h.0 (suffixed-key e.exec_id c d p ps.0 same), tt)
  cut-Absent c left (d ∷ f ∷ cs) p ps h = (
    λ same. h.0 (suffixed-key e.exec_id c d p ps.0 same),
    cut-Absent c (left -ℤ share) (f ∷ cs) p ps.1 h.1,
  )
    where
      share : ℤ
      share = if ltb 0 total then pro_rata fee d.qty total else pos 0

  cut-Once :
      (left : ℤ) (cs : List Claim)
      → AllPlain cs
      → Once (map key_of cs)
      → Once (ids (cut pro_rata false e total fee left cs))
  unfolding cut ids slice slice_id
  cut-Once left [] ps h = tt
  cut-Once left (c ∷ []) ps h = (tt, tt)
  cut-Once left (c ∷ d ∷ cs) ps h = (
    cut-Absent c (left -ℤ share) (d ∷ cs) ps.0 ps.1 h.0,
    cut-Once (left -ℤ share) (d ∷ cs) ps.1 h.1,
  )
    where
      share : ℤ
      share = if ltb 0 total then pro_rata fee c.qty total else pos 0

several : (c d : Claim) (cs : List Claim) → is_single (c ∷ d ∷ cs) ≡ false
unfolding is_single
several c d cs = ground arith

-- The slices of an execution have different fill ids when the claims are for different pairs of an exit
-- and an entry and no exit's id contains a `#`; a missing entry counts as an empty id.
pub venue_bracket_claim_slices-Once :
    (pro_rata : ℤ → ℕ → ℕ → ℤ) (e : Execution) (cs : List Claim)
    → AllPlain cs
    → Once (map key_of cs)
    → Once (ids (venue_bracket_claim_slices pro_rata e cs))
unfolding venue_bracket_claim_slices cut passed ids is_single
venue_bracket_claim_slices-Once pro_rata e [] ps h = tt
venue_bracket_claim_slices-Once pro_rata e (c ∷ []) ps h =
    if_rule (λ ss. Once (ids ss)) (total_of (c ∷ []) == 0) [] _ (λ _. tt)
      (λ _.
        if_rule (λ ss. Once (ids ss)) (total_of (c ∷ []) == qty_of e.exec_qty) (passed e (c ∷ [])) _
          (λ _. (tt, tt)) (λ _. (tt, tt)))
venue_bracket_claim_slices-Once pro_rata e (c ∷ d ∷ cs) ps h =
    if_rule (λ ss. Once (ids ss)) (total == 0) [] _ (λ _. tt)
      (λ _.
        subst
          (λ single. Once (
            ids (
              if single && total == qty_of e.exec_qty
              then passed e (c ∷ d ∷ cs)
              else cut pro_rata single e total fee fee (c ∷ d ∷ cs))))
          (sym (several c d cs)) (cut-Once pro_rata e total fee fee (c ∷ d ∷ cs) ps h))
  where
    total : ℕ
    total = total_of (c ∷ d ∷ cs)

    fee : ℤ
    fee = run_fee pro_rata e (c ∷ d ∷ cs)
