-- ===== src/Ledger/Rounds.antt =====
-- The loop of `advance`: what each of its rounds does to the views that are left.
use pynecore_plugin_bybit.Prelude.{
  ℕ, ◌≤◌, ◌<◌, Bool, true, false, ◌≡◌, refl, ap, sym, ◌⊎◌, Option, none, some, List, [], ◌∷◌, arith,
  leb, ltb, if◌then◌else◌, Bool-cases, inl, inr, keep, length, not, ◌||◌,
}
use pynecore_plugin_bybit.Prelude.Int.{ℤ, ◌-ℤ◌, abs, ltb_ℤ}
use pynecore_plugin_bybit.Ledger.State.{LegLedger, View}
use pynecore_plugin_bybit.Ledger.Share.{expected_leg}
use pynecore_plugin_bybit.Ledger.Advance.{
  wait_or_give_up, prove, judge_target, judge_round, Round, stop, again, later_views, furthest,
}
use pynecore_plugin_bybit.Ledger.Sight.{SeesFrom, walk-SeesFrom, give_up-SeesFrom}

-- The views that a cursor on `v` still has before it.
abbrev left_after : View → List View → ℕ
left_after v vs = length (keep (λ w. ltb v.seq w.seq) (keep (λ w. leb v.seq w.seq) vs))

abbrev left_from : ℕ → List View → ℕ
left_from c vs = length (keep (λ w. ltb c w.seq) vs)

left_after-le : (c : ℕ) (v : View) (vs : List View) → c ≤ v.seq → left_after v vs ≤ left_from c vs
unfolding keep
left_after-le c v [] h = omega arith
left_after-le c v (w ∷ ws) h = ground (arith, left_after-le c v ws h)

-- one of the views has this `seq`
abbrev Seen : ℕ → List View → Type 0
Seen s [] = ⊥
Seen s (w ∷ ws) = (s ≡ w.seq) ⊎ Seen s ws

Seen-later : (c s : ℕ) (vs : List View) → Seen s (keep (λ w. ltb c w.seq) vs) → (c < s) × Seen s vs
unfolding keep
Seen-later c s [] m = elim m [ ]
Seen-later c s (w ∷ ws) m = elim (Bool-cases (ltb c w.seq)) [
  | inl later ↦ elim (rw later at m) [
    | inl e ↦ (ground arith, inl e)
    | inr r ↦ let (h, k) = Seen-later c s ws r in (h, inr k)
  ]
  | inr earlier ↦ let (h, k) = Seen-later c s ws (rw earlier at m) in (h, inr k)
]

left_after-lt :
    (c : ℕ) (v : View) (vs : List View)
    → c < v.seq
    → Seen v.seq vs
    → left_after v vs < left_from c vs
unfolding keep
left_after-lt c v [] h m = elim m [ ]
left_after-lt c v (w ∷ ws) h (inl e) = ground (arith, left_after-le c v ws)
left_after-lt c v (w ∷ ws) h (inr m) = ground (arith, left_after-lt c v ws h m)

furthest-Seen :
    (known : ℕ → Bool) (t : ℤ) (c : ℕ) (l : LegLedger) (vs : List View) (from : Option View)
    (v : View)
    → furthest known t c l vs from ≡ some v
    → (from ≡ some v) ⊎ Seen v.seq vs
unfolding furthest
furthest-Seen known t c l [] from v h = inl h
furthest-Seen known t c l (w ∷ ws) from v h =
    elim (Bool-cases (ltb_ℤ t (abs (expected_leg c w.seq l -ℤ w.size)) || not (known w.seq))) [
      | inl ends ↦ inl (rw ends at h)
      | inr goes ↦ elim (furthest-Seen known t c l ws (some w) v (rw goes at h)) [
        | inl e ↦ inr (
            inl
              (ap (λ (o : Option View). elim o as (λ _. ℕ) [ none ↦ 0 | some x ↦ x.seq ]) (sym e)))
        | inr m ↦ inr (inr m)
      ]
    ]

-- how many rounds the loop may still make
abbrev pub rounds_left : LegLedger → ℕ
rounds_left l = elim l.cursor_seq [ none ↦ 0 | some c ↦ left_from c l.views ]

rounds_left-SeesFrom :
    (c : ℕ) (v : View) (l l' : LegLedger)
    → l.cursor_seq ≡ some c
    → c < v.seq
    → Seen v.seq l.views
    → SeesFrom v l l'
    → rounds_left l' < rounds_left l
rounds_left-SeesFrom c v l l' at h m s =
    rw (at, s.cursor_seq, s.views) (left_after-lt c v l.views h m)

-- What a round has to do for the loop to end: to stop, or to get past a view.
abbrev pub Proceeds : LegLedger → Round → Type 0
Proceeds l (stop _) = Unit
Proceeds l (again l' _) = rounds_left l' < rounds_left l

wait_or_give_up-Proceeds :
    (now grace t : ℤ) (c : ℕ) (first : View) (l : LegLedger)
    → l.cursor_seq ≡ some c
    → c < first.seq
    → Seen first.seq l.views
    → Proceeds l (wait_or_give_up now grace t c first l)
unfolding wait_or_give_up
wait_or_give_up-Proceeds now grace t c first l at h m =
    let since : ℤ = elim l.gap_since [ none ↦ now | some s ↦ s ] in
    elim (Bool-cases (ltb_ℤ (now -ℤ since) grace)) [
      | inl waits ↦ rw waits tt
      | inr overdue ↦ rw overdue (
          rounds_left-SeesFrom c first (record l { gap_since = none }) _ at h m
            (give_up-SeesFrom c first t (record l { gap_since = none })))
    ]

judge_target-Proceeds :
    (now grace t : ℤ) (c : ℕ) (first : View) (target : Option View) (l : LegLedger)
    → l.cursor_seq ≡ some c
    → ((v : View) → (target ≡ some v) ⊎ (first ≡ v) → (c < v.seq) × Seen v.seq l.views)
    → Proceeds l (judge_target now grace t c first target l)
unfolding judge_target prove
judge_target-Proceeds now grace t c first none l at m =
    wait_or_give_up-Proceeds now grace t c first l at (m first (inr refl)).0 (m first (inr refl)).1
judge_target-Proceeds now grace t c first (some v) l at m =
    rounds_left-SeesFrom c v (record l { gap_since = none }) _ at (m v (inl refl)).0
      (m v (inl refl)).1 (walk-SeesFrom c v true t (record l { gap_since = none }))

candidate-Seen :
    (known : ℕ → Bool) (t : ℤ) (c : ℕ) (l : LegLedger) (first : View) (later : List View)
    → (provable : Bool) (v : View)
    → furthest known t c l (if provable then first ∷ later else []) none ≡ some v
    → Seen v.seq (first ∷ later)
candidate-Seen known t c l first later true v h =
    elim (furthest-Seen known t c l (first ∷ later) none v h) [ inl e ↦ cc | inr m ↦ m ]
candidate-Seen known t c l first later false v h = elim (furthest-Seen known t c l [] none v h) [
  | inl e ↦ cc
  | inr m ↦ elim m [ ]
]

judge_round-Proceeds :
    (now grace t : ℤ) (known : ℕ → Bool) (provable : Bool) (c : ℕ) (l : LegLedger) (vs : List View)
    → l.cursor_seq ≡ some c
    → ((v : View) → Seen v.seq vs → (c < v.seq) × Seen v.seq l.views)
    → Proceeds l (judge_round now grace t known provable c l vs)
unfolding judge_round
judge_round-Proceeds now grace t known provable c l [] at m = tt
judge_round-Proceeds now grace t known provable c l (first ∷ later) at m =
    judge_target-Proceeds now grace t c first _ l at λ v h. elim h [
      | inl e ↦ m v (candidate-Seen known t c l first later provable v e)
      | inr e ↦ m v (inl (ap (λ (w : View). w.seq) (sym e)))
    ]

-- Every round of the loop stops it or gets past a view.
pub round-Proceeds :
    (now grace t : ℤ) (known : ℕ → Bool) (provable : Bool) (c : ℕ) (l : LegLedger)
    → l.cursor_seq ≡ some c
    → Proceeds l (judge_round now grace t known provable c l (later_views c l))
unfolding later_views
round-Proceeds now grace t known provable c l at =
    judge_round-Proceeds now grace t known provable c l _ at (λ v m. Seen-later c v.seq l.views m)
