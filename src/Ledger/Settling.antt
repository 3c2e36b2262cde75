-- ===== src/Ledger/Settling.antt =====
-- What judging the given-up intervals again does to the books.
use pynecore_plugin_bybit.Prelude.{
  ℕ, Bool, true, ◌≡◌, refl, Option, none, some, List, [], ◌∷◌, ◌||◌, not, Bool-cases, inl, inr,
}
use pynecore_plugin_bybit.Prelude.Int.{ℤ, pos, int_laws, parts_of_eq}
use pynecore_plugin_bybit.Ledger.State.{LegLedger, LegGap, LegOutcome}
use pynecore_plugin_bybit.Ledger.Share.{complete}
use pynecore_plugin_bybit.Ledger.Advance.{
  settled_verdicts, of_own, release, judge_gap, settle_gap, settle_one, settle_found, settle_each,
  settle_gaps, mark, guessed, scratch_of, find_gap,
}
use pynecore_plugin_bybit.Ledger.Walk.{walk}
use pynecore_plugin_bybit.Ledger.Frame.{
  SameBook, SameBook-trans, SameBook-if, SameBook-refl, cap_doubt-SameBook,
}
use pynecore_plugin_bybit.Ledger.Verdict.{sum_consumed, +ℤ_zero, sum_consumed-append}

SameBook-release : (i : ℕ) (t : ℤ) (l : LegLedger) → SameBook l (release i t l)
unfolding release
SameBook-release i t l =
    SameBook-trans (record { share = refl; journal = refl; to_net = refl }) (cap_doubt-SameBook t _)

SameBook-mark : (i : ℕ) (l : LegLedger) → SameBook l (mark i l)
unfolding mark
SameBook-mark i l = record { share = refl; journal = refl; to_net = refl }

SameBook-judge_gap :
    (from : ℕ) (g : LegGap) (t : ℤ) (l : LegLedger) → SameBook l (judge_gap from g t l).0
unfolding judge_gap
SameBook-judge_gap from g t l =
    SameBook-if
      (guessed
        (walk from (record { seq = g.end_seq; size = g.end_leg }) true t (scratch_of from g)).1)
      (SameBook-mark g.ident l) (SameBook-release g.ident t l)

SameBook-settle_gap :
    (start : Option ℕ) (known : ℕ → Bool) (t : ℤ) (g : LegGap) (l : LegLedger)
    → SameBook l (settle_gap start known t g l).0
unfolding settle_gap
SameBook-settle_gap none known t g l = SameBook-refl l
SameBook-settle_gap (some from) known t g l =
    elim (Bool-cases (g.settled || not (complete known t g))) [
      | inl skipped ↦ simp skipped (SameBook-refl l)
      | inr judged ↦ simp judged (SameBook-judge_gap from g t l)
    ]

SameBook-settle_found :
    (known : ℕ → Bool) (t : ℤ) (found : Option LegGap) (l : LegLedger)
    → SameBook l (settle_found known t found l).0
unfolding settle_found
SameBook-settle_found known t none l = SameBook-refl l
SameBook-settle_found known t (some g) l = SameBook-settle_gap g.start_seq known t g l

SameBook-settle_each :
    (known : ℕ → Bool) (t : ℤ) (idents : List ℕ) (l : LegLedger)
    → SameBook l (settle_each known t idents l).0
unfolding settle_each settle_one
SameBook-settle_each known t [] l = SameBook-refl l
SameBook-settle_each known t (i ∷ is) l =
    SameBook-trans (SameBook-settle_found known t (find_gap i l.gaps) l)
      (SameBook-settle_each known t is _)

-- Judging the given-up intervals again moves neither the share nor the journal, and hands nothing
-- more over to be netted.
pub settle_gaps-SameBook :
    (known : ℕ → Bool) (t : ℤ) (l : LegLedger) → SameBook l (settle_gaps known t l).0
unfolding settle_gaps
settle_gaps-SameBook known t l = SameBook-settle_each known t _ l

sum_consumed-settled_verdicts : (os : List LegOutcome) → sum_consumed (settled_verdicts os) ≡ pos 0
unfolding sum_consumed settled_verdicts
sum_consumed-settled_verdicts [] = refl
sum_consumed-settled_verdicts (o ∷ os) = elim (Bool-cases (of_own o)) [
  | inl mine ↦ simp mine (sum_consumed-settled_verdicts os)
  | inr foreign ↦ simp foreign (rw (sum_consumed-settled_verdicts os) (+ℤ_zero (pos 0)))
]

sum_consumed-settle_gap :
    (start : Option ℕ) (known : ℕ → Bool) (t : ℤ) (g : LegGap) (l : LegLedger)
    → sum_consumed (settle_gap start known t g l).1 ≡ pos 0
unfolding settle_gap judge_gap
sum_consumed-settle_gap none known t g l = unfold sum_consumed in refl
sum_consumed-settle_gap (some from) known t g l =
    elim (Bool-cases (g.settled || not (complete known t g))) [
      | inl skipped ↦ simp skipped (unfold sum_consumed in refl)
      | inr judged ↦ simp judged (sum_consumed-settled_verdicts _)
    ]

sum_consumed-settle_found :
    (known : ℕ → Bool) (t : ℤ) (found : Option LegGap) (l : LegLedger)
    → sum_consumed (settle_found known t found l).1 ≡ pos 0
unfolding settle_found
sum_consumed-settle_found known t none l = unfold sum_consumed in refl
sum_consumed-settle_found known t (some g) l = sum_consumed-settle_gap g.start_seq known t g l

sum_consumed-settle_each :
    (known : ℕ → Bool) (t : ℤ) (idents : List ℕ) (l : LegLedger)
    → sum_consumed (settle_each known t idents l).1 ≡ pos 0
unfolding settle_each settle_one
sum_consumed-settle_each known t [] l = unfold sum_consumed in refl
sum_consumed-settle_each known t (i ∷ is) l =
    let (l', verdicts) = settle_found known t (find_gap i l.gaps) l in
    let rest = settle_each known t is l' in
    omega (
      int_laws,
      parts_of_eq (sum_consumed-append verdicts rest.1),
      parts_of_eq (sum_consumed-settle_found known t (find_gap i l.gaps) l),
      parts_of_eq (sum_consumed-settle_each known t is l'),
    )

pub sum_consumed-settle_gaps :
    (known : ℕ → Bool) (t : ℤ) (l : LegLedger) → sum_consumed (settle_gaps known t l).1 ≡ pos 0
unfolding settle_gaps
sum_consumed-settle_gaps known t l = sum_consumed-settle_each known t _ l
