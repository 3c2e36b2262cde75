-- ===== src/Ledger/Netting.antt =====
-- What `advance` hands over to be netted, over all its rounds.
use pynecore_plugin_bybit.Prelude.{
  ℕ, zero, suc, ◌≤◌, ◌<◌, Bool, true, false, ◌≡◌, refl, ap, sym, ◌∙◌, Option, none, some, List, [],
  ◌∷◌, ◌++◌, arith, ltb, Bool-cases, Option-cases, length, length-keep, inl, inr,
}
use pynecore_plugin_bybit.Prelude.Int.{ℤ, pos, ◌+ℤ◌, ◌-ℤ◌, int_laws, ltb_ℤ, parts_of_eq}
use pynecore_plugin_bybit.Ledger.State.{LegLedger, View, LegOutcome}
use pynecore_plugin_bybit.Ledger.Advance.{
  settle_gaps, wait_or_give_up, prove, judge_target, judge_round, judge_views, judge_at, advance_at,
  settle_if, go_on, prepend, advance, Round, stop, again, later_views,
}
use pynecore_plugin_bybit.Ledger.Frame.{total_due}
use pynecore_plugin_bybit.Ledger.Rounds.{rounds_left, Proceeds, round-Proceeds}
use pynecore_plugin_bybit.Ledger.Verdict.{
  sum_consumed, total_due-SameBook, total_due-walk, +ℤ_zero, sum_consumed-append,
}
use pynecore_plugin_bybit.Ledger.GivingUp.{total_due-give_up}
use pynecore_plugin_bybit.Ledger.Settling.{settle_gaps-SameBook, sum_consumed-settle_gaps}

-- What a round does to the nettings due.
abbrev Netted : LegLedger → Round → Type 0
Netted l (stop l') = total_due l' ≡ total_due l
Netted l (again l' os) = total_due l' ≡ total_due l +ℤ sum_consumed os

wait_or_give_up-Netted :
    (now grace : ℤ) (t c : ℕ) (first : View) (l : LegLedger)
    → Netted l (wait_or_give_up now grace (pos t) c first l)
unfolding wait_or_give_up
wait_or_give_up-Netted now grace t c first l =
    let since : ℤ = elim l.gap_since [ none ↦ now | some s ↦ s ] in
    elim (Bool-cases (ltb_ℤ (now -ℤ since) grace)) [
      | inl waits ↦ rw waits (unfold total_due in refl)
      | inr overdue ↦
          rw overdue (
            total_due-give_up c first t (record l { gap_since = none })
            ∙ (unfold total_due in refl))
    ]

judge_target-Netted :
    (now grace : ℤ) (t c : ℕ) (first : View) (target : Option View) (l : LegLedger)
    → Netted l (judge_target now grace (pos t) c first target l)
unfolding judge_target prove
judge_target-Netted now grace t c first none l = wait_or_give_up-Netted now grace t c first l
judge_target-Netted now grace t c first (some v) l =
    total_due-walk c v true t (record l { gap_since = none }) ∙ (unfold total_due in refl)

judge_round-Netted :
    (now grace : ℤ) (t : ℕ) (known : ℕ → Bool) (provable : Bool) (c : ℕ) (l : LegLedger)
    → (vs : List View) → Netted l (judge_round now grace (pos t) known provable c l vs)
unfolding judge_round
judge_round-Netted now grace t known provable c l [] = unfold total_due in refl
judge_round-Netted now grace t known provable c l (first ∷ later) =
    judge_target-Netted now grace t c first _ l

-- The loop's answer, if it has one: what it took is what it hands over.
abbrev Answer : LegLedger → Option (LegLedger × List LegOutcome) → Type 0
Answer l o =
    (r : LegLedger × List LegOutcome) × (o ≡ some r)
    × (total_due r.0 ≡ total_due l +ℤ sum_consumed r.1)

prepend-Answer :
    (l l' : LegLedger) (os : List LegOutcome) (o : Option (LegLedger × List LegOutcome))
    → total_due l' ≡ total_due l +ℤ sum_consumed os
    → Answer l' o
    → Answer l (prepend os o)
prepend-Answer l l' os o h (r, e, k) = (
  (r.0, os ++ r.1),
  rw e,
  omega (int_laws, parts_of_eq h, parts_of_eq k, parts_of_eq (sum_consumed-append os r.1)),
)

go_on-Answer :
    (next : LegLedger → Option (LegLedger × List LegOutcome)) (l : LegLedger) (r : Round) (fuel : ℕ)
    → rounds_left l < suc fuel
    → ((l' : LegLedger) → rounds_left l' < fuel → Answer l' (next l'))
    → Proceeds l r
    → Netted l r
    → Answer l (go_on next r)
unfolding go_on
go_on-Answer next l (stop l') fuel h ih p n =
    ((l', []), refl, n ∙ (unfold sum_consumed in sym (+ℤ_zero _)))
go_on-Answer next l (again l' os) fuel h ih p n =
    prepend-Answer l l' os (next l') n (ih l' (omega arith))

judge_at-Answer :
    (next : LegLedger → Option (LegLedger × List LegOutcome))
    → (now grace : ℤ) (t : ℕ) (known : ℕ → Bool) (provable : Bool) (at : Option ℕ) (l : LegLedger)
    → (fuel : ℕ) → l.cursor_seq ≡ at
    → rounds_left l < suc fuel
    → ((l' : LegLedger) → rounds_left l' < fuel → Answer l' (next l'))
    → Answer l (judge_at next now grace (pos t) known provable at l)
unfolding judge_at
judge_at-Answer next now grace t known provable none l fuel at h ih =
    ((l, []), refl, (unfold sum_consumed in sym (+ℤ_zero _)))
judge_at-Answer next now grace t known provable (some c) l fuel at h ih =
    go_on-Answer next l _ fuel h ih (round-Proceeds now grace (pos t) known provable c l at)
      (judge_round-Netted now grace t known provable c l (later_views c l))

-- The loop ends within its fuel.
judge_views-Answer :
    (fuel : ℕ) (now grace : ℤ) (t : ℕ) (known : ℕ → Bool) (provable : Bool) (l : LegLedger)
    → rounds_left l < fuel
    → Answer l (judge_views fuel now grace (pos t) known provable l)
unfolding judge_views
judge_views-Answer zero now grace t known provable l h = elim h [ ]
judge_views-Answer (suc fuel) now grace t known provable l h =
    judge_at-Answer (judge_views fuel now grace (pos t) known provable) now grace t known provable
      l.cursor_seq l fuel refl h (judge_views-Answer fuel now grace t known provable)

rounds_left-le : (l : LegLedger) → rounds_left l ≤ length l.views
rounds_left-le l = elim (Option-cases l.cursor_seq) [
  | inl unset ↦ rw unset (omega arith)
  | inr (c, at) ↦ rw at (length-keep (λ v. ltb c v.seq) l.views)
]

advance_at-Answer :
    (now grace : ℤ) (t : ℕ) (known : ℕ → Bool) (provable : Bool) (at : Option ℕ) (l : LegLedger)
    → Answer l (advance_at now grace (pos t) known provable at l)
unfolding advance_at settle_if
advance_at-Answer now grace t known provable none l =
    ((l, []), refl, (unfold sum_consumed in sym (+ℤ_zero _)))
advance_at-Answer now grace t known true (some c) l =
    let (settled, verdicts) = settle_gaps known (pos t) l in
    prepend-Answer l settled verdicts _
      (total_due-SameBook _ _ (settle_gaps-SameBook known (pos t) l)
        ∙ sym (+ℤ_zero _)
        ∙ ap (λ x. total_due l +ℤ x) (sym (sum_consumed-settle_gaps known (pos t) l)))
      (judge_views-Answer (suc (length settled.views)) now grace t known true settled
        (omega (arith, rounds_left-le settled)))
advance_at-Answer now grace t known false (some c) l =
    prepend-Answer l l [] _ (unfold sum_consumed in sym (+ℤ_zero _)) (
      judge_views-Answer (suc (length l.views)) now grace t known false l
        (omega (arith, rounds_left-le l)))

-- `advance` always comes to an end, and what the outcomes that it reports took of the share (those
-- of intervals judged again apart) is, to the unit, what it adds to the nettings due.
pub advance_netted :
    (now grace : ℤ) (t : ℕ) (known : ℕ → Bool) (provable : Bool) (l : LegLedger)
    → (r : LegLedger × List LegOutcome) × (advance now grace (pos t) known provable l ≡ some r)
      × (total_due r.0 ≡ total_due l +ℤ sum_consumed r.1)
unfolding advance
advance_netted now grace t known provable l =
    advance_at-Answer now grace t known provable l.cursor_seq l
