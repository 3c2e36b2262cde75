-- ===== src/Ledger/GivingUp.antt =====
-- What giving an interval up hands over to be netted.
use pynecore_plugin_bybit.Prelude.{
  ℕ, suc, true, false, ◌≡◌, refl, ◌∙◌, [], ◌∷◌, arith, Bool-cases, inl, inr,
}
use pynecore_plugin_bybit.Prelude.Int.{
  ℤ, pos, ◌+ℤ◌, ◌≤ℤ◌, ◌<ℤ◌, abs, int_laws, ltb_ℤ, +ℤ_parts, eq_of_parts, parts_of_eq,
}
use pynecore_plugin_bybit.Ledger.State.{direction, has_side, LegLedger, View, LegGap, LegOutcome}
use pynecore_plugin_bybit.Ledger.Advance.{
  clamped_part, clamp_to, keep_gap, give_up, gap_for, re_anchor, settle_on, give_up_outcome,
}
use pynecore_plugin_bybit.Ledger.Walk.{walk}
use pynecore_plugin_bybit.Ledger.Frame.{
  SameBook, SameBook-trans, SameBook-if, SameBook-refl, add_credit-SameBook, note_room-SameBook,
  add_doubt-SameBook, add_gap-SameBook, total_due, total_due-take_journal,
}
use pynecore_plugin_bybit.Ledger.Verdict.{
  sum_consumed, total_due-SameBook, total_due-walk, +ℤ_zero, sum_consumed-append,
}

pub clamped_part_range :
    (share leg : ℤ) (t : ℕ)
    → (pos 0 ≤ℤ clamped_part share leg (pos t))
      × (pos 0 <ℤ clamped_part share leg (pos t) → has_side (direction share) ≡ true)
unfolding clamped_part direction
clamped_part_range share leg t = elim (Bool-cases (has_side (direction share))) [
  | inl s ↦ (grind int_laws, λ _. s)
  | inr s ↦ (ground arith, λ p. ground arith)
]

total_due-clamp_to :
    (first : View) (t : ℕ) (l : LegLedger)
    → total_due (clamp_to first (pos t) l) ≡ total_due l +ℤ clamped_part l.share first.size (pos t)
unfolding clamp_to
total_due-clamp_to first t l =
    let clamped = clamped_part l.share first.size (pos t) in
    let (positive, sided) = clamped_part_range l.share first.size t in
    elim (Bool-cases (ltb_ℤ (pos 0) clamped)) [
      | inl taken ↦ rw taken (
          total_due-SameBook _ _ (add_credit-SameBook _ _ _ _)
          ∙ total_due-take_journal clamped _ _ positive (sided (ground arith))
          ∙ (unfold total_due in refl))
      | inr nothing ↦ rw nothing (eq_of_parts _ _ (ground (arith, +ℤ_parts (total_due l) clamped)))
    ]

re_anchor-SameBook : (first : View) (l : LegLedger) → SameBook l (re_anchor first l)
unfolding re_anchor
re_anchor-SameBook first l =
    SameBook-trans (record { share = refl; journal = refl; to_net = refl })
      (note_room-SameBook first.size l.share _)

keep_gap-SameBook : (gap : LegGap) (t : ℤ) (l : LegLedger) → SameBook l (keep_gap gap t l)
unfolding keep_gap
keep_gap-SameBook gap t l =
    SameBook-if (ltb_ℤ t (abs l.share)) (add_gap-SameBook _ l) (SameBook-refl l)

pub settle_on-SameBook :
    (first : View) (t : ℤ) (gap : LegGap) (l : LegLedger)
    → SameBook (clamp_to first t l) (settle_on first t gap l)
unfolding settle_on
settle_on-SameBook first t gap l =
    SameBook-trans (add_doubt-SameBook _ _ t _)
      (SameBook-trans (keep_gap-SameBook gap t _) (re_anchor-SameBook first _))

sum_consumed-one : (o : LegOutcome) → o.settled ≡ false → sum_consumed (o ∷ []) ≡ o.consumed
unfolding sum_consumed
sum_consumed-one o h = simp h (+ℤ_zero _)

-- Giving an interval up: what its outcomes, the clamp among them, took of the share is, to the unit,
-- what it adds to the nettings due.
pub total_due-give_up :
    (cursor : ℕ) (first : View) (t : ℕ) (l : LegLedger)
    → total_due (give_up cursor first (pos t) l).0
      ≡ total_due l +ℤ sum_consumed (give_up cursor first (pos t) l).1
unfolding give_up
total_due-give_up cursor first t l =
    let numbered = record l { next_ident = suc l.next_ident } in
    let (walked, outcomes) = walk cursor first false (pos t) numbered in
    let clamp = give_up_outcome cursor first (pos t) l walked in
    total_due-SameBook _ _ (settle_on-SameBook first (pos t) (gap_for cursor first l) walked)
    ∙ total_due-clamp_to first t walked
    ∙ omega (
      int_laws,
      parts_of_eq (total_due-walk cursor first false t numbered),
      parts_of_eq
          (total_due-SameBook l numbered (record { share = refl; journal = refl; to_net = refl })),
      parts_of_eq (sum_consumed-append outcomes (clamp ∷ [])),
      parts_of_eq (sum_consumed-one clamp refl),
    )
