-- ===== src/Ledger/Doubt.antt =====
-- The doubt: what a walk, a journal sync and a late own execution leave of it, and what giving an
-- interval up onto a flat leg leaves.
use pynecore_plugin_bybit.Prelude.{
  ℕ, suc, Bool, true, false, ◌≡◌, refl, ◌∙◌, ap, ◌⊎◌, [], arith, Bool-cases, inl, inr,
}
use pynecore_plugin_bybit.Prelude.Int.{
  ℤ, pos, ◌+ℤ◌, ◌-ℤ◌, ◌≤ℤ◌, ◌<ℤ◌, abs, neg, max, min, ltb_ℤ, leb_ℤ, int_laws, parts_of_eq,
}
use pynecore_plugin_bybit.Ledger.State.{direction, LegLedger, View, LegGap, LegEvent}
use pynecore_plugin_bybit.Ledger.Share.{cap_doubt, add_doubt, take_journal, add_credit, note_room}
use pynecore_plugin_bybit.Ledger.Record.{sync_at}
use pynecore_plugin_bybit.Ledger.Walk.{
  note_if, move_onto, drop_views, close_walk, walk_events, due_events, walk,
}
use pynecore_plugin_bybit.Ledger.Late.{late_own_at}
use pynecore_plugin_bybit.Ledger.Advance.{
  clamped_part, clamp_to, keep_gap, re_anchor, settle_on, gap_for, give_up,
}

-- The doubt is a part of the share, and an interval is kept only while there is doubt.
pub record IsDoubtHeld (t : ℕ) (l : LegLedger) : Type 0 where
  pub nonneg : pos 0 ≤ℤ l.doubt
  pub within_share : l.doubt ≤ℤ abs l.share
  pub gaps_doubted : (l.gaps ≡ []) ⊎ (pos t <ℤ l.doubt)

cap_doubt-IsDoubtHeld : (t : ℕ) (l : LegLedger) → IsDoubtHeld t (cap_doubt (pos t) l)
unfolding cap_doubt
cap_doubt-IsDoubtHeld t l = elim (Bool-cases (leb_ℤ (min l.doubt (abs l.share)) (pos t))) [
  | inl small ↦
      rw small
        (record { nonneg = omega arith; within_share = omega int_laws; gaps_doubted = inl refl })
  | inr large ↦
      let over : pos t <ℤ min l.doubt (abs l.share) = ground arith in
      rw large
        (record { nonneg = omega int_laws; within_share = omega int_laws; gaps_doubted = inr over })
]

note_if-IsDoubtHeld :
    (t : ℕ) (b : Bool) (leg : ℤ) (l : LegLedger) → IsDoubtHeld t l → IsDoubtHeld t (note_if b leg l)
unfolding note_if note_room
note_if-IsDoubtHeld t true leg l h = record {
  nonneg = h.nonneg;
  within_share = h.within_share;
  gaps_doubted = h.gaps_doubted;
}
note_if-IsDoubtHeld t false leg l h = h

-- Whatever the ledger was, after a walk, after a sync with the journal and after a late own
-- execution the doubt lies between 0 and the share, and no given-up interval is kept without doubt.
pub doubt_within_share :
    (t : ℕ) (l : LegLedger)
    → ((cursor : ℕ) (view : View) (proven : Bool)
        → IsDoubtHeld t (walk cursor view proven (pos t) l).0)
      × ((cursor : ℕ) (journal : ℤ) → IsDoubtHeld t (sync_at cursor journal (pos t) l))
      × ((cursor blind : ℕ) (e : LegEvent) → IsDoubtHeld t (late_own_at cursor blind e (pos t) l).0)
unfolding walk close_walk drop_views sync_at late_own_at
doubt_within_share t l = (
  (λ cursor view proven.
      let held = note_if-IsDoubtHeld t proven view.size _ (
        cap_doubt-IsDoubtHeld t (
          move_onto proven (pos t) view (due_events cursor view.seq l)
            (walk_events proven (pos t) l.cursor_leg (due_events cursor view.seq l) l).0)) in
      record {
        nonneg = held.nonneg;
        within_share = held.within_share;
        gaps_doubted = held.gaps_doubted;
      }),
  (λ cursor journal. cap_doubt-IsDoubtHeld t _),
  (λ cursor blind e. cap_doubt-IsDoubtHeld t _),
)

clamp_to_flat :
    (seq t : ℕ) (l : LegLedger)
    → pos t <ℤ abs l.share
    → let flat_view : View = record { seq = seq; size = pos 0 } in
      ((clamp_to flat_view (pos t) l).share ≡ pos 0)
      × ((clamp_to flat_view (pos t) l).doubt ≡ l.doubt)
unfolding clamp_to clamped_part direction take_journal add_credit abs max neg ◌+ℤ◌ ◌-ℤ◌
clamp_to_flat seq t l h = ground arith

gone_is_small : (s : ℤ) (t : ℕ) → s ≡ pos 0 → leb_ℤ (abs s) (pos t) ≡ true
unfolding abs
gone_is_small s t h = ground arith

over_not_gone : (s : ℤ) (t : ℕ) → s ≡ pos 0 → ltb_ℤ (pos t) (abs s) ≡ true → ⊥
unfolding abs
over_not_gone s t h k = ground arith

add_doubt-gone :
    (seq t : ℕ) (l : LegLedger) → l.share ≡ pos 0 → add_doubt seq (abs l.share) (pos t) l ≡ l
unfolding add_doubt
add_doubt-gone seq t l h = simp (gone_is_small l.share t h)

keep_gap-gone :
    (gap : LegGap) (t : ℕ) (l : LegLedger) → l.share ≡ pos 0 → keep_gap gap (pos t) l ≡ l
unfolding keep_gap
keep_gap-gone gap t l h = elim (Bool-cases (ltb_ℤ (pos t) (abs l.share))) [
  | inl held ↦ absurd (over_not_gone l.share t h held)
  | inr gone ↦ simp gone
]

settle_on_small :
    (first : View) (t : ℕ) (gap : LegGap) (l : LegLedger)
    → (clamp_to first (pos t) l).share ≡ pos 0
    → ((settle_on first (pos t) gap l).share ≡ pos 0)
      × ((settle_on first (pos t) gap l).doubt ≡ (clamp_to first (pos t) l).doubt)
unfolding settle_on re_anchor note_room
settle_on_small first t gap l h =
    let same =
      ap (keep_gap gap (pos t)) (add_doubt-gone first.seq t (clamp_to first (pos t) l) h)
      ∙ keep_gap-gone gap t (clamp_to first (pos t) l) h in
    (ap (λ (x : LegLedger). x.share) same ∙ h, ap (λ (x : LegLedger). x.doubt) same)

doubt_outlives :
    (l : LegLedger) (d : ℤ) (t : ℕ) → l.share ≡ pos 0 → l.doubt ≡ d → pos 0 <ℤ d → ¬ IsDoubtHeld t l
doubt_outlives l d t s e h held = omega (int_laws, parts_of_eq s, parts_of_eq e, held.within_share)

-- A give-up onto a flat leg takes the whole share and leaves the doubt as it was: what the run no
-- longer holds stays in doubt, where the walk of the interval left a share over the tolerance and
-- some of it in doubt.
pub give_up_keeps_doubt :
    (cursor seq t : ℕ) (l : LegLedger)
    → let flat_view : View = record { seq = seq; size = pos 0 } in
      let walked =
        (walk cursor flat_view false (pos t) (record l { next_ident = suc l.next_ident })).0 in
      let l' = (give_up cursor flat_view (pos t) l).0 in
      pos t <ℤ abs walked.share
      → pos 0 <ℤ walked.doubt
      → (l'.share ≡ pos 0) × (l'.doubt ≡ walked.doubt) × (¬ IsDoubtHeld t l')
unfolding give_up
give_up_keeps_doubt cursor seq t l h positive =
    let flat_view : View = record { seq = seq; size = pos 0 } in
    let walked =
      (walk cursor flat_view false (pos t) (record l { next_ident = suc l.next_ident })).0 in
    let (gone, same) = clamp_to_flat seq t walked h in
    let (share, doubt) = settle_on_small flat_view t (gap_for cursor flat_view l) walked gone in
    (
      share,
      doubt ∙ same,
      λ held. doubt_outlives _ walked.doubt t share (doubt ∙ same) positive held,
    )
