-- ===== src/Ledger/Sight.antt =====
-- Which views a ledger sees, and where its cursor stands, after a walk and after a give-up.
use pynecore_plugin_bybit.Prelude.{
  ℕ, suc, Bool, true, false, ◌≡◌, refl, ap, ◌∙◌, some, List, [], ◌∷◌, arith, leb, Bool-cases, inl,
  inr, keep,
}
use pynecore_plugin_bybit.Prelude.Int.{ℤ, ◌+ℤ◌, ◌-ℤ◌, abs, ltb_ℤ, leb_ℤ}
use pynecore_plugin_bybit.Ledger.State.{Dir, ◌*ᴰ◌, LegLedger, View, LegGap, LegEvent}
use pynecore_plugin_bybit.Ledger.Share.{
  take_journal, add_credit, cap_doubt, add_doubt, note_room, add_gap,
}
use pynecore_plugin_bybit.Ledger.Walk.{
  note_if, take_share, spend_doubt, book_verdict, walk_own, walk_foreign, walk_event, walk_events,
  move_onto, drop_views, close_walk, due_events, walk,
}
use pynecore_plugin_bybit.Ledger.Advance.{
  clamp_to, keep_gap, re_anchor, settle_on, gap_for, give_up,
}

-- The two ledgers have the same views and stand at the same cursor.
pub record SameSight (l l' : LegLedger) : Type 0 where
  pub views : l'.views ≡ l.views
  pub cursor_seq : l'.cursor_seq ≡ l.cursor_seq

pub SameSight-refl : (l : LegLedger) → SameSight l l
SameSight-refl l = record { views = refl; cursor_seq = refl }

pub SameSight-trans : {a b c : LegLedger} → SameSight a b → SameSight b c → SameSight a c
SameSight-trans h k = record { views = k.views ∙ h.views; cursor_seq = k.cursor_seq ∙ h.cursor_seq }

cap_doubt-SameSight : (t : ℤ) (l : LegLedger) → SameSight l (cap_doubt t l)
unfolding cap_doubt
cap_doubt-SameSight t l = ground arith

add_credit-SameSight : (s : ℕ) (q : ℤ) (d : Dir) (l : LegLedger) → SameSight l (add_credit s q d l)
unfolding add_credit
add_credit-SameSight s q d l = ground arith

take_journal-SameSight : (q : ℤ) (d : Dir) (l : LegLedger) → SameSight l (take_journal q d l)
unfolding take_journal
take_journal-SameSight q d l = ground arith

note_if-SameSight : (b : Bool) (leg : ℤ) (l : LegLedger) → SameSight l (note_if b leg l)
unfolding note_if note_room
note_if-SameSight true leg l = record { views = refl; cursor_seq = refl }
note_if-SameSight false leg l = SameSight-refl l

walk_own-SameSight :
    (proven : Bool) (t leg : ℤ) (e : LegEvent) (l : LegLedger)
    → SameSight l (walk_own proven t leg e l).0
unfolding walk_own
walk_own-SameSight proven t leg e l =
    SameSight-trans (record { views = refl; cursor_seq = refl })
      (SameSight-trans (cap_doubt-SameSight t _) (note_if-SameSight proven leg _))

take_share-SameSight : (q : ℤ) (d : Dir) (l : LegLedger) → SameSight l (take_share q d l)
unfolding take_share
take_share-SameSight q d l =
    ground (arith, take_journal-SameSight q d (record l { share = (abs l.share -ℤ q) *ᴰ d }))

spend_doubt-SameSight : (q : ℤ) (d : Dir) (l : LegLedger) → SameSight l (spend_doubt q d l)
unfolding spend_doubt add_credit
spend_doubt-SameSight q d l = ground arith

walk_foreign-SameSight :
    (proven : Bool) (t leg : ℤ) (e : LegEvent) (l : LegLedger)
    → SameSight l (walk_foreign proven t leg e l).0
unfolding walk_foreign book_verdict
walk_foreign-SameSight proven t leg e l = SameSight-trans (take_share-SameSight _ _ l) (
    SameSight-trans (spend_doubt-SameSight _ _ _)
      (SameSight-trans (cap_doubt-SameSight t _) (note_if-SameSight proven _ _)))

walk_events-SameSight :
    (proven : Bool) (t leg : ℤ) (es : List LegEvent) (l : LegLedger)
    → SameSight l (walk_events proven t leg es l).0
unfolding walk_events walk_event
walk_events-SameSight proven t leg [] l = SameSight-refl l
walk_events-SameSight proven t leg (e ∷ es) l = elim (Bool-cases e.own) [
  | inl mine ↦ simp mine (
      SameSight-trans (walk_own-SameSight proven t _ e l)
        (walk_events-SameSight proven t (leg +ℤ e.delta) es _))
  | inr foreign ↦ simp foreign (
      SameSight-trans (walk_foreign-SameSight proven t leg e l)
        (walk_events-SameSight proven t (leg +ℤ e.delta) es _))
]

-- What the ledger sees once the cursor has moved onto a view.
pub record SeesFrom (view : View) (l l' : LegLedger) : Type 0 where
  pub cursor_seq : l'.cursor_seq ≡ some view.seq
  pub views : l'.views ≡ keep (λ v. leb view.seq v.seq) l.views

-- A walk leaves the cursor on its view, and drops the views before it.
pub walk-SeesFrom :
    (cursor : ℕ) (view : View) (proven : Bool) (t : ℤ) (l : LegLedger)
    → SeesFrom view l (walk cursor view proven t l).0
unfolding walk close_walk move_onto drop_views
walk-SeesFrom cursor view proven t l =
    let due = due_events cursor view.seq l in
    let walked = walk_events proven t l.cursor_leg due l in
    let moved = move_onto proven t view due walked.0 in
    let closing =
      SameSight-trans (cap_doubt-SameSight t moved) (note_if-SameSight proven view.size _) in
    record {
      cursor_seq = closing.cursor_seq;
      views =
          ap (keep (λ v. leb view.seq v.seq))
            (closing.views ∙ (walk_events-SameSight proven t l.cursor_leg due l).views);
    }

clamp_to-SameSight : (first : View) (t : ℤ) (l : LegLedger) → SameSight l (clamp_to first t l)
unfolding clamp_to take_journal add_credit
clamp_to-SameSight first t l = ground arith

add_doubt-SameSight : (s : ℕ) (q t : ℤ) (l : LegLedger) → SameSight l (add_doubt s q t l)
unfolding add_doubt
add_doubt-SameSight s q t l = elim (Bool-cases (leb_ℤ q t)) [
  | inl small ↦ rw small (SameSight-refl l)
  | inr large ↦
      rw large
        (SameSight-trans (record { views = refl; cursor_seq = refl }) (cap_doubt-SameSight t _))
]

keep_gap-SameSight : (g : LegGap) (t : ℤ) (l : LegLedger) → SameSight l (keep_gap g t l)
unfolding keep_gap add_gap
keep_gap-SameSight g t l = elim (Bool-cases (ltb_ℤ t (abs l.share))) [
  | inl held ↦ rw held (record { views = refl; cursor_seq = refl })
  | inr gone ↦ rw gone (SameSight-refl l)
]

settle_on-SameSight :
    (first : View) (t : ℤ) (g : LegGap) (l : LegLedger) → SameSight l (settle_on first t g l)
unfolding settle_on re_anchor note_room
settle_on-SameSight first t g l = SameSight-trans (clamp_to-SameSight first t l) (
    SameSight-trans (add_doubt-SameSight _ _ t _)
      (SameSight-trans (keep_gap-SameSight g t _) (record { views = refl; cursor_seq = refl })))

-- Giving an interval up moves the cursor onto its first view as well.
pub give_up-SeesFrom :
    (cursor : ℕ) (first : View) (t : ℤ) (l : LegLedger)
    → SeesFrom first l (give_up cursor first t l).0
unfolding give_up
give_up-SeesFrom cursor first t l =
    let numbered = record l { next_ident = suc l.next_ident } in
    let walked = walk-SeesFrom cursor first false t numbered in
    let kept =
      settle_on-SameSight first t (gap_for cursor first l) (walk cursor first false t numbered).0 in
    record { cursor_seq = kept.cursor_seq ∙ walked.cursor_seq; views = kept.views ∙ walked.views }
