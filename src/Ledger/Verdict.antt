-- ===== src/Ledger/Verdict.antt =====
-- What `_walk` decides, and how its decisions move the share, the journal and the nettings due.
use pynecore_plugin_bybit.Prelude.{
  ℕ, Bool, true, false, ◌≡◌, refl, ap, sym, ◌∙◌, List, [], ◌∷◌, ◌++◌, arith, if◌then◌else◌,
  Bool-cases, inl, inr,
}
use pynecore_plugin_bybit.Prelude.Int.{
  ℤ, pos, ◌+ℤ◌, ◌-ℤ◌, ◌≤ℤ◌, ◌<ℤ◌, abs, min, max, int_laws, ltb_ℤ, +ℤ_parts, eq_of_parts,
  parts_of_eq,
}
use pynecore_plugin_bybit.Ledger.State.{Dir, flat, has_side, LegLedger, View, LegEvent, LegOutcome}
use pynecore_plugin_bybit.Ledger.Share.{cap_doubt}
use pynecore_plugin_bybit.Ledger.Walk.{
  consumed_by, note_if, take_share, spend_doubt, book_verdict, walk_own, walk_foreign, walk_event,
  walk_events, move_onto, drop_views, close_walk, due_events, walk,
}
use pynecore_plugin_bybit.Ledger.Frame.{
  SameBook, SameBook-trans, SameBook-if, SameBook-refl, cap_doubt-SameBook, add_credit-SameBook,
  note_room-SameBook, gross, total_due, gross-take_journal, total_due-take_journal,
}

-- What a list of outcomes took of the share. A settled verdict was booked by its give-up.
unfoldable pub sum_consumed : List LegOutcome → ℤ
sum_consumed [] = pos 0
sum_consumed (o ∷ os) = (if o.settled then pos 0 else o.consumed) +ℤ sum_consumed os

-- the journal change of the own executions of a list
unfoldable pub sum_own : List LegEvent → ℤ
sum_own [] = pos 0
sum_own (e ∷ es) = (if e.own then e.share else pos 0) +ℤ sum_own es

pub +ℤ_zero : (x : ℤ) → x +ℤ pos 0 ≡ x
+ℤ_zero x = omega int_laws

pub abs_nonneg : (x : ℤ) → pos 0 ≤ℤ abs x
abs_nonneg x = omega int_laws

pub consumed_by_range :
    (proven : Bool) (t : ℕ) (d : Dir) (delta share leg : ℤ)
    → pos 0 ≤ℤ share
    → (pos 0 ≤ℤ consumed_by proven (pos t) d delta share leg)
      × (consumed_by proven (pos t) d delta share leg ≤ℤ share)
unfolding consumed_by min max ◌-ℤ◌
consumed_by_range proven t d delta share leg h = ground arith

pub gross-SameBook : (l l' : LegLedger) → SameBook l l' → gross l' ≡ gross l
unfolding gross
gross-SameBook l l' h = cc (h.journal, h.to_net)

pub total_due-SameBook : (l l' : LegLedger) → SameBook l l' → total_due l' ≡ total_due l
unfolding total_due
total_due-SameBook l l' h = cc (h.to_net)

pub note_if-SameBook : (b : Bool) (leg : ℤ) (l : LegLedger) → SameBook l (note_if b leg l)
unfolding note_if
note_if-SameBook b leg l = SameBook-if b (note_room-SameBook leg _ l) (SameBook-refl l)

-- An own execution books its journal change, whatever the leg holds.
walk_own-SameBook :
    (proven : Bool) (t leg : ℤ) (e : LegEvent) (l : LegLedger)
    → (share : ℤ) × SameBook
        (record l { journal = l.journal +ℤ e.share; share = share })
        (walk_own proven t leg e l).0
unfolding walk_own
walk_own-SameBook proven t leg e l =
    (_, SameBook-trans (cap_doubt-SameBook t _) (note_if-SameBook proven leg _))

gross-walk_own :
    (proven : Bool) (t leg : ℤ) (e : LegEvent) (l : LegLedger)
    → gross (walk_own proven t leg e l).0 ≡ gross l +ℤ e.share
gross-walk_own proven t leg e l =
    let (share, same) = walk_own-SameBook proven t leg e l in
    gross-SameBook _ _ same ∙ (unfold gross in omega int_laws)

total_due-walk_own :
    (proven : Bool) (t leg : ℤ) (e : LegEvent) (l : LegLedger)
    → total_due (walk_own proven t leg e l).0 ≡ total_due l
total_due-walk_own proven t leg e l =
    let (share, same) = walk_own-SameBook proven t leg e l in
    total_due-SameBook _ _ same ∙ (unfold total_due in refl)

pub spend_doubt-SameBook : (q : ℤ) (d : Dir) (l : LegLedger) → SameBook l (spend_doubt q d l)
unfolding spend_doubt
spend_doubt-SameBook q d l =
    SameBook-if (ltb_ℤ (pos 0) q)
      (SameBook-trans (record { share = refl; journal = refl; to_net = refl })
        (add_credit-SameBook _ q d _))
      (SameBook-refl l)

pub book_verdict-SameBook :
    (proven : Bool) (t leg consumed doubtful : ℤ) (d : Dir) (l : LegLedger)
    → SameBook (take_share consumed d l) (book_verdict proven t leg consumed doubtful d l)
unfolding book_verdict
book_verdict-SameBook proven t leg consumed doubtful d l =
    SameBook-trans (spend_doubt-SameBook doubtful d _)
      (SameBook-trans (cap_doubt-SameBook t _) (note_if-SameBook proven leg _))

gross-take_share : (q : ℤ) (d : Dir) (l : LegLedger) → gross (take_share q d l) ≡ gross l
unfolding take_share
gross-take_share q d l = elim (Bool-cases (ltb_ℤ (pos 0) q)) [
  | inl some_taken ↦ rw some_taken (gross-take_journal q d _ ∙ (unfold gross in refl))
  | inr nothing ↦ rw nothing
]

pub total_due-take_share :
    (q : ℤ) (d : Dir) (l : LegLedger)
    → pos 0 ≤ℤ q
    → (pos 0 <ℤ q → has_side d ≡ true)
    → total_due (take_share q d l) ≡ total_due l +ℤ q
unfolding take_share
total_due-take_share q d l h s = elim (Bool-cases (ltb_ℤ (pos 0) q)) [
  | inl some_taken ↦
      rw some_taken (total_due-take_journal q d _ h (s (ground arith)) ∙ (unfold total_due in refl))
  | inr nothing ↦ rw nothing (eq_of_parts _ _ (ground (arith, +ℤ_parts (total_due l) q)))
]

consumed_by_side :
    (proven : Bool) (t : ℤ) (d : Dir) (delta share leg : ℤ)
    → pos 0 <ℤ consumed_by proven t d delta share leg
    → has_side d ≡ true
unfolding consumed_by
consumed_by_side proven t flat delta share leg h = ground arith
consumed_by_side proven t _ delta share leg h = refl

-- A verdict moves what it takes from the journal to the nettings due.
gross-walk_foreign :
    (proven : Bool) (t leg : ℤ) (e : LegEvent) (l : LegLedger)
    → gross (walk_foreign proven t leg e l).0 ≡ gross l
unfolding walk_foreign
gross-walk_foreign proven t leg e l =
    gross-SameBook _ _ (book_verdict-SameBook proven t _ _ _ _ l) ∙ gross-take_share _ _ l

total_due-walk_foreign :
    (proven : Bool) (t : ℕ) (leg : ℤ) (e : LegEvent) (l : LegLedger)
    → total_due (walk_foreign proven (pos t) leg e l).0
      ≡ total_due l +ℤ sum_consumed (walk_foreign proven (pos t) leg e l).1
unfolding walk_foreign sum_consumed
total_due-walk_foreign proven t leg e l =
    total_due-SameBook _ _ (book_verdict-SameBook proven (pos t) _ _ _ _ l)
    ∙ total_due-take_share _ _ l (consumed_by_range proven t _ _ _ _ (abs_nonneg l.share)).0
        (consumed_by_side proven (pos t) _ _ _ _)
    ∙ ap (λ x. total_due l +ℤ x) (sym (+ℤ_zero _))

pub close_walk-SameBook :
    (proven : Bool) (t : ℤ) (view : View) (due : List LegEvent) (l : LegLedger)
    → SameBook (move_onto proven t view due l) (close_walk proven t view due l)
unfolding close_walk drop_views
close_walk-SameBook proven t view due l =
    let capped' = cap_doubt-SameBook t (move_onto proven t view due l) in
    let noted = note_if-SameBook proven view.size (cap_doubt t (move_onto proven t view due l)) in
    record {
      share = noted.share ∙ capped'.share;
      journal = noted.journal ∙ capped'.journal;
      to_net = noted.to_net ∙ capped'.to_net;
    }

pub gross-close_walk :
    (proven : Bool) (t : ℤ) (view : View) (due : List LegEvent) (l : LegLedger)
    → gross (close_walk proven t view due l) ≡ gross l
gross-close_walk proven t view due l =
    gross-SameBook _ _ (close_walk-SameBook proven t view due l) ∙ (unfold gross move_onto in refl)

pub total_due-close_walk :
    (proven : Bool) (t : ℤ) (view : View) (due : List LegEvent) (l : LegLedger)
    → total_due (close_walk proven t view due l) ≡ total_due l
total_due-close_walk proven t view due l =
    total_due-SameBook _ _ (close_walk-SameBook proven t view due l)
    ∙ (unfold total_due move_onto in refl)

pub sum_consumed-append :
    (os qs : List LegOutcome) → sum_consumed (os ++ qs) ≡ sum_consumed os +ℤ sum_consumed qs
unfolding sum_consumed
sum_consumed-append [] qs = omega int_laws
sum_consumed-append (o ∷ os) qs = omega (int_laws, parts_of_eq (sum_consumed-append os qs))

sum_consumed-if :
    (b : Bool) (o : LegOutcome)
    → o.consumed ≡ pos 0
    → sum_consumed (if b then o ∷ [] else []) ≡ pos 0
unfolding sum_consumed
sum_consumed-if true o h = elim (Bool-cases o.settled) [
  | inl s ↦ simp s (+ℤ_zero (pos 0))
  | inr s ↦ simp (s, h) (+ℤ_zero (pos 0))
]
sum_consumed-if false o h = refl

sum_consumed-walk_own :
    (proven : Bool) (t leg : ℤ) (e : LegEvent) (l : LegLedger)
    → sum_consumed (walk_own proven t leg e l).1 ≡ pos 0
unfolding walk_own
sum_consumed-walk_own proven t leg e l = sum_consumed-if _ _ refl

gross-walk_event :
    (proven : Bool) (t leg : ℤ) (e : LegEvent) (l : LegLedger)
    → gross (walk_event proven t leg e l).0 ≡ gross l +ℤ (if e.own then e.share else pos 0)
unfolding walk_event
gross-walk_event proven t leg e l = elim (Bool-cases e.own) [
  | inl mine ↦ simp mine (gross-walk_own proven t _ e l)
  | inr foreign ↦ simp foreign (gross-walk_foreign proven t leg e l ∙ sym (+ℤ_zero _))
]

total_due-walk_event :
    (proven : Bool) (t : ℕ) (leg : ℤ) (e : LegEvent) (l : LegLedger)
    → total_due (walk_event proven (pos t) leg e l).0
      ≡ total_due l +ℤ sum_consumed (walk_event proven (pos t) leg e l).1
unfolding walk_event
total_due-walk_event proven t leg e l = elim (Bool-cases e.own) [
  | inl mine ↦ simp mine (
      total_due-walk_own proven (pos t) _ e l
      ∙ sym (+ℤ_zero _)
      ∙ ap (λ x. total_due l +ℤ x)
          (sym (sum_consumed-walk_own proven (pos t) (leg +ℤ e.delta) e l)))
  | inr foreign ↦ simp foreign (total_due-walk_foreign proven t leg e l)
]

pub gross-walk_events :
    (proven : Bool) (t leg : ℤ) (es : List LegEvent) (l : LegLedger)
    → gross (walk_events proven t leg es l).0 ≡ gross l +ℤ sum_own es
unfolding walk_events sum_own
gross-walk_events proven t leg [] l = sym (+ℤ_zero _)
gross-walk_events proven t leg (e ∷ es) l = omega (
  int_laws,
  parts_of_eq (gross-walk_events proven t (leg +ℤ e.delta) es (walk_event proven t leg e l).0),
  parts_of_eq (gross-walk_event proven t leg e l),
)

pub total_due-walk_events :
    (proven : Bool) (t : ℕ) (leg : ℤ) (es : List LegEvent) (l : LegLedger)
    → total_due (walk_events proven (pos t) leg es l).0
      ≡ total_due l +ℤ sum_consumed (walk_events proven (pos t) leg es l).1
unfolding walk_events
total_due-walk_events proven t leg [] l = unfold sum_consumed in sym (+ℤ_zero _)
total_due-walk_events proven t leg (e ∷ es) l =
    let l' = walk_event proven (pos t) leg e l in
    let rest = walk_events proven (pos t) (leg +ℤ e.delta) es l'.0 in
    omega (
      int_laws,
      parts_of_eq (total_due-walk_events proven t (leg +ℤ e.delta) es l'.0),
      parts_of_eq (total_due-walk_event proven t leg e l),
      parts_of_eq (sum_consumed-append l'.1 rest.1),
    )

-- The walk moves the journal by the own executions it applies and by nothing else: what the
-- verdicts took off it is due to be netted from the rows.
pub gross-walk :
    (cursor : ℕ) (view : View) (proven : Bool) (t : ℤ) (l : LegLedger)
    → gross (walk cursor view proven t l).0 ≡ gross l +ℤ sum_own (due_events cursor view.seq l)
unfolding walk
gross-walk cursor view proven t l =
    gross-close_walk proven t view _ _ ∙ gross-walk_events proven t l.cursor_leg _ l

-- What the outcomes of a walk took of the share is, to the unit, what the rows must still lose.
pub total_due-walk :
    (cursor : ℕ) (view : View) (proven : Bool) (t : ℕ) (l : LegLedger)
    → total_due (walk cursor view proven (pos t) l).0
      ≡ total_due l +ℤ sum_consumed (walk cursor view proven (pos t) l).1
unfolding walk
total_due-walk cursor view proven t l =
    total_due-close_walk proven (pos t) view _ _ ∙ total_due-walk_events proven t l.cursor_leg _ l
