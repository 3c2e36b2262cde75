-- ===== src/Ledger/Kept.antt =====
-- The share against the journal, operation by operation.
use mathlib.Core.Path.{subst}
use pynecore_plugin_bybit.Prelude.{
  ℕ, zero, suc, Bool, true, false, ◌≡◌, refl, Option, none, some, List, [], ◌∷◌, arith,
  if◌then◌else◌, Bool-cases, inl, inr, not, ◌||◌,
}
use pynecore_plugin_bybit.Prelude.Int.{
  ℤ, pos, ◌+ℤ◌, ◌-ℤ◌, ◌<ℤ◌, abs, neg, max, ltb_ℤ, leb_ℤ, int_laws,
}
use pynecore_plugin_bybit.Ledger.State.{
  ◌*ᴰ◌, direction, has_side, LegLedger, View, LegEvent, LegOutcome,
}
use pynecore_plugin_bybit.Ledger.Share.{capped, note_room, own_beyond}
use pynecore_plugin_bybit.Ledger.Record.{
  add_view, add_event, anchor_at, start_clamp, start_booked, start_gap, start_at, start_on, sync_on,
}
use pynecore_plugin_bybit.Ledger.Late.{late_own_at, late_own_on, late_foreign, on_gap}
use pynecore_plugin_bybit.Ledger.Advance.{
  Round, stop, again, judge_views, judge_at, go_on, prepend, judge_round, judge_target,
  wait_or_give_up, prove, settle_if, advance_at, advance, later_views,
}
use pynecore_plugin_bybit.Ledger.Bounds.{AtMost, capped-Within}
use pynecore_plugin_bybit.Ledger.Frame.{
  SameBook, SameBook-trans, SameBook-refl, SameBook-if, add_credit-SameBook, add_doubt-SameBook,
  add_gap-SameBook, note_room-SameBook,
}
use pynecore_plugin_bybit.Ledger.Settling.{settle_gaps-SameBook}
use pynecore_plugin_bybit.Ledger.Journal.{
  IsBooked, IsBooked-SameBook, AtMost-take, AtMost-Within, take_journal_book, walk-IsBooked,
  give_up-IsBooked, sync_at-IsBooked,
}
use pynecore_plugin_bybit.Ledger.LateShare.{late_own_at-IsBooked}

-- The rounds of `advance`.
abbrev Kept : ℕ → Round → Type 0
Kept t (stop l) = IsBooked t l
Kept t (again l _) = IsBooked t l

abbrev KeptAnswer : ℕ → Option (LegLedger × List LegOutcome) → Type 0
KeptAnswer t none = Unit
KeptAnswer t (some r) = IsBooked t r.0

prepend-Kept :
    (t : ℕ) (os : List LegOutcome) (o : Option (LegLedger × List LegOutcome))
    → KeptAnswer t o
    → KeptAnswer t (prepend os o)
prepend-Kept t os none h = tt
prepend-Kept t os (some r) h = h

wait_or_give_up-Kept :
    (now grace : ℤ) (t c : ℕ) (first : View) (l : LegLedger)
    → IsBooked t l
    → Kept t (wait_or_give_up now grace (pos t) c first l)
unfolding wait_or_give_up
wait_or_give_up-Kept now grace t c first l h =
    let since : ℤ = elim l.gap_since [ none ↦ now | some s ↦ s ] in
    elim (Bool-cases (ltb_ℤ (now -ℤ since) grace)) [
      | inl waits ↦ rw waits h
      | inr overdue ↦ rw overdue (give_up-IsBooked c first t (record l { gap_since = none }) h)
    ]

judge_target-Kept :
    (now grace : ℤ) (t c : ℕ) (first : View) (target : Option View) (l : LegLedger)
    → IsBooked t l
    → Kept t (judge_target now grace (pos t) c first target l)
unfolding judge_target prove
judge_target-Kept now grace t c first none l h = wait_or_give_up-Kept now grace t c first l h
judge_target-Kept now grace t c first (some v) l h =
    walk-IsBooked c v true t (record l { gap_since = none }) h

judge_round-Kept :
    (now grace : ℤ) (t : ℕ) (known : ℕ → Bool) (provable : Bool) (c : ℕ) (l : LegLedger)
    (vs : List View)
    → IsBooked t l
    → Kept t (judge_round now grace (pos t) known provable c l vs)
unfolding judge_round
judge_round-Kept now grace t known provable c l [] h = h
judge_round-Kept now grace t known provable c l (v ∷ vs) h = judge_target-Kept now grace t c v _ l h

go_on-Kept :
    (t : ℕ) (next : LegLedger → Option (LegLedger × List LegOutcome)) (r : Round)
    → ((l' : LegLedger) → IsBooked t l' → KeptAnswer t (next l'))
    → Kept t r
    → KeptAnswer t (go_on next r)
unfolding go_on
go_on-Kept t next (stop l') ih k = k
go_on-Kept t next (again l' os) ih k = prepend-Kept t os (next l') (ih l' k)

judge_at-Kept :
    (next : LegLedger → Option (LegLedger × List LegOutcome)) (now grace : ℤ) (t : ℕ)
    → (known : ℕ → Bool) (provable : Bool) (at : Option ℕ) (l : LegLedger)
    → ((l' : LegLedger) → IsBooked t l' → KeptAnswer t (next l'))
    → IsBooked t l
    → KeptAnswer t (judge_at next now grace (pos t) known provable at l)
unfolding judge_at
judge_at-Kept next now grace t known provable none l ih h = h
judge_at-Kept next now grace t known provable (some c) l ih h =
    go_on-Kept t next _ ih (judge_round-Kept now grace t known provable c l (later_views c l) h)

judge_views-Kept :
    (fuel : ℕ) (now grace : ℤ) (t : ℕ) (known : ℕ → Bool) (provable : Bool) (l : LegLedger)
    → IsBooked t l
    → KeptAnswer t (judge_views fuel now grace (pos t) known provable l)
unfolding judge_views
judge_views-Kept zero now grace t known provable l h = tt
judge_views-Kept (suc fuel) now grace t known provable l h =
    judge_at-Kept (judge_views fuel now grace (pos t) known provable) now grace t known provable
      l.cursor_seq l (judge_views-Kept fuel now grace t known provable) h

settle_if-SameBook :
    (provable : Bool) (known : ℕ → Bool) (t : ℤ) (l : LegLedger)
    → SameBook l (settle_if provable known t l).0
unfolding settle_if
settle_if-SameBook true known t l = settle_gaps-SameBook known t l
settle_if-SameBook false known t l = SameBook-refl l

advance_at-Kept :
    (now grace : ℤ) (t : ℕ) (known : ℕ → Bool) (provable : Bool) (at : Option ℕ) (l : LegLedger)
    → IsBooked t l
    → KeptAnswer t (advance_at now grace (pos t) known provable at l)
unfolding advance_at
advance_at-Kept now grace t known provable none l h = h
advance_at-Kept now grace t known provable (some c) l h = prepend-Kept t _ _ (
    judge_views-Kept _ now grace t known provable _
      (IsBooked-SameBook t _ _ (settle_if-SameBook provable known (pos t) l) h))

pub advance-IsBooked :
    (now grace : ℤ) (t : ℕ) (known : ℕ → Bool) (provable : Bool) (l : LegLedger)
    → (r : LegLedger × List LegOutcome) → advance now grace (pos t) known provable l ≡ some r
    → IsBooked t l
    → IsBooked t r.0
unfolding advance
advance-IsBooked now grace t known provable l r e h =
    rw e at (advance_at-Kept now grace t known provable l.cursor_seq l h)

-- The anchor: the share is what the view holds of the journal share.
AtMost-self : (t : ℕ) (s : ℤ) → AtMost s s (pos t)
AtMost-self t s = ground arith

anchor_at-IsBooked :
    (view : View) (share : ℤ) (t : ℕ) (l : LegLedger) → IsBooked t (anchor_at view share (pos t) l)
unfolding anchor_at
anchor_at-IsBooked view share t l =
    IsBooked-SameBook t _ _ (note_room-SameBook view.size (capped share view.size (pos t)) _)
      (AtMost-Within t _ share share (capped-Within share view.size t) (AtMost-self t share))

capped-direction :
    (s leg : ℤ) (t : ℕ) → capped s leg (pos t) ≡ abs (capped s leg (pos t)) *ᴰ direction s
unfolding capped direction abs neg ◌+ℤ◌ max
capped-direction s leg t = ground arith

anchored_take :
    (view : View) (share : ℤ) (t : ℕ) (l : LegLedger)
    → pos 0 <ℤ start_clamp view share (pos t)
    → AtMost
        (anchor_at view share (pos t) l).share
        ((anchor_at view share (pos t) l).journal
          -ℤ start_clamp view share (pos t) *ᴰ direction share)
        (pos t)
unfolding anchor_at note_room
anchored_take view share t l h =
    let held = capped share view.size (pos t) in
    let clamped = start_clamp view share (pos t) in
    let rest : abs share -ℤ clamped ≡ abs held = unfold start_clamp in omega int_laws in
    let booked =
      AtMost-take t share share clamped (omega arith) (unfold start_clamp in omega int_laws)
        (AtMost-self t share) in
    rw (capped-direction share view.size t) (rw rest at booked)

start_booked-IsBooked :
    (view : View) (share : ℤ) (t : ℕ) (l : LegLedger)
    → pos 0 <ℤ start_clamp view share (pos t)
    → IsBooked t (start_booked view share (pos t) l)
unfolding start_booked
start_booked-IsBooked view share t l h =
    let anchored = anchor_at view share (pos t) l in
    let clamped = start_clamp view share (pos t) in
    let d = direction share in
    IsBooked-SameBook t _ _
      (SameBook-trans (add_doubt-SameBook view.seq (abs anchored.share) (pos t) _)
        (add_credit-SameBook view.seq clamped d _))
      (rw ((take_journal_book clamped d anchored h).0, (take_journal_book clamped d anchored h).1)
        (anchored_take view share t l h))

start_kept-IsBooked :
    (view : View) (share : ℤ) (t : ℕ) (l : LegLedger)
    → pos 0 <ℤ start_clamp view share (pos t)
    → IsBooked t (
        let booked = start_booked view share (pos t) l in
        if ltb_ℤ (pos 0) booked.doubt then start_gap view booked else booked)
unfolding start_gap
start_kept-IsBooked view share t l h =
    let booked = start_booked view share (pos t) l in
    IsBooked-SameBook t booked _
      (SameBook-if (ltb_ℤ (pos 0) booked.doubt)
        (SameBook-trans (record { share = refl; journal = refl; to_net = refl })
          (add_gap-SameBook _ _))
        (SameBook-refl booked))
      (start_booked-IsBooked view share t l h)

start_at-IsBooked :
    (view : View) (journal : ℤ) (t : ℕ) (l : LegLedger)
    → IsBooked t (start_at view journal (pos t) l).0
unfolding start_at
start_at-IsBooked view journal t l =
    let share = journal -ℤ own_beyond view.seq l in
    let clamped = start_clamp view share (pos t) in
    elim (Bool-cases (not (has_side (direction share)) || leb_ℤ clamped (pos t))) [
      | inl fits ↦ rw fits (anchor_at-IsBooked view share t l)
      | inr over ↦ rw over (start_kept-IsBooked view share t l (ground arith))
    ]

pub start_on-IsBooked :
    (view : Option View) (journal : ℤ) (t : ℕ) (l : LegLedger)
    → IsBooked t l
    → IsBooked t (start_on view journal (pos t) l).0
unfolding start_on
start_on-IsBooked none journal t l h = h
start_on-IsBooked (some v) journal t l h = start_at-IsBooked v journal t l

pub sync_on-IsBooked :
    (cursor : Option ℕ) (journal : ℤ) (t : ℕ) (l : LegLedger)
    → IsBooked t l
    → IsBooked t (sync_on cursor journal (pos t) l)
unfolding sync_on
sync_on-IsBooked none journal t l h = h
sync_on-IsBooked (some c) journal t l h = sync_at-IsBooked c journal t l

pub add_view-IsBooked :
    (seq : ℕ) (size : ℤ) (updated : Option ℕ) (t : ℕ) (l : LegLedger)
    → IsBooked t l
    → IsBooked t (add_view seq size updated l)
unfolding add_view
add_view-IsBooked seq size updated t l h = ground arith

pub add_event-IsBooked :
    (e : LegEvent) (t : ℕ) (l : LegLedger) → IsBooked t l → IsBooked t (add_event e l).0
unfolding add_event
add_event-IsBooked e t l h = ground arith

pub late_own_on-IsBooked :
    (cursor blind : Option ℕ) (e : LegEvent) (t : ℕ) (l : LegLedger)
    → (r : LegLedger × Option LegOutcome) → late_own_on cursor blind e (pos t) l ≡ some r
    → IsBooked t r.0
unfolding late_own_on
late_own_on-IsBooked none blind e t l r h = cc
late_own_on-IsBooked (some c) none e t l r h = cc
late_own_on-IsBooked (some c) (some b) e t l r h =
    let same : late_own_at c b e (pos t) l ≡ r = cc in
    subst (λ (x : LegLedger × Option LegOutcome). IsBooked t x.0) same
      (late_own_at-IsBooked c b e t l)

pub late_foreign-IsBooked :
    (e : LegEvent) (t : ℕ) (l : LegLedger) → IsBooked t l → IsBooked t (late_foreign e l).0
unfolding late_foreign on_gap
late_foreign-IsBooked e t l h = ground arith
