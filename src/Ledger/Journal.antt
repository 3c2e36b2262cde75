-- ===== src/Ledger/Journal.antt =====
-- The share against the journal in the walk, in a give-up and in a sync: `AtMost share journal tolerance`.
use pynecore_plugin_bybit.Prelude.{
  ℕ, suc, Bool, true, false, ◌≡◌, List, [], ◌∷◌, arith, if◌then◌else◌, Bool-cases, inl, inr, ◌&&◌,
}
use pynecore_plugin_bybit.Prelude.Int.{
  ℤ, pos, ◌+ℤ◌, ◌-ℤ◌, ◌≤ℤ◌, ◌<ℤ◌, abs, neg, max, ltb_ℤ, int_laws,
}
use pynecore_plugin_bybit.Ledger.State.{
  Dir, up, down, flat, ◌*ᴰ◌, direction, has_side, LegLedger, View, LegEvent,
}
use pynecore_plugin_bybit.Ledger.Share.{bounded, capped, take_journal}
use pynecore_plugin_bybit.Ledger.Record.{sync_at}
use pynecore_plugin_bybit.Ledger.Walk.{
  take_share, walk_own, walk_foreign, walk_event, walk_events, move_onto, close_walk, walk,
}
use pynecore_plugin_bybit.Ledger.Advance.{clamped_part, clamp_to, gap_for, give_up}
use pynecore_plugin_bybit.Ledger.Bounds.{Within, AtMost, bounded-AtMost, capped-Within}
use pynecore_plugin_bybit.Ledger.Frame.{
  SameBook, SameBook-trans, cap_doubt-SameBook, add_credit-SameBook,
}
use pynecore_plugin_bybit.Ledger.Verdict.{
  close_walk-SameBook, note_if-SameBook, book_verdict-SameBook, consumed_by_range, abs_nonneg,
}
use pynecore_plugin_bybit.Ledger.GivingUp.{clamped_part_range, settle_on-SameBook}

-- What the run owns is at most what its journaled fills built, on the same side.
abbrev pub IsBooked : ℕ → LegLedger → Type 0
IsBooked t l = AtMost l.share l.journal (pos t)

pub IsBooked-SameBook : (t : ℕ) (l l' : LegLedger) → SameBook l l' → IsBooked t l → IsBooked t l'
IsBooked-SameBook t l l' s h = rw (s.share, s.journal) h

pub AtMost-Within : (t : ℕ) (a s j : ℤ) → Within a s → AtMost s j (pos t) → AtMost a j (pos t)
AtMost-Within t a s j w h = ground arith

-- What a verdict takes off the share and off the journal alike leaves the bound in place.
pub AtMost-take :
    (t : ℕ) (s j c : ℤ)
    → pos 0 ≤ℤ c
    → c ≤ℤ abs s
    → AtMost s j (pos t)
    → AtMost ((abs s -ℤ c) *ᴰ direction s) (j -ℤ c *ᴰ direction s) (pos t)
unfolding direction abs ◌-ℤ◌ neg
AtMost-take t s j c n le h = ground arith

walk_own-IsBooked :
    (proven : Bool) (t : ℕ) (leg : ℤ) (e : LegEvent) (l : LegLedger)
    → IsBooked t (walk_own proven (pos t) leg e l).0
unfolding walk_own
walk_own-IsBooked proven t leg e l =
    let journal = l.journal +ℤ e.share in
    IsBooked-SameBook t _ _
      (SameBook-trans (cap_doubt-SameBook (pos t) _) (note_if-SameBook proven leg _))
      (elim proven
        as (λ b.
          AtMost
            (if b
              then bounded (capped (l.share +ℤ e.share) leg (pos t)) journal (pos t)
              else bounded (l.share +ℤ e.share) journal (pos t))
            journal (pos t)) [
              | true ↦ bounded-AtMost _ journal t
              | false ↦ bounded-AtMost _ journal t
            ])

pub take_journal_book :
    (q : ℤ) (d : Dir) (l : LegLedger)
    → pos 0 <ℤ q
    → ((take_journal q d l).share ≡ l.share) × ((take_journal q d l).journal ≡ l.journal -ℤ q *ᴰ d)
unfolding take_journal
take_journal_book q up l h = ground arith
take_journal_book q down l h = ground arith
take_journal_book q flat l h = (ground arith, unfold ◌-ℤ◌ in ground arith)

take_share-IsBooked :
    (t : ℕ) (c : ℤ) (l : LegLedger)
    → pos 0 ≤ℤ c
    → c ≤ℤ abs l.share
    → IsBooked t l
    → IsBooked t (take_share c (direction l.share) l)
unfolding take_share
take_share-IsBooked t c l n le h = elim (Bool-cases (ltb_ℤ (pos 0) c)) [
  | inl taken ↦
      let (share, journal) =
        take_journal_book c (direction l.share)
          (record l { share = (abs l.share -ℤ c) *ᴰ direction l.share }) (ground arith) in
      rw (taken, share, journal) (AtMost-take t l.share l.journal c n le h)
  | inr nothing ↦ rw nothing h
]

walk_foreign-IsBooked :
    (proven : Bool) (t : ℕ) (leg : ℤ) (e : LegEvent) (l : LegLedger)
    → IsBooked t l
    → IsBooked t (walk_foreign proven (pos t) leg e l).0
unfolding walk_foreign
walk_foreign-IsBooked proven t leg e l h =
    let range =
      consumed_by_range proven t (direction l.share) e.delta (abs l.share) _ (abs_nonneg l.share) in
    IsBooked-SameBook t _ _ (book_verdict-SameBook proven (pos t) _ _ _ _ l)
      (take_share-IsBooked t _ l range.0 range.1 h)

walk_events-IsBooked :
    (proven : Bool) (t : ℕ) (leg : ℤ) (es : List LegEvent) (l : LegLedger)
    → IsBooked t l
    → IsBooked t (walk_events proven (pos t) leg es l).0
unfolding walk_events walk_event
walk_events-IsBooked proven t leg [] l h = h
walk_events-IsBooked proven t leg (e ∷ es) l h = elim (Bool-cases e.own) [
  | inl mine ↦
      simp mine
        (walk_events-IsBooked proven t (leg +ℤ e.delta) es _ (walk_own-IsBooked proven t _ e l))
  | inr foreign ↦ simp foreign (
      walk_events-IsBooked proven t (leg +ℤ e.delta) es _
        (walk_foreign-IsBooked proven t leg e l h))
]

move_onto-IsBooked :
    (proven : Bool) (t : ℕ) (view : View) (due : List LegEvent) (l : LegLedger)
    → IsBooked t l
    → IsBooked t (move_onto proven (pos t) view due l)
unfolding move_onto
move_onto-IsBooked true t view due l h =
    AtMost-Within t _ l.share l.journal (capped-Within l.share view.size t) h
move_onto-IsBooked false t view due l h = h

close_walk-IsBooked :
    (proven : Bool) (t : ℕ) (view : View) (due : List LegEvent) (l : LegLedger)
    → IsBooked t l
    → IsBooked t (close_walk proven (pos t) view due l)
close_walk-IsBooked proven t view due l h =
    IsBooked-SameBook t _ _ (close_walk-SameBook proven (pos t) view due l)
      (move_onto-IsBooked proven t view due l h)

-- A walk, proven or not, leaves a share that the journal covers.
pub walk-IsBooked :
    (cursor : ℕ) (view : View) (proven : Bool) (t : ℕ) (l : LegLedger)
    → IsBooked t l
    → IsBooked t (walk cursor view proven (pos t) l).0
unfolding walk
walk-IsBooked cursor view proven t l h =
    close_walk-IsBooked proven t view _ _ (walk_events-IsBooked proven t l.cursor_leg _ l h)

clamped_part_held :
    (share leg : ℤ) (t : ℕ)
    → pos 0 <ℤ clamped_part share leg (pos t)
    → (clamped_part share leg (pos t) ≤ℤ abs share)
      × (max (leg *ᴰ direction share) (pos 0) ≡ abs share -ℤ clamped_part share leg (pos t))
unfolding clamped_part
clamped_part_held share leg t h =
    let held = max (leg *ᴰ direction share) (pos 0) in
    elim (Bool-cases (has_side (direction share) && ltb_ℤ (held +ℤ pos t) (abs share))) [
      | inl over ↦ rw over (omega int_laws, omega int_laws)
      | inr fits ↦ absurd (ground arith)
    ]

clamp_to-IsBooked :
    (first : View) (t : ℕ) (l : LegLedger) → IsBooked t l → IsBooked t (clamp_to first (pos t) l)
unfolding clamp_to
clamp_to-IsBooked first t l h =
    let clamped = clamped_part l.share first.size (pos t) in
    let d = direction l.share in
    let held = max (first.size *ᴰ d) (pos 0) in
    elim (Bool-cases (ltb_ℤ (pos 0) clamped)) [
      | inl some_taken ↦
          let (le, same) = clamped_part_held l.share first.size t (ground arith) in
          let (share, journal) =
            take_journal_book clamped d (record l { share = held *ᴰ d }) (ground arith) in
          rw some_taken (
            IsBooked-SameBook t _ _ (add_credit-SameBook first.seq clamped d _) (
              rw (share, journal, same)
                (AtMost-take t l.share l.journal clamped (clamped_part_range l.share first.size t).0
                  le h)))
      | inr nothing ↦ rw nothing h
    ]

-- Giving an interval up books the venue truth: the journal covers the share that is left.
pub give_up-IsBooked :
    (cursor : ℕ) (first : View) (t : ℕ) (l : LegLedger)
    → IsBooked t l
    → IsBooked t (give_up cursor first (pos t) l).0
unfolding give_up
give_up-IsBooked cursor first t l h =
    let numbered = record l { next_ident = suc l.next_ident } in
    IsBooked-SameBook t _ _ (settle_on-SameBook first (pos t) (gap_for cursor first l) _)
      (clamp_to-IsBooked first t _ (walk-IsBooked cursor first false t numbered h))

pub sync_at-IsBooked :
    (cursor : ℕ) (journal : ℤ) (t : ℕ) (l : LegLedger)
    → IsBooked t (sync_at cursor journal (pos t) l)
unfolding sync_at
sync_at-IsBooked cursor journal t l =
    IsBooked-SameBook t _ _ (cap_doubt-SameBook (pos t) _) (bounded-AtMost l.share _ t)
