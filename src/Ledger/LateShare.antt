-- ===== src/Ledger/LateShare.antt =====
-- What `late_own` does to the share and the journal.
use pynecore_plugin_bybit.Prelude.{
  ℕ, ◌≡◌, refl, ◌∙◌, Option, none, some, arith, leb, not, ◌&&◌, ◌==◌,
}
use pynecore_plugin_bybit.Prelude.Int.{
  ℤ, pos, ◌+ℤ◌, ◌-ℤ◌, ◌≤ℤ◌, abs, neg, max, min, ltb_ℤ, int_laws, parts_of_eq,
}
use pynecore_plugin_bybit.Ledger.State.{
  Dir, up, down, flat, ◌*ᴰ◌, direction, has_side, side_of, or_default, LegLedger, LegGap, LegEvent,
}
use pynecore_plugin_bybit.Ledger.Share.{take_journal, add_credit}
use pynecore_plugin_bybit.Ledger.Late.{
  shrunk_part, grown_part, kept_part, free_room, on_gap, join_gap, resolve_doubt, book_gone,
  doubt_kept, charge_gap, lost_gap, raise_gap, ends_on, wanted_share, late_resolved, late_kept,
  late_gone, late_booked, late_own_at,
}
use pynecore_plugin_bybit.Ledger.Bounds.{bounded-AtMost}
use pynecore_plugin_bybit.Ledger.Frame.{
  SameBook, SameBook-trans, SameBook-refl, SameBook-if, cap_doubt-SameBook, add_doubt-SameBook,
  add_gap-SameBook,
}
use pynecore_plugin_bybit.Ledger.Journal.{IsBooked, IsBooked-SameBook, AtMost-take}

-- The parts that the booking takes and builds add up to the share wanted.
parts_make_wanted :
    (before wanted : ℤ)
    → before
        -ℤ shrunk_part before wanted *ᴰ direction before
        +ℤ grown_part before wanted *ᴰ direction wanted
      ≡ wanted
unfolding shrunk_part grown_part direction abs max neg ◌-ℤ◌ ◌+ℤ◌
parts_make_wanted before wanted = ground arith

grown_part_range :
    (before wanted : ℤ)
    → (pos 0 ≤ℤ grown_part before wanted) × (grown_part before wanted ≤ℤ abs wanted)
unfolding grown_part abs max ◌-ℤ◌
grown_part_range before wanted = ground arith

kept_part_range :
    (grown room : ℤ) (t : ℕ)
    → pos 0 ≤ℤ grown
    → (pos 0 ≤ℤ kept_part grown room (pos t)) × (kept_part grown room (pos t) ≤ℤ grown)
unfolding kept_part min max ◌-ℤ◌
kept_part_range grown room t h = ground arith

pub on_gap-SameBook :
    (g : Option LegGap) (f : LegGap → LegGap) (l : LegLedger) → SameBook l (on_gap g f l)
unfolding on_gap
on_gap-SameBook none f l = SameBook-refl l
on_gap-SameBook (some g) f l = record { share = refl; journal = refl; to_net = refl }

free_room-SameBook :
    (blind : ℕ) (e : LegEvent) (q : ℤ) (d : Dir) (l : LegLedger)
    → SameBook l (free_room blind e q d l)
unfolding free_room
free_room-SameBook blind e q d l =
    SameBook-if (ltb_ℤ (pos 0) q && leb e.seq blind)
      (record { share = refl; journal = refl; to_net = refl }) (SameBook-refl l)

resolve_doubt-SameBook :
    (e : LegEvent) (d : Dir) (g : Option LegGap) (l : LegLedger)
    → SameBook l (resolve_doubt e d g l)
unfolding resolve_doubt
resolve_doubt-SameBook e d g l =
    SameBook-if (has_side d && leb e.seq l.doubt_seq)
      (SameBook-trans (record { share = refl; journal = refl; to_net = refl })
        (on_gap-SameBook g _ _))
      (SameBook-refl l)

charge_gap-SameBook :
    (cursor blind : ℕ) (kept : ℤ) (g : Option LegGap) (l : LegLedger)
    → SameBook l (charge_gap cursor blind kept g l)
unfolding charge_gap lost_gap
charge_gap-SameBook cursor blind kept g l =
    SameBook-if (ends_on blind g) (on_gap-SameBook g (raise_gap kept) l) (
      SameBook-trans (record { share = refl; journal = refl; to_net = refl })
        (add_gap-SameBook _ _))

doubt_kept-SameBook :
    (cursor blind : ℕ) (e : LegEvent) (kept : ℤ) (t : ℤ) (g : Option LegGap) (l : LegLedger)
    → SameBook l (doubt_kept cursor blind e kept t g l)
unfolding doubt_kept
doubt_kept-SameBook cursor blind e kept t g l =
    SameBook-if (ltb_ℤ t kept && not (e.seq == blind))
      (SameBook-trans (charge_gap-SameBook cursor blind kept g l)
        (add_doubt-SameBook blind kept t _))
      (SameBook-refl l)

book_gone_book :
    (cursor : ℕ) (grown kept gone : ℤ) (d : Dir) (l : LegLedger)
    → pos 0 ≤ℤ gone
    → gone ≤ℤ grown
    → ((book_gone cursor grown kept gone d l).share ≡ l.share)
      × ((book_gone cursor grown kept gone d l).journal ≡ l.journal -ℤ gone *ᴰ d)
unfolding book_gone take_journal add_credit
book_gone_book cursor grown kept gone up l h k = unfold ◌-ℤ◌ in ground arith
book_gone_book cursor grown kept gone down l h k = unfold ◌-ℤ◌ neg in ground arith
book_gone_book cursor grown kept gone flat l h k = unfold ◌-ℤ◌ in ground arith

late_resolved-SameBook :
    (blind : ℕ) (e : LegEvent) (shrunk : ℤ) (l : LegLedger)
    → SameBook (record l { journal = l.journal +ℤ e.share }) (late_resolved blind e shrunk l)
unfolding late_resolved
late_resolved-SameBook blind e shrunk l =
    SameBook-trans (free_room-SameBook blind e shrunk _ _)
      (SameBook-trans (on_gap-SameBook _ (join_gap e) _) (resolve_doubt-SameBook e _ _ _))

late_gone_range :
    (blind : ℕ) (e : LegEvent) (t : ℕ) (l : LegLedger)
    → (pos 0 ≤ℤ late_gone blind e (pos t) l)
      × (late_gone blind e (pos t) l ≤ℤ grown_part l.share (wanted_share e (pos t) l))
unfolding late_gone late_kept
late_gone_range blind e t l =
    let grown = grown_part_range l.share (wanted_share e (pos t) l) in
    let wanted = wanted_share e (pos t) l in
    let room =
      or_default
        (side_of (late_resolved blind e (shrunk_part l.share wanted) l).room (direction wanted))
        (pos 0) in
    let kept = kept_part_range (grown_part l.share wanted) room t grown.0 in
    (omega (int_laws, kept), omega (int_laws, kept))

-- The share is what the booking wants, less what is gone.
pub abs-direction : (x : ℤ) → x ≡ abs x *ᴰ direction x
unfolding direction abs neg
abs-direction x = ground arith

left_of_whole :
    (x whole grown kept : ℤ) (d : Dir)
    → x +ℤ grown *ᴰ d ≡ whole
    → whole ≡ abs whole *ᴰ d
    → x +ℤ kept *ᴰ d ≡ (abs whole -ℤ (grown -ℤ kept)) *ᴰ d
left_of_whole x whole grown kept up h w = omega (int_laws, parts_of_eq h, parts_of_eq w)
left_of_whole x whole grown kept down h w = omega (int_laws, parts_of_eq h, parts_of_eq w)
left_of_whole x whole grown kept flat h w = h ∙ w

share_left :
    (before wanted kept : ℤ)
    → before -ℤ shrunk_part before wanted *ᴰ direction before +ℤ kept *ᴰ direction wanted
      ≡ (abs wanted -ℤ (grown_part before wanted -ℤ kept)) *ᴰ direction wanted
share_left before wanted kept =
    left_of_whole _ wanted (grown_part before wanted) kept (direction wanted)
      (parts_make_wanted before wanted) (abs-direction wanted)

late_booked_share :
    (cursor blind : ℕ) (e : LegEvent) (t : ℕ) (l : LegLedger)
    → let wanted = wanted_share e (pos t) l in
      (late_booked cursor blind e (pos t) l).share
      ≡ (abs wanted -ℤ late_gone blind e (pos t) l) *ᴰ direction wanted
unfolding late_booked late_gone
late_booked_share cursor blind e t l =
    share_left l.share (wanted_share e (pos t) l) (late_kept blind e (pos t) l)

late_booked_journal :
    (cursor blind : ℕ) (e : LegEvent) (t : ℕ) (l : LegLedger)
    → (late_booked cursor blind e (pos t) l).journal
      ≡ l.journal +ℤ e.share -ℤ late_gone blind e (pos t) l *ᴰ direction (wanted_share e (pos t) l)
unfolding late_booked
late_booked_journal cursor blind e t l =
    let range = late_gone_range blind e t l in
    let wanted = wanted_share e (pos t) l in
    let resolved = late_resolved blind e (shrunk_part l.share wanted) l in
    rw
      (
        (book_gone_book cursor (grown_part l.share wanted) (late_kept blind e (pos t) l)
            (late_gone blind e (pos t) l) (direction wanted) resolved range.0 range.1).1,
        (late_resolved-SameBook blind e (shrunk_part l.share wanted) l).journal,
      )
      refl

-- A late own execution leaves a share that the journal covers.
pub late_own_at-IsBooked :
    (cursor blind : ℕ) (e : LegEvent) (t : ℕ) (l : LegLedger)
    → IsBooked t (late_own_at cursor blind e (pos t) l).0
unfolding late_own_at
late_own_at-IsBooked cursor blind e t l =
    let wanted = wanted_share e (pos t) l in
    let range = late_gone_range blind e t l in
    let grown = grown_part_range l.share wanted in
    IsBooked-SameBook t _ _
      (SameBook-trans (doubt_kept-SameBook cursor blind e _ (pos t) _ _)
        (cap_doubt-SameBook (pos t) _))
      (rw (late_booked_share cursor blind e t l, late_booked_journal cursor blind e t l)
        (AtMost-take t wanted (l.journal +ℤ e.share) (late_gone blind e (pos t) l) range.0
          (omega (arith, range, grown)) (unfold wanted_share in bounded-AtMost _ _ t)))
