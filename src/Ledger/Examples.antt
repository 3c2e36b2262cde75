-- ===== src/Ledger/Examples.antt =====
-- A leg at work on concrete values: five units of the run's on the leg, one of them in doubt, two
-- taken by a foreign execution that a later view proves.
use pynecore_plugin_bybit.Prelude.{
  ℕ, Bool, true, false, ◌≡◌, refl, ◌⊎◌, none, some, Option, List, [], ◌∷◌, arith,
}
use pynecore_plugin_bybit.Prelude.Int.{ℤ, pos, negsuc, ◌+ℤ◌, ◌≤ℤ◌, ◌<ℤ◌, abs, max, min}
use pynecore_plugin_bybit.Ledger.Limits.{IsLimited, add_limits, sum_doubts-add_gap}
use pynecore_plugin_bybit.Ledger.Share.{add_credit, add_gap}
use pynecore_plugin_bybit.Ledger.Advance.{sum_doubts}
use pynecore_plugin_bybit.Ledger.State.{Dir, LegGap}
use pynecore_plugin_bybit.Ledger.State.{
  ◌*ᴰ◌, direction, LegLedger, View, LegEvent, LegOutcome, venue, unset, new_ledger,
}
use pynecore_plugin_bybit.Ledger.Record.{add_view, add_event, start, take_to_net, sync_at}
use pynecore_plugin_bybit.Ledger.Walk.{
  walk, walk_foreign, due_events, close_walk, drop_views, note_if, move_onto, walk_events,
  walk_event, book_verdict, take_share, spend_doubt, consumed_by, doubtful_of, erase_events,
}
use pynecore_plugin_bybit.Ledger.Share.{note_room, cap_doubt}
use pynecore_plugin_bybit.Ledger.Late.{late_own_at}
use pynecore_plugin_bybit.Ledger.Advance.{advance, give_up}
use pynecore_plugin_bybit.Ledger.Reach.{
  view_added, event_added, anchored, netting_taken, Reach, fresh, next, Reach-IsBooked,
}
use pynecore_plugin_bybit.Ledger.Frame.{gross, total_due}
use pynecore_plugin_bybit.Ledger.Verdict.{sum_consumed, sum_own, gross-walk}
use pynecore_plugin_bybit.Ledger.Netting.{advance_netted}
use pynecore_plugin_bybit.Ledger.Charge.{Every, IsCharged, walk-IsCharged, foreign_reduce_share}
use pynecore_plugin_bybit.Ledger.Doubt.{IsDoubtHeld, doubt_within_share, give_up_keeps_doubt}
use pynecore_plugin_bybit.Ledger.Journal.{IsBooked}

abbrev anchor_view : View
anchor_view = record { seq = 10; size = pos 5 }

abbrev flat_view : View
flat_view = record { seq = 12; size = pos 0 }

abbrev foreign_close : LegEvent
foreign_close = record {
  exec_id = "f1";
  seq = 11;
  delta = negsuc 1;
  own = false;
  share = pos 0;
  credit = pos 0;
  origin = venue;
  entry = none;
}

abbrev own_fill : LegEvent
own_fill = record {
  exec_id = "o1";
  seq = 9;
  delta = pos 1;
  own = true;
  share = pos 1;
  credit = pos 0;
  origin = unset;
  entry = none;
}

-- anchored on five units, with a foreign close of two in evidence and the view that proves it
abbrev worked : LegLedger
worked = record new_ledger {
  views = record { seq = 11; size = pos 3 } ∷ [];
  events = foreign_close ∷ [];
  cursor_seq = some 10;
  anchor_seq = some 10;
  blind_seq = some 10;
  cursor_leg = pos 5;
  share = pos 5;
  journal = pos 5;
  latest_view_seq = 11;
  doubt = pos 1;
  doubt_seq = 10;
}

worked_steps :
    Reach 0
      (take_to_net
        (add_event foreign_close
          (start (pos 5) (pos 0) (add_view 10 (pos 5) none new_ledger)).0).0).0
worked_steps =
    next
      (next (next (next fresh (view_added 10 (pos 5) none _)) (anchored (pos 5) _))
        (event_added foreign_close _))
      (netting_taken _)

Reach-IsBooked_example :
    IsBooked 0
      (take_to_net
        (add_event foreign_close
          (start (pos 5) (pos 0) (add_view 10 (pos 5) none new_ledger)).0).0).0
Reach-IsBooked_example = Reach-IsBooked worked_steps

advance_netted_example :
    (r : LegLedger × List LegOutcome) × (advance (pos 100) (pos 5) (pos 0) (λ _. true) true worked
      ≡ some r)
    × (total_due r.0 ≡ total_due worked +ℤ sum_consumed r.1)
advance_netted_example = advance_netted (pos 100) (pos 5) 0 (λ _. true) true worked

walk-IsCharged_example :
    Every (IsCharged 0) (walk 10 (record { seq = 11; size = pos 3 }) true (pos 0) worked).1
walk-IsCharged_example = walk-IsCharged 10 (record { seq = 11; size = pos 3 }) true 0 worked

foreign_reduce_share_example :
    let held = max ((pos 5 +ℤ foreign_close.delta) *ᴰ direction worked.share) (pos 0) in
    let after = (walk_foreign true (pos 0) (pos 5) foreign_close worked).0.share in
    (abs worked.share ≤ℤ held +ℤ pos 0) × (after ≡ worked.share)
    ⊎ (held +ℤ pos 0 <ℤ abs worked.share)
      × (after ≡ held *ᴰ direction worked.share)
      × (abs after ≡ held)
unfolding direction
foreign_reduce_share_example =
    foreign_reduce_share 0 (pos 5) foreign_close worked refl (omega arith)

gross-walk_example :
    gross (walk 10 (record { seq = 11; size = pos 3 }) true (pos 0) worked).0
    ≡ gross worked +ℤ sum_own (due_events 10 11 worked)
gross-walk_example = gross-walk 10 (record { seq = 11; size = pos 3 }) true (pos 0) worked

doubt_within_share_example :
    ((cursor : ℕ) (view : View) (proven : Bool)
      → IsDoubtHeld 0 (walk cursor view proven (pos 0) worked).0)
    × ((cursor : ℕ) (journal : ℤ) → IsDoubtHeld 0 (sync_at cursor journal (pos 0) worked))
    × ((cursor blind : ℕ) (e : LegEvent)
        → IsDoubtHeld 0 (late_own_at cursor blind e (pos 0) worked).0)
doubt_within_share_example = doubt_within_share 0 worked

abbrev flat_walk : LegLedger
flat_walk = (walk 10 flat_view false (pos 0) (record worked { next_ident = 1 })).0

flat_walk_keeps : (flat_walk.share ≡ pos 5) × (flat_walk.doubt ≡ pos 1)
unfolding walk close_walk drop_views note_if note_room cap_doubt abs min max move_onto walk_events
    due_events walk_event walk_foreign book_verdict take_share spend_doubt consumed_by doubtful_of
    direction erase_events
flat_walk_keeps = (refl, refl)

flat_walk_large : (pos 0 <ℤ abs flat_walk.share) × (pos 0 <ℤ flat_walk.doubt)
flat_walk_large =
    rw (flat_walk_keeps.0, flat_walk_keeps.1) (unfold abs in (omega arith, omega arith))

give_up_keeps_doubt_example :
    ((give_up 10 flat_view (pos 0) worked).0.share ≡ pos 0)
    × ((give_up 10 flat_view (pos 0) worked).0.doubt ≡ flat_walk.doubt)
    × (¬ IsDoubtHeld 0 (give_up 10 flat_view (pos 0) worked).0)
give_up_keeps_doubt_example = give_up_keeps_doubt 10 12 0 worked flat_walk_large.0 flat_walk_large.1

abbrev kept_gap : LegGap
kept_gap = record {
  ident = 7;
  start_seq = some 8;
  end_seq = 10;
  start_leg = pos 4;
  end_leg = pos 5;
  start_share = pos 5;
  start_journal = pos 5;
  start_doubt = pos 0;
  events = [];
  late = [];
  doubt = pos 1;
  settled = false;
}

add_limits_example :
    ((seq : ℕ) (size : ℤ) (updated : Option ℕ) → IsLimited (add_view seq size updated worked))
    × ((e : LegEvent) → IsLimited (add_event e worked).0)
    × ((seq : ℕ) (q : ℤ) (d : Dir) → IsLimited (add_credit seq q d worked))
    × ((g : LegGap) → IsLimited (add_gap g worked))
add_limits_example = add_limits worked (record {
  views = omega arith;
  events = omega arith;
  credits = omega arith;
  gaps = omega arith;
})

sum_doubts-add_gap_example :
    sum_doubts (add_gap kept_gap worked).gaps ≡ sum_doubts worked.gaps +ℤ kept_gap.doubt
sum_doubts-add_gap_example = sum_doubts-add_gap kept_gap worked
