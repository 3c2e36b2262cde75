-- ===== src/Ledger/Late.antt =====
-- Executions older than the cursor: `late_own`, `late_foreign`.
use pynecore_plugin_bybit.Prelude.{
  ℕ, suc, String, Bool, true, false, Option, none, some, List, [], ◌∷◌, ◌++◌, leb, ◌==◌, not,
  str_eq, if◌then◌else◌, ◌&&◌, some_of,
}
use pynecore_plugin_bybit.Prelude.Int.{ℤ, pos, ◌+ℤ◌, ◌-ℤ◌, neg, abs, min, max, ltb_ℤ, leb_ℤ}
use pynecore_plugin_bybit.Ledger.State.{
  Dir, ◌*ᴰ◌, direction, has_side, same_dir, side_of, or_default, put_side, LegEvent, LegOutcome,
  LegGap, LegLedger,
}
use pynecore_plugin_bybit.Ledger.Share.{
  bounded, take_journal, add_credit, cap_doubt, add_doubt, gap_of, update_gap, add_gap,
}
use pynecore_plugin_bybit.Ledger.Record.{put_event}

-- `gap.late.add(exec_id)`
unfoldable pub add_late : String → List String → List String
unfolding some_of
add_late k late = if some_of (str_eq k) late then late else late ++ k ∷ []

-- `gap.events[event.exec_id] = event; gap.late.add(event.exec_id)`
unfoldable pub join_gap : LegEvent → LegGap → LegGap
join_gap e gap = record gap { events = put_event e gap.events; late = add_late e.exec_id gap.late }

-- The share that the booking moves: what it takes off the old side, what it builds on the new one.
unfoldable pub shrunk_part : ℤ → ℤ → ℤ
shrunk_part before wanted =
    if same_dir (direction wanted) (direction before)
    then max (pos 0) (abs before -ℤ abs wanted)
    else abs before

unfoldable pub grown_part : ℤ → ℤ → ℤ
grown_part before wanted =
    if same_dir (direction wanted) (direction before)
    then max (pos 0) (abs wanted -ℤ abs before)
    else abs wanted

-- how much of what it builds the room lets it keep
unfoldable pub kept_part : ℤ → ℤ → ℤ → ℤ
kept_part grown room tolerance =
    let kept = min grown (max room (pos 0)) in
    if leb_ℤ grown (pos 0)
    then pos 0
    else if leb_ℤ (grown -ℤ kept) tolerance
    then grown
    else if leb_ℤ kept tolerance
    then pos 0
    else kept

-- the room of the old side, which every step since the view held that much less of
unfoldable pub free_room : ℕ → LegEvent → ℤ → Dir → LegLedger → LegLedger
free_room blind e shrunk d l =
    if ltb_ℤ (pos 0) shrunk && leb e.seq blind
    then record l { room = put_side d (or_default (side_of l.room d) (pos 0) +ℤ shrunk) l.room }
    else l

unfoldable pub lower_gap : ℤ → LegGap → LegGap
lower_gap resolved gap = record gap { doubt = max (pos 0) (gap.doubt -ℤ resolved) }

unfoldable pub raise_gap : ℤ → LegGap → LegGap
raise_gap kept gap = record gap { doubt = gap.doubt +ℤ kept }

unfoldable pub on_gap : Option LegGap → (LegGap → LegGap) → LegLedger → LegLedger
on_gap none f l = l
on_gap (some gap) f l = record l { gaps = update_gap gap.ident f l.gaps }

-- the part of the doubt that an own reduce resolves
unfoldable pub resolve_doubt : LegEvent → Dir → Option LegGap → LegLedger → LegLedger
resolve_doubt e d gap l =
    let resolved = max (pos 0) (neg e.share *ᴰ d) in
    if has_side d && leb e.seq l.doubt_seq
    then on_gap gap (lower_gap resolved) (record l { doubt = max (pos 0) (l.doubt -ℤ resolved) })
    else l

-- the part that is gone is booked
unfoldable pub book_gone : ℕ → ℤ → ℤ → ℤ → Dir → LegLedger → LegLedger
book_gone cursor grown kept gone d l =
    let used = record l {
      room = put_side d (or_default (side_of l.room d) (pos 0) -ℤ kept) l.room;
    } in
    let netted = add_credit cursor gone d (take_journal gone d used) in
    if ltb_ℤ (pos 0) grown then (if ltb_ℤ (pos 0) gone then netted else used) else l

abbrev pub ends_on : ℕ → Option LegGap → Bool
ends_on blind none = false
ends_on blind (some gap) =
    elim gap.start_seq [ none ↦ false | some _ ↦ true ] && gap.end_seq == blind

-- a gap that never completes, for steps nothing can prove again
unfoldable pub lost_gap : ℕ → ℤ → LegLedger → LegLedger
lost_gap cursor kept l =
    add_gap
      (record {
        ident = l.next_ident;
        start_seq = none;
        end_seq = cursor;
        start_leg = l.cursor_leg;
        end_leg = l.cursor_leg;
        start_share = l.share;
        start_journal = l.journal;
        start_doubt = l.doubt;
        events = [];
        late = [];
        doubt = kept;
        settled = false;
      })
      (record l { next_ident = suc l.next_ident })

unfoldable pub charge_gap : ℕ → ℕ → ℤ → Option LegGap → LegLedger → LegLedger
charge_gap cursor blind kept gap l =
    if ends_on blind gap then on_gap gap (raise_gap kept) l else lost_gap cursor kept l

-- the kept part that nothing proves is held in doubt
unfoldable pub doubt_kept : ℕ → ℕ → LegEvent → ℤ → ℤ → Option LegGap → LegLedger → LegLedger
doubt_kept cursor blind e kept tolerance gap l =
    if ltb_ℤ tolerance kept && not (e.seq == blind)
    then add_doubt blind kept tolerance (charge_gap cursor blind kept gap l)
    else l

-- the share that the booking wants
unfoldable pub wanted_share : LegEvent → ℤ → LegLedger → ℤ
wanted_share e tolerance l = bounded (l.share +ℤ e.share) (l.journal +ℤ e.share) tolerance

-- the journal moved, the room freed, the gap joined and the doubt resolved
unfoldable pub late_resolved : ℕ → LegEvent → ℤ → LegLedger → LegLedger
late_resolved blind e shrunk l =
    let freed =
      free_room blind e shrunk (direction l.share) (record l { journal = l.journal +ℤ e.share }) in
    let gap = gap_of e.seq freed in
    resolve_doubt e (direction l.share) gap (on_gap gap (join_gap e) freed)

-- the part of what it builds that the room lets it keep
unfoldable pub late_kept : ℕ → LegEvent → ℤ → LegLedger → ℤ
late_kept blind e tolerance l =
    let wanted = wanted_share e tolerance l in
    let resolved = late_resolved blind e (shrunk_part l.share wanted) l in
    kept_part (grown_part l.share wanted)
      (or_default (side_of resolved.room (direction wanted)) (pos 0)) tolerance

unfoldable pub late_gone : ℕ → LegEvent → ℤ → LegLedger → ℤ
late_gone blind e tolerance l =
    grown_part l.share (wanted_share e tolerance l) -ℤ late_kept blind e tolerance l

-- the share moved, and the part that is gone booked
unfoldable pub late_booked : ℕ → ℕ → LegEvent → ℤ → LegLedger → LegLedger
late_booked cursor blind e tolerance l =
    let wanted = wanted_share e tolerance l in
    let kept = late_kept blind e tolerance l in
    let booked =
      book_gone cursor (grown_part l.share wanted) kept (late_gone blind e tolerance l)
        (direction wanted) (late_resolved blind e (shrunk_part l.share wanted) l) in
    record booked {
      share =
          l.share -ℤ shrunk_part l.share wanted *ᴰ direction l.share +ℤ kept *ᴰ direction wanted;
    }

unfoldable pub late_outcome : ℕ → LegEvent → ℤ → LegLedger → Option LegOutcome
late_outcome blind e tolerance l =
    let wanted = wanted_share e tolerance l in
    let gone = late_gone blind e tolerance l in
    if leb_ℤ gone (pos 0)
    then none
    else some (record {
      event = some e;
      consumed = gone;
      proven = false;
      share_before = abs wanted;
      leg_after = max (l.cursor_leg *ᴰ direction wanted) (pos 0);
      seq = e.seq;
      unexplained = pos 0;
      doubtful = pos 0;
      clipped = pos 0;
      settled = false;
    })

-- `late_own` with the cursor and the blind view that it asserts
unfoldable pub late_own_at : ℕ → ℕ → LegEvent → ℤ → LegLedger → LegLedger × Option LegOutcome
late_own_at cursor blind e tolerance l = (
  cap_doubt tolerance (
      doubt_kept cursor blind e (late_kept blind e tolerance l) tolerance (gap_of e.seq l)
        (late_booked cursor blind e tolerance l)),
  late_outcome blind e tolerance l,
)

-- `none`: the assertion on the cursor fails
unfoldable pub late_own_on :
    Option ℕ → Option ℕ → LegEvent → ℤ → LegLedger → Option (LegLedger × Option LegOutcome)
late_own_on (some cursor) (some blind) e tolerance l = some (late_own_at cursor blind e tolerance l)
late_own_on _ _ e tolerance l = none

unfoldable pub late_own : LegEvent → ℤ → LegLedger → Option (LegLedger × Option LegOutcome)
late_own e tolerance l = late_own_on l.cursor_seq l.blind_seq e tolerance l

abbrev pub has_start : LegGap → Bool
has_start gap = elim gap.start_seq [ none ↦ false | some _ ↦ true ]

unfoldable pub late_foreign : LegEvent → LegLedger → LegLedger × Bool
late_foreign e l = elim (gap_of e.seq l) [
  | none ↦ (l, false)
  | some gap ↦ if has_start gap then (on_gap (some gap) (join_gap e) l, true) else (l, false)
]
