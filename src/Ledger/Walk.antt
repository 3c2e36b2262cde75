-- ===== src/Ledger/Walk.antt =====
-- `_walk`: the executions up to a view, applied in `seq` order.
use pynecore_plugin_bybit.Prelude.{
  ℕ, Bool, false, some, List, [], ◌∷◌, ◌++◌, ltb, leb, ◌==◌, if◌then◌else◌, ◌&&◌, ◌||◌, keep,
  sort_by,
}
use pynecore_plugin_bybit.Prelude.Int.{ℤ, pos, ◌+ℤ◌, ◌-ℤ◌, abs, min, max, ltb_ℤ, leb_ℤ}
use pynecore_plugin_bybit.Ledger.State.{
  Dir, ◌*ᴰ◌, direction, has_side, LegEvent, LegOutcome, LegLedger, View,
}
use pynecore_plugin_bybit.Ledger.Share.{
  bounded, capped, take_journal, add_credit, cap_doubt, note_room, within,
}
use pynecore_plugin_bybit.Ledger.Record.{erase_event}

-- the second part of `rank`
unfoldable pub rank_class : Dir → LegEvent → ℕ
rank_class d e = if e.own then 0 else if leb_ℤ (pos 0) (e.delta *ᴰ d) then 1 else 2

unfoldable pub rank_before : Dir → LegEvent → LegEvent → Bool
unfolding rank_class
rank_before d e f = ltb e.seq f.seq || (e.seq == f.seq && ltb (rank_class d e) (rank_class d f))

-- the executions in `(cursor, seq]`, sorted by `rank`
unfoldable pub due_events : ℕ → ℕ → LegLedger → List LegEvent
unfolding keep sort_by
due_events cursor seq l =
    sort_by (rank_before (direction l.share)) (keep (within cursor seq) l.events)

-- `if proven: self._note_room(leg, self.share)`
unfoldable pub note_if : Bool → ℤ → LegLedger → LegLedger
note_if proven leg l = if proven then note_room leg l.share l else l

-- One own execution; `leg` is the leg after it.
unfoldable pub walk_own : Bool → ℤ → ℤ → LegEvent → LegLedger → LegLedger × List LegOutcome
walk_own proven tolerance leg e l =
    let journal = l.journal +ℤ e.share in
    let wanted = bounded (l.share +ℤ e.share) journal tolerance in
    let held = bounded (capped (l.share +ℤ e.share) leg tolerance) journal tolerance in
    let share = if proven then held else wanted in
    let clipped = abs wanted -ℤ abs share in
    let l' = cap_doubt tolerance (record l { journal = journal; share = share }) in
    (
      note_if proven leg l',
      (if ltb_ℤ tolerance clipped
          then record {
            event = some e;
            consumed = pos 0;
            proven = proven;
            share_before = abs l.share;
            leg_after = leg *ᴰ direction wanted;
            seq = e.seq;
            unexplained = pos 0;
            doubtful = pos 0;
            clipped = clipped;
            settled = false;
          }
            ∷ []
          else []),
    )

-- What a foreign execution took of the share; `leg_after` is in the direction of the share.
unfoldable pub consumed_by : Bool → ℤ → Dir → ℤ → ℤ → ℤ → ℤ
consumed_by proven tolerance d delta share leg_after =
    let consumed = min share (max (pos 0) (share -ℤ leg_after)) in
    if proven && has_side d && ltb_ℤ (delta *ᴰ d) (pos 0)
    then (if leb_ℤ consumed tolerance then pos 0 else consumed)
    else pos 0

-- The part of what it took that was in doubt.
unfoldable pub doubtful_of : ℤ → ℤ → ℤ → ℤ → ℤ → ℤ
doubtful_of tolerance consumed share doubt leg_after =
    let taken = min consumed (max (pos 0) (share -ℤ doubt -ℤ leg_after)) in
    let doubtful = consumed -ℤ taken in
    if leb_ℤ consumed (pos 0)
    then pos 0
    else if leb_ℤ doubtful tolerance
    then pos 0
    else if leb_ℤ taken tolerance
    then consumed
    else doubtful

-- `if consumed:`
unfoldable pub take_share : ℤ → Dir → LegLedger → LegLedger
take_share consumed d l =
    if ltb_ℤ (pos 0) consumed
    then take_journal consumed d (record l { share = (abs l.share -ℤ consumed) *ᴰ d })
    else l

-- `if doubtful:`
unfoldable pub spend_doubt : ℤ → Dir → LegLedger → LegLedger
spend_doubt doubtful d l =
    if ltb_ℤ (pos 0) doubtful
    then add_credit l.doubt_seq doubtful d (record l { doubt = max (pos 0) (l.doubt -ℤ doubtful) })
    else l

-- what the verdict books; `leg` is the leg after it
unfoldable pub book_verdict : Bool → ℤ → ℤ → ℤ → ℤ → Dir → LegLedger → LegLedger
book_verdict proven tolerance leg consumed doubtful d l =
    note_if proven leg (cap_doubt tolerance (spend_doubt doubtful d (take_share consumed d l)))

-- One foreign execution; `leg` is the leg before it.
unfoldable pub walk_foreign : Bool → ℤ → ℤ → LegEvent → LegLedger → LegLedger × List LegOutcome
walk_foreign proven tolerance leg e l =
    let d = direction l.share in
    let share = abs l.share in
    let leg_after = if has_side d then (leg +ℤ e.delta) *ᴰ d else leg +ℤ e.delta in
    let consumed = consumed_by proven tolerance d e.delta share leg_after in
    let doubtful = doubtful_of tolerance consumed share l.doubt leg_after in
    (
      book_verdict proven tolerance (leg +ℤ e.delta) consumed doubtful d l,
      record {
        event = some e;
        consumed = consumed;
        proven = proven;
        share_before = share;
        leg_after = leg_after;
        seq = e.seq;
        unexplained = pos 0;
        doubtful = doubtful;
        clipped = pos 0;
        settled = false;
      }
          ∷ [],
    )

unfoldable pub walk_event : Bool → ℤ → ℤ → LegEvent → LegLedger → LegLedger × List LegOutcome
walk_event proven tolerance leg e l =
    if e.own
    then walk_own proven tolerance (leg +ℤ e.delta) e l
    else walk_foreign proven tolerance leg e l

unfoldable pub walk_events : Bool → ℤ → ℤ → List LegEvent → LegLedger → LegLedger × List LegOutcome
walk_events proven tolerance leg [] l = (l, [])
walk_events proven tolerance leg (e ∷ es) l =
    let (l', decided) = walk_event proven tolerance leg e l in
    let (l'', rest) = walk_events proven tolerance (leg +ℤ e.delta) es l' in (l'', decided ++ rest)

unfoldable pub erase_events : List LegEvent → List LegEvent → List LegEvent
erase_events [] events = events
erase_events (e ∷ es) events = erase_events es (erase_event e.exec_id events)

-- the cursor moves onto the view, past the executions that were due
unfoldable pub move_onto : Bool → ℤ → View → List LegEvent → LegLedger → LegLedger
move_onto proven tolerance view due l = record l {
  events = erase_events due l.events;
  cursor_seq = some view.seq;
  cursor_leg = view.size;
  share = if proven then capped l.share view.size tolerance else l.share;
}

unfoldable pub drop_views : View → LegLedger → LegLedger
unfolding keep
drop_views view l = record l { views = keep (λ v. leb view.seq v.seq) l.views }

unfoldable pub close_walk : Bool → ℤ → View → List LegEvent → LegLedger → LegLedger
close_walk proven tolerance view due l =
    drop_views view
      (note_if proven view.size (cap_doubt tolerance (move_onto proven tolerance view due l)))

-- `_walk` from the cursor, which the source asserts to be there
unfoldable pub walk : ℕ → View → Bool → ℤ → LegLedger → LegLedger × List LegOutcome
walk cursor view proven tolerance l =
    let due = due_events cursor view.seq l in
    let (l', outcomes) = walk_events proven tolerance l.cursor_leg due l in
    (close_walk proven tolerance view due l', outcomes)
