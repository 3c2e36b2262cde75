-- ===== src/Ledger/Advance.antt =====
-- `advance`: every complete interval beyond the cursor is judged, an overdue one given up, and a
-- given-up one judged again once it turns out complete.
use pynecore_plugin_bybit.Prelude.{
  ℕ, zero, suc, Bool, true, false, Option, none, some, List, [], ◌∷◌, ◌++◌, ltb, ◌==◌, not,
  if◌then◌else◌, ◌&&◌, ◌||◌, keep, map, length,
}
use pynecore_plugin_bybit.Prelude.Int.{ℤ, pos, ◌+ℤ◌, ◌-ℤ◌, abs, min, max, ltb_ℤ}
use pynecore_plugin_bybit.Ledger.State.{
  ◌*ᴰ◌, direction, has_side, no_sides, LegEvent, LegOutcome, LegGap, LegLedger, View, new_ledger,
  own_share,
}
use pynecore_plugin_bybit.Ledger.Share.{
  take_journal, add_credit, cap_doubt, add_doubt, note_room, within, expected_leg, complete,
  add_gap,
}
use pynecore_plugin_bybit.Ledger.Walk.{walk}

-- What the known executions of an interval leave open, `_give_up` up to the clamp.
unfoldable pub clamped_part : ℤ → ℤ → ℤ → ℤ
clamped_part share leg tolerance =
    let held = max (leg *ᴰ direction share) (pos 0) in
    if has_side (direction share) && ltb_ℤ (held +ℤ tolerance) (abs share)
    then abs share -ℤ held
    else pos 0

-- the share clamped to the view, with its booking and its credit
unfoldable pub clamp_to : View → ℤ → LegLedger → LegLedger
clamp_to first tolerance l =
    let d = direction l.share in
    let held = max (first.size *ᴰ d) (pos 0) in
    let clamped = clamped_part l.share first.size tolerance in
    if ltb_ℤ (pos 0) clamped
    then add_credit first.seq clamped d (take_journal clamped d (record l { share = held *ᴰ d }))
    else l

-- the gap kept for the interval, if any share is left to doubt
unfoldable pub keep_gap : LegGap → ℤ → LegLedger → LegLedger
keep_gap gap tolerance l =
    if ltb_ℤ tolerance (abs l.share) then add_gap (record gap { doubt = abs l.share }) l else l

-- the interval that is given up, with no doubt yet
unfoldable pub gap_for : ℕ → View → LegLedger → LegGap
unfolding keep
gap_for cursor first l = record {
  ident = l.next_ident;
  start_seq = some cursor;
  end_seq = first.seq;
  start_leg = l.cursor_leg;
  end_leg = first.size;
  start_share = l.share;
  start_journal = l.journal;
  start_doubt = l.doubt;
  events = keep (within cursor first.seq) l.events;
  late = [];
  doubt = pos 0;
  settled = false;
}

-- the ledger's room starts anew from the view
unfoldable pub re_anchor : View → LegLedger → LegLedger
re_anchor first l =
    note_room first.size l.share (record l { blind_seq = some first.seq; room = no_sides })

-- `_give_up` after its walk
unfoldable pub settle_on : View → ℤ → LegGap → LegLedger → LegLedger
settle_on first tolerance gap walked =
    let clamped = clamp_to first tolerance walked in
    re_anchor first
      (keep_gap gap tolerance (add_doubt first.seq (abs clamped.share) tolerance clamped))

-- the share that `_give_up` puts in doubt
unfoldable pub doubted_share : View → ℤ → LegLedger → ℤ
doubted_share first tolerance walked =
    let share = abs (clamp_to first tolerance walked).share in
    if ltb_ℤ tolerance share then share else pos 0

abbrev pub give_up_outcome : ℕ → View → ℤ → LegLedger → LegLedger → LegOutcome
give_up_outcome cursor first tolerance l walked = record {
  event = none;
  consumed = clamped_part walked.share first.size tolerance;
  proven = false;
  share_before = abs walked.share;
  leg_after = first.size *ᴰ direction walked.share;
  seq = first.seq;
  unexplained = first.size -ℤ expected_leg cursor first.seq l;
  doubtful = doubted_share first tolerance walked;
  clipped = pos 0;
  settled = false;
}

unfoldable pub give_up : ℕ → View → ℤ → LegLedger → LegLedger × List LegOutcome
give_up cursor first tolerance l =
    let (walked, outcomes) =
      walk cursor first false tolerance (record l { next_ident = suc l.next_ident }) in
    (
      settle_on first tolerance (gap_for cursor first l) walked,
      outcomes ++ give_up_outcome cursor first tolerance l walked ∷ [],
    )

-- an own execution stands for the journal change it made, its credit included
unfoldable pub restated : LegEvent → LegEvent
restated e = if e.own then record e { share = own_share e; credit = pos 0 } else e

-- the ledger at the start of a given-up interval that has a start
unfoldable pub scratch_of : ℕ → LegGap → LegLedger
scratch_of start gap = record new_ledger {
  cursor_seq = some start;
  cursor_leg = gap.start_leg;
  share = gap.start_share;
  journal = gap.start_journal;
  doubt = gap.start_doubt;
  events = map restated gap.events;
}

abbrev pub of_own : LegOutcome → Bool
of_own o = elim o.event [ none ↦ false | some e ↦ e.own ]

-- did a foreign execution take a part of the share, or was an own one clipped?
unfoldable pub guessed : List LegOutcome → Bool
guessed [] = false
guessed (o ∷ os) =
    (if of_own o then ltb_ℤ (pos 0) o.clipped else ltb_ℤ (pos 0) o.consumed) || guessed os

-- the verdicts on the foreign executions
unfoldable pub settled_verdicts : List LegOutcome → List LegOutcome
settled_verdicts [] = []
settled_verdicts (o ∷ os) =
    let rest = settled_verdicts os in
    if of_own o then rest else record o { proven = false; settled = true } ∷ rest

unfoldable pub find_gap : ℕ → List LegGap → Option LegGap
find_gap ident [] = none
find_gap ident (g ∷ gs) = let rest = find_gap ident gs in if g.ident == ident then some g else rest

unfoldable pub sum_doubts : List LegGap → ℤ
sum_doubts [] = pos 0
sum_doubts (g ∷ gs) = g.doubt +ℤ sum_doubts gs

unfoldable pub mark_settled : ℕ → LegGap → LegGap
mark_settled ident g = if g.ident == ident then record g { settled = true } else g

-- `gap.settled = True`
unfoldable pub mark : ℕ → LegLedger → LegLedger
mark ident l = record l { gaps = map (mark_settled ident) l.gaps }

-- the gap is removed, and its doubt released
unfoldable pub release : ℕ → ℤ → LegLedger → LegLedger
unfolding keep
release ident tolerance l =
    let gaps = keep (λ g. not (g.ident == ident)) l.gaps in
    cap_doubt tolerance (record l { gaps = gaps; doubt = min l.doubt (sum_doubts gaps) })

-- a complete interval, walked again from its start
unfoldable pub judge_gap : ℕ → LegGap → ℤ → LegLedger → LegLedger × List LegOutcome
judge_gap from gap tolerance l =
    let end : View = record { seq = gap.end_seq; size = gap.end_leg } in
    let walked = (walk from end true tolerance (scratch_of from gap)).1 in
    (
      (if guessed walked then mark gap.ident l else release gap.ident tolerance l),
      settled_verdicts walked,
    )

unfoldable pub settle_gap :
    Option ℕ → (ℕ → Bool) → ℤ → LegGap → LegLedger → LegLedger × List LegOutcome
settle_gap none known tolerance gap l = (l, [])
settle_gap (some from) known tolerance gap l =
    if gap.settled || not (complete known tolerance gap)
    then (l, [])
    else judge_gap from gap tolerance l

-- `gap not in self.gaps` compares identities
unfoldable pub settle_found :
    (ℕ → Bool) → ℤ → Option LegGap → LegLedger → LegLedger × List LegOutcome
settle_found known tolerance none l = (l, [])
settle_found known tolerance (some gap) l = settle_gap gap.start_seq known tolerance gap l

unfoldable pub settle_one : (ℕ → Bool) → ℤ → ℕ → LegLedger → LegLedger × List LegOutcome
settle_one known tolerance ident l = settle_found known tolerance (find_gap ident l.gaps) l

unfoldable pub settle_each : (ℕ → Bool) → ℤ → List ℕ → LegLedger → LegLedger × List LegOutcome
settle_each known tolerance [] l = (l, [])
settle_each known tolerance (ident ∷ idents) l =
    let (l', verdicts) = settle_one known tolerance ident l in
    let (l'', rest) = settle_each known tolerance idents l' in (l'', verdicts ++ rest)

unfoldable pub settle_gaps : (ℕ → Bool) → ℤ → LegLedger → LegLedger × List LegOutcome
settle_gaps known tolerance l = settle_each known tolerance (map (λ g. g.ident) l.gaps) l

-- the furthest view that, like every one before it, is known and matches
unfoldable pub furthest : (ℕ → Bool) → ℤ → ℕ → LegLedger → List View → Option View → Option View
furthest known tolerance cursor l [] target = target
furthest known tolerance cursor l (v ∷ vs) target =
    let rest = furthest known tolerance cursor l vs (some v) in
    if ltb_ℤ tolerance (abs (expected_leg cursor v.seq l -ℤ v.size)) || not (known v.seq)
    then target
    else rest

unfoldable pub later_views : ℕ → LegLedger → List View
unfolding keep
later_views cursor l = keep (λ v. ltb cursor v.seq) l.views

-- One round of the loop: what it does with the views beyond the cursor.
pub data Round : Type 0 where
  stop : LegLedger → Round
  again : LegLedger → List LegOutcome → Round

-- the interval waits, or is given up past the grace
unfoldable pub wait_or_give_up : ℤ → ℤ → ℤ → ℕ → View → LegLedger → Round
wait_or_give_up now grace tolerance cursor first l =
    let since : ℤ = elim l.gap_since [ none ↦ now | some t ↦ t ] in
    let (l', outcomes) = give_up cursor first tolerance (record l { gap_since = none }) in
    if ltb_ℤ (now -ℤ since) grace
    then stop (record l { gap_since = some since })
    else again l' outcomes

unfoldable pub prove : ℕ → View → ℤ → LegLedger → Round
prove cursor target tolerance l =
    let (l', outcomes) = walk cursor target true tolerance (record l { gap_since = none }) in
    again l' outcomes

unfoldable pub judge_target : ℤ → ℤ → ℤ → ℕ → View → Option View → LegLedger → Round
judge_target now grace tolerance cursor first none l =
    wait_or_give_up now grace tolerance cursor first l
judge_target now grace tolerance cursor first (some target) l = prove cursor target tolerance l

unfoldable pub judge_round : ℤ → ℤ → ℤ → (ℕ → Bool) → Bool → ℕ → LegLedger → List View → Round
judge_round now grace tolerance known provable cursor l [] = stop (record l { gap_since = none })
judge_round now grace tolerance known provable cursor l (first ∷ later) =
    judge_target now grace tolerance cursor first
      (furthest known tolerance cursor l (if provable then first ∷ later else []) none) l

abbrev pub prepend :
    List LegOutcome → Option (LegLedger × List LegOutcome) → Option (LegLedger × List LegOutcome)
prepend outcomes none = none
prepend outcomes (some r) = some (r.0, outcomes ++ r.1)

-- `return outcomes`, or the next round
unfoldable pub go_on :
    (LegLedger → Option (LegLedger × List LegOutcome))
    → Round
    → Option (LegLedger × List LegOutcome)
go_on next (stop l') = some (l', [])
go_on next (again l' outcomes) = prepend outcomes (next l')

-- one round from the cursor
unfoldable pub judge_at :
    (LegLedger → Option (LegLedger × List LegOutcome))
    → ℤ
    → ℤ
    → ℤ
    → (ℕ → Bool)
    → Bool
    → Option ℕ
    → LegLedger
    → Option (LegLedger × List LegOutcome)
judge_at next now grace tolerance known provable none l = some (l, [])
judge_at next now grace tolerance known provable (some cursor) l =
    go_on next (judge_round now grace tolerance known provable cursor l (later_views cursor l))

-- the `while True` loop, on fuel; `none` means that the fuel ran out
unfoldable pub judge_views :
    ℕ → ℤ → ℤ → ℤ → (ℕ → Bool) → Bool → LegLedger → Option (LegLedger × List LegOutcome)
judge_views zero now grace tolerance known provable l = none
judge_views (suc fuel) now grace tolerance known provable l =
    judge_at (judge_views fuel now grace tolerance known provable) now grace tolerance known
      provable l.cursor_seq l

-- `if provable: outcomes.extend(self._settle_gaps(...))`
unfoldable pub settle_if : Bool → (ℕ → Bool) → ℤ → LegLedger → LegLedger × List LegOutcome
settle_if true known tolerance l = settle_gaps known tolerance l
settle_if false known tolerance l = (l, [])

-- the fuel is one more than the views, each of which the cursor passes at most once
unfoldable pub advance_at :
    ℤ → ℤ → ℤ → (ℕ → Bool) → Bool → Option ℕ → LegLedger → Option (LegLedger × List LegOutcome)
advance_at now grace tolerance known provable none l = some (l, [])
advance_at now grace tolerance known provable (some _) l =
    let (settled, verdicts) = settle_if provable known tolerance l in
    prepend verdicts
      (judge_views (suc (length settled.views)) now grace tolerance known provable settled)

unfoldable pub advance :
    ℤ → ℤ → ℤ → (ℕ → Bool) → Bool → LegLedger → Option (LegLedger × List LegOutcome)
advance now grace tolerance known provable l =
    advance_at now grace tolerance known provable l.cursor_seq l
