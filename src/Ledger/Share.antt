-- ===== src/Ledger/Share.antt =====
-- The private helpers of `LegLedger`: the bounds of the share, the journal, credits, doubt, room
-- and the given-up intervals.
use pynecore_plugin_bybit.Prelude.{
  ℕ, suc, Bool, false, Option, none, some, List, [], ◌∷◌, ◌++◌, ltb, leb, ◌==◌, not, if◌then◌else◌,
  ◌&&◌, ◌||◌, length, keep, last_n, map,
}
use pynecore_plugin_bybit.Prelude.Int.{ℤ, pos, ◌+ℤ◌, ◌-ℤ◌, abs, min, max, ltb_ℤ, leb_ℤ}
use pynecore_plugin_bybit.Ledger.State.{
  Dir, up, down, ◌*ᴰ◌, direction, has_side, same_dir, side_of, or_default, put_side, LegEvent,
  LegGap, LegLedger,
}

-- `_bounded`: `share` limited to `journal`, never larger, never on the other side
unfoldable pub bounded : ℤ → ℤ → ℤ → ℤ
bounded share journal tolerance =
    let d = direction share in
    if not (has_side d) || leb_ℤ (abs share) tolerance || not (same_dir d (direction journal))
    then pos 0
    else if leb_ℤ (abs share) (abs journal +ℤ tolerance)
    then share
    else journal

-- `_capped`: `share` limited to what `leg` holds on the share's side
unfoldable pub capped : ℤ → ℤ → ℤ → ℤ
capped share leg tolerance =
    let d = direction share in
    let room = max (leg *ᴰ d) (pos 0) in
    if not (has_side d)
    then pos 0
    else if leb_ℤ (abs share) (room +ℤ tolerance)
    then (if ltb_ℤ tolerance (abs share) then share else pos 0)
    else room *ᴰ d

unfoldable pub take_journal : ℤ → Dir → LegLedger → LegLedger
take_journal quantity d l = if leb_ℤ quantity (pos 0) || not (has_side d) then l else record l {
  journal = l.journal -ℤ quantity *ᴰ d;
  to_net = put_side d (or_default (side_of l.to_net d) (pos 0) +ℤ quantity) l.to_net;
}

-- `_MAX_CREDITS`
abbrev pub max_credits : ℕ
max_credits = 8

unfoldable pub add_credit : ℕ → ℤ → Dir → LegLedger → LegLedger
unfolding last_n
add_credit seq quantity d l = if leb_ℤ quantity (pos 0) || not (has_side d) then l else record l {
  credits =
      last_n max_credits (l.credits ++ record { seq = seq; quantity = quantity; side = d } ∷ []);
}

unfoldable pub cap_gap : ℤ → LegGap → LegGap
cap_gap share gap = record gap { doubt = min gap.doubt (abs share) }

unfoldable pub cap_doubt : ℤ → LegLedger → LegLedger
unfolding cap_gap
cap_doubt tolerance l =
    let doubt = min l.doubt (abs l.share) in
    if leb_ℤ doubt tolerance
    then record l { doubt = pos 0; gaps = [] }
    else record l { doubt = doubt; gaps = map (cap_gap l.share) l.gaps }

unfoldable pub add_doubt : ℕ → ℤ → ℤ → LegLedger → LegLedger
add_doubt seq quantity tolerance l =
    if leb_ℤ quantity tolerance
    then l
    else cap_doubt tolerance (record l {
      doubt = l.doubt +ℤ quantity;
      doubt_seq = if ltb l.doubt_seq seq then seq else l.doubt_seq;
    })

unfoldable pub note_side : ℤ → ℤ → Dir → LegLedger → LegLedger
note_side leg share side l =
    let foreign = max (leg *ᴰ side) (pos 0) -ℤ max (share *ᴰ side) (pos 0) in
    record l {
      room = put_side side (min (or_default (side_of l.room side) foreign) foreign) l.room;
    }

unfoldable pub note_room : ℤ → ℤ → LegLedger → LegLedger
unfolding note_side
note_room leg share l = note_side leg share down (note_side leg share up l)

-- `sum(... for event in events if ...)`
unfoldable pub sum_shares : List LegEvent → ℤ
sum_shares [] = pos 0
sum_shares (e ∷ es) = e.share +ℤ sum_shares es

unfoldable pub sum_deltas : List LegEvent → ℤ
sum_deltas [] = pos 0
sum_deltas (e ∷ es) = e.delta +ℤ sum_deltas es

unfoldable pub own_beyond : ℕ → LegLedger → ℤ
unfolding keep
own_beyond seq l = sum_shares (keep (λ e. e.own && ltb seq e.seq) l.events)

-- the executions in `(cursor, seq]`
abbrev pub within : ℕ → ℕ → LegEvent → Bool
within cursor seq e = ltb cursor e.seq && leb e.seq seq

unfoldable pub expected_leg : ℕ → ℕ → LegLedger → ℤ
unfolding keep
expected_leg cursor seq l = l.cursor_leg +ℤ sum_deltas (keep (within cursor seq) l.events)

unfoldable pub holds : ℕ → LegGap → Bool
holds seq gap = elim gap.start_seq [
  | none ↦ leb seq gap.end_seq
  | some start ↦ ltb start seq && leb seq gap.end_seq
]

unfoldable pub complete : (ℕ → Bool) → ℤ → LegGap → Bool
complete known tolerance gap = elim gap.start_seq [
  | none ↦ false
  | some _ ↦
      known gap.end_seq
      && leb_ℤ (abs (gap.start_leg +ℤ sum_deltas gap.events -ℤ gap.end_leg)) tolerance
]

unfoldable pub first_holding : ℕ → List LegGap → Option LegGap
first_holding seq [] = none
first_holding seq (g ∷ gs) = let rest = first_holding seq gs in if holds seq g then some g else rest

unfoldable pub gap_of : ℕ → LegLedger → Option LegGap
unfolding first_holding
gap_of seq l = first_holding seq l.gaps

-- a write through a reference to the gap with this identity
unfoldable pub update_gap : ℕ → (LegGap → LegGap) → List LegGap → List LegGap
update_gap ident f [] = []
update_gap ident f (g ∷ gs) = (if g.ident == ident then f g else g) ∷ update_gap ident f gs

-- `_MAX_GAPS`
abbrev pub max_gaps : ℕ
max_gaps = 16

abbrev pub merged_gap : ℕ → LegGap → LegGap → LegGap
merged_gap ident oldest nxt = record {
  ident = ident;
  start_seq = none;
  end_seq = nxt.end_seq;
  start_leg = nxt.end_leg;
  end_leg = nxt.end_leg;
  start_share = nxt.start_share;
  start_journal = nxt.start_journal;
  start_doubt = nxt.start_doubt;
  events = [];
  late = [];
  doubt = oldest.doubt +ℤ nxt.doubt;
  settled = false;
}

-- the loop of `_add_gap`: the gaps left and the identities given out
unfoldable pub merge_oldest : ℕ → List LegGap → List LegGap × ℕ
merge_oldest ident [] = ([], ident)
merge_oldest ident (g ∷ []) = (g ∷ [], ident)
merge_oldest ident (oldest ∷ nxt ∷ rest) =
    let merged = merge_oldest (suc ident) (merged_gap ident oldest nxt ∷ rest) in
    if ltb max_gaps (length (oldest ∷ nxt ∷ rest)) then merged else (oldest ∷ nxt ∷ rest, ident)

unfoldable pub add_gap : LegGap → LegLedger → LegLedger
add_gap gap l =
    let (gaps, ident) = merge_oldest l.next_ident (l.gaps ++ gap ∷ []) in
    record l { gaps = gaps; next_ident = ident }
