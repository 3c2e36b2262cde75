-- ===== src/Ledger/Record.antt =====
-- Recording evidence and anchoring: `add_view`, `add_event`, `start`, `sync_journal`, the credits.
use pynecore_plugin_bybit.Prelude.{
  ℕ, suc, Bool, true, false, Option, none, some, List, [], ◌∷◌, ◌++◌, ltb, leb, ◌==◌, not, str_eq,
  if◌then◌else◌, ◌&&◌, ◌||◌, length, keep, last_n, sort_by, some_of, String,
}
use pynecore_plugin_bybit.Prelude.Int.{ℤ, pos, ◌+ℤ◌, ◌-ℤ◌, abs, min, max, ltb_ℤ, leb_ℤ}
use pynecore_plugin_bybit.Ledger.State.{
  Dir, ◌*ᴰ◌, direction, has_side, same_dir, Sides, no_sides, LegEvent, LegOutcome, LegLedger,
  Credit, View, NewestView,
}
use pynecore_plugin_bybit.Ledger.Share.{
  bounded, capped, take_journal, add_credit, cap_doubt, add_doubt, note_room, own_beyond, add_gap,
}

-- `started`
unfoldable pub started : LegLedger → Bool
started l = elim l.cursor_seq [ none ↦ false | some _ ↦ true ]

unfoldable pub last_view : List View → Option View
last_view [] = none
last_view (v ∷ vs) = elim (last_view vs) [ none ↦ some v | some w ↦ some w ]

-- `latest_size`
unfoldable pub latest_size : LegLedger → Option ℤ
unfolding last_view
latest_size l = elim (last_view l.views) [ none ↦ none | some v ↦ some v.size ]

-- `open`
unfoldable pub is_open : LegLedger → Bool
unfolding some_of
is_open l = elim l.cursor_seq [ none ↦ false | some c ↦ some_of (λ v. ltb c v.seq) l.views ]

-- `_MAX_VIEWS`, `_MAX_EVENTS`
abbrev pub max_views : ℕ
max_views = 64

abbrev pub max_events : ℕ
max_events = 512

abbrev pub view_before : View → View → Bool
view_before v w = ltb v.seq w.seq

-- the view repeats the size and the time of the newest one
unfoldable pub is_echo : ℕ → ℤ → Option ℕ → Option NewestView → Bool
is_echo seq size (some updated) (some newest) =
    ltb newest.seq seq
    && (leb_ℤ size newest.size && leb_ℤ newest.size size)
    && updated == newest.updated
is_echo _ _ _ _ = false

unfoldable pub next_newest : ℕ → ℤ → Option ℕ → Option NewestView → Option NewestView
next_newest seq size updated newest =
    let fresh : Option NewestView = elim updated [
      | none ↦ none
      | some ms ↦ some (record { seq = seq; size = size; updated = ms })
    ] in
    elim newest [ none ↦ fresh | some n ↦ if leb n.seq seq then fresh else some n ]

unfoldable pub judged : ℕ → Option ℕ → Bool
judged seq none = false
judged seq (some cursor) = leb seq cursor

-- the view put in order among the others, in place of one of the same `seq`
unfoldable pub store_view : ℕ → ℤ → List View → List View
unfolding keep last_n sort_by
store_view seq size views =
    let others = keep (λ v. not (v.seq == seq)) views in
    last_n max_views (sort_by view_before (others ++ record { seq = seq; size = size } ∷ []))

unfoldable pub add_view : ℕ → ℤ → Option ℕ → LegLedger → LegLedger
add_view seq size updated l =
    let seen = record l {
      latest_view_seq = if ltb l.latest_view_seq seq then seq else l.latest_view_seq;
    } in
    let noted = record seen { newest_view = next_newest seq size updated l.newest_view } in
    if is_echo seq size updated l.newest_view
    then seen
    else if judged seq l.cursor_seq
    then noted
    else record noted { views = store_view seq size l.views }

-- `self.events[event.exec_id] = event`
unfoldable pub put_event : LegEvent → List LegEvent → List LegEvent
put_event e [] = e ∷ []
put_event e (f ∷ fs) = if str_eq f.exec_id e.exec_id then e ∷ fs else f ∷ put_event e fs

-- `del events[exec_id]`
unfoldable pub erase_event : String → List LegEvent → List LegEvent
erase_event k [] = []
erase_event k (f ∷ fs) = if str_eq f.exec_id k then fs else f ∷ erase_event k fs

-- `min(events, key=seq)`: the first of the least
unfoldable pub oldest_event : LegEvent → List LegEvent → LegEvent
oldest_event e [] = e
oldest_event e (f ∷ fs) = oldest_event (if ltb f.seq e.seq then f else e) fs

unfoldable pub drop_oldest : List LegEvent → List LegEvent
drop_oldest [] = []
drop_oldest (e ∷ es) = erase_event (oldest_event e es).exec_id (e ∷ es)

unfoldable pub add_event : LegEvent → LegLedger → LegLedger × Bool
add_event e l =
    let events = put_event e l.events in
    if judged e.seq l.cursor_seq then (l, false) else (
      record l { events = if ltb max_events (length events) then drop_oldest events else events },
      true,
    )

-- the cursor on the view; `share` is the journal share up to it
unfoldable pub anchor_at : View → ℤ → ℤ → LegLedger → LegLedger
unfolding keep
anchor_at view share tolerance l =
    note_room view.size (capped share view.size tolerance) (record l {
      cursor_seq = some view.seq;
      anchor_seq = some view.seq;
      cursor_leg = view.size;
      views = view ∷ [];
      events = keep (λ e. ltb view.seq e.seq) l.events;
      share = capped share view.size tolerance;
      journal = share;
      doubt = pos 0;
      gaps = [];
      blind_seq = some view.seq;
      room = no_sides;
    })

-- what the view does not hold of the share
unfoldable pub start_clamp : View → ℤ → ℤ → ℤ
start_clamp view share tolerance = abs share -ℤ abs (capped share view.size tolerance)

-- the clamp booked: the journal netted, the rest in doubt, a credit for a reduce to come
unfoldable pub start_booked : View → ℤ → ℤ → LegLedger → LegLedger
start_booked view share tolerance l =
    let anchored = anchor_at view share tolerance l in
    let clamped = start_clamp view share tolerance in
    add_credit view.seq clamped (direction share) (
      add_doubt view.seq (abs anchored.share) tolerance
        (take_journal clamped (direction share) anchored))

-- the gap that stands for the past of the view, which never completes
unfoldable pub start_gap : View → LegLedger → LegLedger
start_gap view l =
    add_gap
      (record {
        ident = l.next_ident;
        start_seq = none;
        end_seq = view.seq;
        start_leg = view.size;
        end_leg = view.size;
        start_share = l.share;
        start_journal = l.journal;
        start_doubt = pos 0;
        events = [];
        late = [];
        doubt = l.doubt;
        settled = false;
      })
      (record l { next_ident = suc l.next_ident })

start_outcome : View → ℤ → ℤ → LegLedger → LegOutcome
start_outcome view share tolerance booked = record {
  event = none;
  consumed = start_clamp view share tolerance;
  proven = false;
  share_before = abs share;
  leg_after = max (view.size *ᴰ direction share) (pos 0);
  seq = view.seq;
  unexplained = pos 0;
  doubtful = booked.doubt;
  clipped = pos 0;
  settled = false;
}

-- `start` once a view is known
unfoldable pub start_at : View → ℤ → ℤ → LegLedger → LegLedger × Option LegOutcome
unfolding start_outcome
start_at view journal_share tolerance l =
    let share = journal_share -ℤ own_beyond view.seq l in
    let booked = start_booked view share tolerance l in
    if not (has_side (direction share)) || leb_ℤ (start_clamp view share tolerance) tolerance
    then (anchor_at view share tolerance l, none)
    else (
      (if ltb_ℤ (pos 0) booked.doubt then start_gap view booked else booked),
      some (start_outcome view share tolerance booked),
    )

unfoldable pub start_on : Option View → ℤ → ℤ → LegLedger → LegLedger × Option LegOutcome
start_on none journal_share tolerance l = (l, none)
start_on (some view) journal_share tolerance l = start_at view journal_share tolerance l

unfoldable pub start : ℤ → ℤ → LegLedger → LegLedger × Option LegOutcome
start journal_share tolerance l = start_on (last_view l.views) journal_share tolerance l

-- `sync_journal` once a cursor is known
unfoldable pub sync_at : ℕ → ℤ → ℤ → LegLedger → LegLedger
sync_at cursor journal_share tolerance l =
    let journal = journal_share -ℤ own_beyond cursor l in
    cap_doubt tolerance (record l { journal = journal; share = bounded l.share journal tolerance })

unfoldable pub sync_on : Option ℕ → ℤ → ℤ → LegLedger → LegLedger
sync_on none journal_share tolerance l = l
sync_on (some cursor) journal_share tolerance l = sync_at cursor journal_share tolerance l

unfoldable pub sync_journal : ℤ → ℤ → LegLedger → LegLedger
sync_journal journal_share tolerance l = sync_on l.cursor_seq journal_share tolerance l

unfoldable pub take_to_net : LegLedger → LegLedger × Sides
take_to_net l = (record l { to_net = no_sides }, l.to_net)

-- the credits that a late own reduce at `seq` draws on
abbrev pub credit_fits : ℕ → Dir → ℤ → Credit → Bool
credit_fits seq d tolerance c = leb seq c.seq && ltb_ℤ tolerance c.quantity && same_dir c.side d

unfoldable pub sum_credits : List Credit → ℤ
sum_credits [] = pos 0
sum_credits (c ∷ cs) = c.quantity +ℤ sum_credits cs

unfoldable pub open_credit : ℕ → Dir → ℤ → LegLedger → ℤ
unfolding keep
open_credit seq d tolerance l = sum_credits (keep (credit_fits seq d tolerance) l.credits)

-- the loop of `take_credit`: the credits after it and the quantity taken
unfoldable pub draw : ℕ → ℤ → Dir → ℤ → ℤ → List Credit → List Credit × ℤ
draw seq quantity d tolerance taken [] = ([], taken)
draw seq quantity d tolerance taken (c ∷ cs) =
    let part = min c.quantity (quantity -ℤ taken) in
    let skipped = draw seq quantity d tolerance taken cs in
    let after = draw seq quantity d tolerance (taken +ℤ part) cs in
    if leb_ℤ (quantity -ℤ taken) tolerance
    then (c ∷ cs, taken)
    else if not (credit_fits seq d tolerance c)
    then (c ∷ skipped.0, skipped.1)
    else (record c { quantity = c.quantity -ℤ part } ∷ after.0, after.1)

unfoldable pub take_credit : ℕ → ℤ → Dir → ℤ → LegLedger → LegLedger × ℤ
unfolding keep
take_credit seq quantity d tolerance l =
    let (credits, taken) = draw seq quantity d tolerance (pos 0) l.credits in
    (record l { credits = keep (λ c. ltb_ℤ tolerance c.quantity) credits }, taken)
