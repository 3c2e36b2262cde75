-- ===== src/Ledger/State.antt =====
-- The records of pynecore_bybit/ledger.py: executions, outcomes, given-up intervals, the ledger.
-- Quantities are integers, multiples of one quantum; `Dir` is the float 1.0, -1.0 or 0.0 that the
-- source uses for a side. A `LegGap` carries the identity that Python's `is` compares.
use pynecore_plugin_bybit.Prelude.{
  ℕ, String, Bool, true, false, Option, none, some, List, [], if◌then◌else◌, ◌&&◌,
}
use pynecore_plugin_bybit.Prelude.Int.{ℤ, pos, ◌+ℤ◌, neg, ltb_ℤ, leb_ℤ}

pub data Dir : Type 0 where
  up down flat : Dir

-- `x * direction`
infixl 70 ◌*ᴰ◌
abbrev pub ◌*ᴰ◌ : ℤ → Dir → ℤ
x *ᴰ up = x
x *ᴰ down = neg x
x *ᴰ flat = pos 0

unfoldable pub direction : ℤ → Dir
direction share = if ltb_ℤ (pos 0) share then up else if ltb_ℤ share (pos 0) then down else flat

-- truth of `if direction:`
abbrev pub has_side : Dir → Bool
has_side flat = false
has_side _ = true

abbrev pub same_dir : Dir → Dir → Bool
same_dir up up = true
same_dir down down = true
same_dir flat flat = true
same_dir _ _ = false

-- a `dict[float, float]` keyed by a side
pub record Sides : Type 0 where
  pub at_up : Option ℤ
  pub at_down : Option ℤ
  pub at_flat : Option ℤ

abbrev pub no_sides : Sides
no_sides = record { at_up = none; at_down = none; at_flat = none }

abbrev pub side_of : Sides → Dir → Option ℤ
side_of m up = m.at_up
side_of m down = m.at_down
side_of m flat = m.at_flat

-- `m.get(d, default)`
abbrev pub or_default : Option ℤ → ℤ → ℤ
or_default none x = x
or_default (some v) _ = v

abbrev pub put_side : Dir → ℤ → Sides → Sides
put_side up v m = record m { at_up = some v }
put_side down v m = record m { at_down = some v }
put_side flat v m = record m { at_flat = some v }

-- `ORIGIN_USER`, `ORIGIN_VENUE`, `ORIGIN_AMBIGUOUS`, `ORIGIN_UNPROVEN`, and the default `''`
pub data Origin : Type 0 where
  user venue ambiguous unproven unset : Origin

pub record LegEvent : Type 0 where
  pub exec_id : String
  pub seq : ℕ
  pub delta : ℤ
  pub own : Bool
  pub share : ℤ
  pub credit : ℤ
  pub origin : Origin
  pub entry : Option String  -- the raw row, which the ledger only carries

abbrev pub is_zero : ℤ → Bool
is_zero x = leb_ℤ x (pos 0) && leb_ℤ (pos 0) x

unfoldable pub own_share : LegEvent → ℤ
own_share e =
    if is_zero e.credit
    then e.share
    else e.share +ℤ (if ltb_ℤ (pos 0) e.delta then e.credit else neg e.credit)

pub record LegOutcome : Type 0 where
  pub event : Option LegEvent
  pub consumed : ℤ
  pub proven : Bool
  pub share_before : ℤ
  pub leg_after : ℤ
  pub seq : ℕ
  pub unexplained : ℤ
  pub doubtful : ℤ
  pub clipped : ℤ
  pub settled : Bool

pub record LegGap : Type 0 where
  pub ident : ℕ
  pub start_seq : Option ℕ
  pub end_seq : ℕ
  pub start_leg : ℤ
  pub end_leg : ℤ
  pub start_share : ℤ
  pub start_journal : ℤ
  pub start_doubt : ℤ
  pub events : List LegEvent
  pub late : List String
  pub doubt : ℤ
  pub settled : Bool

pub record Credit : Type 0 where
  pub seq : ℕ
  pub quantity : ℤ
  pub side : Dir

pub record View : Type 0 where
  pub seq : ℕ
  pub size : ℤ

pub record NewestView : Type 0 where
  pub seq : ℕ
  pub size : ℤ
  pub updated : ℕ

pub record LegLedger : Type 0 where
  pub views : List View
  pub events : List LegEvent
  pub cursor_seq : Option ℕ
  pub anchor_seq : Option ℕ
  pub cursor_leg : ℤ
  pub share : ℤ
  pub journal : ℤ
  pub gap_since : Option ℤ
  pub credits : List Credit
  pub latest_view_seq : ℕ
  pub newest_view : Option NewestView
  pub doubt : ℤ
  pub doubt_seq : ℕ
  pub blind_seq : Option ℕ
  pub room : Sides
  pub gaps : List LegGap
  pub to_net : Sides
  pub next_ident : ℕ

-- `LegLedger()`
abbrev pub new_ledger : LegLedger
new_ledger = record {
  views = [];
  events = [];
  cursor_seq = none;
  anchor_seq = none;
  cursor_leg = pos 0;
  share = pos 0;
  journal = pos 0;
  gap_since = none;
  credits = [];
  latest_view_seq = 0;
  newest_view = none;
  doubt = pos 0;
  doubt_seq = 0;
  blind_seq = none;
  room = no_sides;
  gaps = [];
  to_net = no_sides;
  next_ident = 0;
}
