-- ===== src/Ledger/Frame.antt =====
-- What the helpers of `LegLedger` leave alone, and how a verdict moves the journal.
use pynecore_plugin_bybit.Prelude.{ℕ, Bool, true, false, ◌≡◌, refl, arith, if◌then◌else◌, ◌∙◌}
use pynecore_plugin_bybit.Prelude.Int.{ℤ, pos, ◌+ℤ◌, ◌-ℤ◌, ◌≤ℤ◌, int_laws, leb_ℤ}
use pynecore_plugin_bybit.Ledger.State.{
  Dir, up, down, flat, has_side, or_default, side_of, LegLedger, LegGap,
}
use pynecore_plugin_bybit.Ledger.Share.{
  take_journal, add_credit, cap_doubt, add_doubt, note_room, add_gap,
}

-- The two ledgers hold the same share, journal and nettings due.
pub record SameBook (l l' : LegLedger) : Type 0 where
  pub share : l'.share ≡ l.share
  pub journal : l'.journal ≡ l.journal
  pub to_net : l'.to_net ≡ l.to_net

pub cap_doubt-SameBook : (t : ℤ) (l : LegLedger) → SameBook l (cap_doubt t l)
unfolding cap_doubt
cap_doubt-SameBook t l = ground arith

pub add_credit-SameBook :
    (seq : ℕ) (q : ℤ) (d : Dir) (l : LegLedger) → SameBook l (add_credit seq q d l)
unfolding add_credit
add_credit-SameBook seq q d l = ground arith

pub note_room-SameBook : (leg share : ℤ) (l : LegLedger) → SameBook l (note_room leg share l)
unfolding note_room
note_room-SameBook leg share l = record { share = refl; journal = refl; to_net = refl }

pub add_gap-SameBook : (g : LegGap) (l : LegLedger) → SameBook l (add_gap g l)
unfolding add_gap
add_gap-SameBook g l = record { share = refl; journal = refl; to_net = refl }

pub SameBook-trans : {a b c : LegLedger} → SameBook a b → SameBook b c → SameBook a c
SameBook-trans h k = record {
  share = k.share ∙ h.share;
  journal = k.journal ∙ h.journal;
  to_net = k.to_net ∙ h.to_net;
}

-- a step that is made only under a test
pub SameBook-if :
    (b : Bool) {a c d : LegLedger} → SameBook a c → SameBook a d → SameBook a (if b then c else d)
SameBook-if true h k = h
SameBook-if false h k = k

pub SameBook-refl : (l : LegLedger) → SameBook l l
SameBook-refl l = record { share = refl; journal = refl; to_net = refl }

pub add_doubt-SameBook : (seq : ℕ) (q t : ℤ) (l : LegLedger) → SameBook l (add_doubt seq q t l)
unfolding add_doubt
add_doubt-SameBook seq q t l = SameBook-if (leb_ℤ q t) (SameBook-refl l) (
    SameBook-trans (record { share = refl; journal = refl; to_net = refl })
      (cap_doubt-SameBook t _))

pub ruleset same_book = (
  cap_doubt-SameBook, add_credit-SameBook, note_room-SameBook, add_gap-SameBook, add_doubt-SameBook,
  SameBook-trans, SameBook-if, SameBook-refl,
)

-- What a side still has to be netted.
abbrev pub due_on : Dir → LegLedger → ℤ
due_on d l = or_default (side_of l.to_net d) (pos 0)

-- The journal with the nettings handed out taken back.
unfoldable pub gross : LegLedger → ℤ
gross l = l.journal +ℤ due_on up l -ℤ due_on down l

unfoldable pub total_due : LegLedger → ℤ
total_due l = due_on up l +ℤ due_on down l

-- A verdict of a positive quantity.
pub gross-take_journal : (q : ℤ) (d : Dir) (l : LegLedger) → gross (take_journal q d l) ≡ gross l
unfolding gross take_journal
gross-take_journal q up l = grind int_laws
gross-take_journal q down l = grind int_laws
gross-take_journal q flat l = ground arith

pub total_due-take_journal :
    (q : ℤ) (d : Dir) (l : LegLedger)
    → pos 0 ≤ℤ q
    → has_side d ≡ true
    → total_due (take_journal q d l) ≡ total_due l +ℤ q
unfolding total_due take_journal
total_due-take_journal q up l h s = grind int_laws
total_due-take_journal q down l h s = grind int_laws
total_due-take_journal q flat l h s = cc
