-- ===== src/Ledger/Reach.antt =====
-- A ledger at work: any calls of its operations, in any order, from `LegLedger()`.
use pynecore_plugin_bybit.Prelude.{ℕ, Bool, ◌≡◌, Option, some, List, arith}
use pynecore_plugin_bybit.Prelude.Int.{ℤ, pos}
use pynecore_plugin_bybit.Ledger.State.{Dir, LegLedger, LegEvent, LegOutcome, new_ledger}
use pynecore_plugin_bybit.Ledger.Record.{
  add_view, add_event, start, last_view, sync_journal, take_to_net, take_credit,
}
use pynecore_plugin_bybit.Ledger.Late.{late_own, late_foreign}
use pynecore_plugin_bybit.Ledger.Advance.{advance}
use pynecore_plugin_bybit.Ledger.Journal.{IsBooked}
use pynecore_plugin_bybit.Ledger.Kept.{
  advance-IsBooked, start_on-IsBooked, start_on-IsBooked, sync_on-IsBooked, sync_on-IsBooked,
  add_view-IsBooked, add_event-IsBooked, late_own_on-IsBooked, late_own_on-IsBooked,
  late_own_on-IsBooked, late_foreign-IsBooked,
}

-- One call of an operation, with the tolerance that the plugin passes to all of them.
pub data Step (t : ℕ) : LegLedger → LegLedger → Type 0 where
  view_added :
      (seq : ℕ) (size : ℤ) (updated : Option ℕ) (l : LegLedger)
      → Step t l (add_view seq size updated l)
  event_added : (e : LegEvent) (l : LegLedger) → Step t l (add_event e l).0
  anchored : (journal : ℤ) (l : LegLedger) → Step t l (start journal (pos t) l).0
  journal_synced : (journal : ℤ) (l : LegLedger) → Step t l (sync_journal journal (pos t) l)
  own_arrived :
      (e : LegEvent) (l : LegLedger) (r : LegLedger × Option LegOutcome)
      → late_own e (pos t) l ≡ some r
      → Step t l r.0
  foreign_arrived : (e : LegEvent) (l : LegLedger) → Step t l (late_foreign e l).0
  netting_taken : (l : LegLedger) → Step t l (take_to_net l).0
  credit_taken :
      (seq : ℕ) (q : ℤ) (d : Dir) (l : LegLedger) → Step t l (take_credit seq q d (pos t) l).0
  advanced :
      (now grace : ℤ) (known : ℕ → Bool) (provable : Bool) (l : LegLedger)
      → (r : LegLedger × List LegOutcome) → advance now grace (pos t) known provable l ≡ some r
      → Step t l r.0

pub data Reach (t : ℕ) : LegLedger → Type 0 where
  fresh : Reach t new_ledger
  next : {l l' : LegLedger} → Reach t l → Step t l l' → Reach t l'

Step-IsBooked : {t : ℕ} {l l' : LegLedger} → Step t l l' → IsBooked t l → IsBooked t l'
Step-IsBooked {t} (view_added seq size updated l) h = add_view-IsBooked seq size updated t l h
Step-IsBooked {t} (event_added e l) h = add_event-IsBooked e t l h
Step-IsBooked {t} (anchored journal l) h =
    unfold start in start_on-IsBooked (last_view l.views) journal t l h
Step-IsBooked {t} (journal_synced journal l) h =
    unfold sync_journal in sync_on-IsBooked l.cursor_seq journal t l h
Step-IsBooked {t} (own_arrived e l r eq) h =
    late_own_on-IsBooked l.cursor_seq l.blind_seq e t l r (unfold late_own in eq)
Step-IsBooked {t} (foreign_arrived e l) h = late_foreign-IsBooked e t l h
Step-IsBooked {t} (netting_taken l) h = unfold take_to_net in h
Step-IsBooked {t} (credit_taken seq q d l) h = unfold take_credit in h
Step-IsBooked {t} (advanced now grace known provable l r eq) h =
    advance-IsBooked now grace t known provable l r eq h

-- Whatever operations a ledger has been through, in whatever order, the run's share is at most
-- what its journaled fills built, on the same side, up to the tolerance.
pub Reach-IsBooked : {t : ℕ} {l : LegLedger} → Reach t l → IsBooked t l
Reach-IsBooked fresh = ground arith
Reach-IsBooked (next r s) = Step-IsBooked s (Reach-IsBooked r)
