-- ===== src/Stops/Complete.antt =====
-- The search of the execution history misses nothing (`_unbooked_executions` of
-- pynecore_bybit/events.py).
use pynecore_plugin_bybit.Prelude.{
  not, ◌&&◌, str_eq, Bool, true, false, ◌≡◌, List, [], ◌∷◌, sort_by, if◌then◌else◌, String,
}
use pynecore_plugin_bybit.Stops.Downtime.{one_of, ExecRow, sorts_before}
use pynecore_plugin_bybit.Stops.Unbooked.{
  History, ExecSearch, found, unfinished, baseline_error, has_id, note_all, drain_deriv_exec_window,
}
use pynecore_plugin_bybit.Stops.Recovered.{Window, AllWanted}

-- all windows are read to their ends
abbrev pub all_read : History → List Window → Bool
all_read venue [] = true
all_read venue (w ∷ ws) = (drain_deriv_exec_window venue w.0 w.1).1 && all_read venue ws

module _ (booked : List String) (keeps : ExecRow → Bool) where
  -- the rows noted, window by window
  noted : History → List ExecRow → List Window → List ExecRow
  noted venue rows [] = rows
  noted venue rows (w ∷ ws) =
      noted venue (note_all booked keeps rows (drain_deriv_exec_window venue w.0 w.1).0) ws

  -- an execution that should have been found and was not
  abbrev pub missed : List ExecRow → ExecRow → Bool
  missed rows e =
      not (str_eq e.exec_id "")
      && not (one_of e.exec_id booked)
      && keeps e
      && not (has_id e.exec_id rows)

  abbrev pub NoneMissed : List ExecRow → List ExecRow → Type 0
  NoneMissed rows [] = Unit
  NoneMissed rows (e ∷ es) = (missed rows e ≡ false) × NoneMissed rows es

  -- of what the venue reports in the windows
  abbrev pub Covers : History → List ExecRow → List Window → Type 0
  Covers venue rows [] = Unit
  Covers venue rows (w ∷ ws) =
      NoneMissed rows (drain_deriv_exec_window venue w.0 w.1).0 × Covers venue rows ws

  -- How a search may end: not without an answer; with rows, where all windows are read to their ends, and
  -- else with the error.
  abbrev pub Answers : History → List Window → ExecSearch → Type 0
  Answers venue ws unfinished = ⊥
  Answers venue ws baseline_error = all_read venue ws ≡ false
  Answers venue ws (found rows) =
      (all_read venue ws ≡ true) × AllWanted booked keeps rows × Covers venue rows ws

  module _ (venue : History) where
    abbrev answer : List Window → List ExecRow → ExecSearch
    answer ws rows =
        if all_read venue ws
        then found (sort_by sorts_before (noted venue rows ws))
        else baseline_error
