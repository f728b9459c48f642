-- ===== src/Role/Daemon.antt =====
-- internal/role/daemon: report.go and `maskURI` of role.go. What the watcher of the central
-- configuration reads until the gate is decided, and the times at which the gate looks, are a list.
pub mod Ingestion
pub mod Mask
use ta2mongo.Prelude.{
  ℕ, zero, suc, ◌+◌, String, Bool, true, false, ◌&&◌, Option, none, some, List, [], ◌∷◌, ◌++◌,
  Result, ok, err, nat_eq, codes, if◌then◌else◌,
}
use ta2mongo.Prelude.Int.{ℤ, pos, ltb_ℤ}
use ta2mongo.Value.{Fields}
use ta2mongo.Cfgsync.Watcher.{Watcher, new_watcher, read_once}
use ta2mongo.Process.Mode
use ta2mongo.Process.Mode.{ModeError, Uploader, new}

unfoldable pub fd_watchdog_triggered : ℤ → ℤ → Bool
fd_watchdog_triggered open_fds threshold = ltb_ℤ (pos 0) threshold && ltb_ℤ threshold open_fds

-- `reportStats` with the counts of open files at its ticks, until the context is done: how many
-- reports it makes, and whether it triggers the restart.
unfoldable pub report_stats : ℤ → List ℤ → ℕ × Bool
unfolding fd_watchdog_triggered
report_stats threshold [] = (0, false)
report_stats threshold (open_fds ∷ ticks) =
    let (reports, restart) = report_stats threshold ticks in
    if fd_watchdog_triggered open_fds threshold then (1, true) else (suc reports, restart)

-- What happens while the daemon waits: a read of the watcher, the gate finds that `Ready` is
-- closed or not, the warning, or the end of the context.
pub data Moment (F : Type 0) : Type 0 where
  reading : Result F (Option Fields) → Moment F
  looking : Moment F
  warning : Moment F
  context_done : Moment F

pub data Gate : Type 0 where
  waiting : Gate
  opened : Gate
  stopped : Gate

module _ (truncate : ℕ → ℤ) {E F S : Type 0} (on_change : Option (Fields → S → Option E × S)) where
  -- The loop of `Run` before the ingestion starts, with the watcher that runs beside it.
  unfoldable pub wait_for_config : Watcher S → List (Moment F) → Gate × Watcher S
  unfolding read_once
  wait_for_config w [] = (waiting, w)
  wait_for_config w (reading answer ∷ moments) =
      wait_for_config (read_once truncate on_change answer w) moments
  wait_for_config w (looking ∷ moments) =
      let rest = wait_for_config w moments in if w.ready then (opened, w) else rest
  wait_for_config w (warning ∷ moments) = wait_for_config w moments
  wait_for_config w (context_done ∷ moments) = (stopped, w)

-- What the daemon's `Run` does, in order.
pub data Action : Type 0 where
  report_started : Action
  cfgsync_started : Action
  ingesting : Uploader → Action
  summary_logged : Action

pub data RunError : Type 0 where
  no_log_pattern : RunError
  not_built : ModeError → RunError

abbrev pub is_nil : List String → Bool
is_nil [] = true
is_nil (p ∷ ps) = false

-- The ingestion, by the pipeline whatever mode is set. Its `Run` always returns nil.
unfoldable pub ingest : Mode.Config → List Action × Option RunError
unfolding new
ingest cfg = elim (new (some (record cfg { mode = "pipeline" }))) [
  | err e ↦ ([], some (not_built e))
  | ok uploader ↦ (ingesting uploader ∷ summary_logged ∷ [], none)
]

-- What follows the gate.
abbrev pub after_gate : Gate → Mode.Config → List Action × Option RunError
after_gate waiting cfg = ([], none)
after_gate stopped cfg = (summary_logged ∷ [], none)
after_gate opened cfg = ingest cfg

abbrev pub preceded : List Action → List Action × Option RunError → List Action × Option RunError
preceded first (actions, e) = (first ++ actions, e)

module _ (truncate : ℕ → ℤ) {E F S : Type 0} (on_change : Option (Fields → S → Option E × S)) where
  -- `Run` with the log patterns, the settings, and whether cfgsync is enabled.
  unfoldable pub run :
      List String → Mode.Config → Bool → S → List (Moment F) → List Action × Option RunError
  unfolding wait_for_config ingest
  run patterns cfg enabled live moments =
      if is_nil patterns
      then ([], some no_log_pattern)
      else if enabled
      then preceded (report_started ∷ cfgsync_started ∷ [])
          (after_gate (wait_for_config truncate on_change (new_watcher live) moments).0 cfg)
      else preceded (report_started ∷ []) (ingest cfg)
