-- ===== src/Process/Single.antt =====
-- internal/process/single/uploader.go: the strategy that writes each line at once.
pub mod Runs
use ta2mongo.Prelude.{String, Option, none, some, List, [], ◌∷◌}
use ta2mongo.WriteModel.{Model}
use ta2mongo.Store.{Target, user, event, dead_letter, WriteError}
use ta2mongo.Process.Core.{
  Kind, kind_event, kind_user, kind_filtered, kind_parse_error, kind_identity_error,
}
use ta2mongo.Process.Uploads.{Stage, End, drained, cancelled, RunError, context_error}

module _ {W : Type 0} (stage : Stage W) where
  -- A failed write is counted and logged.
  unfoldable pub note_failure : Option WriteError → W → W
  note_failure none w = w
  note_failure (some e) w = stage.note_write_error w

  -- A bulk write of one model. A result that is not filtered has a model.
  unfoldable pub write_one : Target → Option Model → W → W
  unfolding note_failure
  write_one target none w = w
  write_one target (some m) w = let (e, w') = stage.write target (m ∷ []) w in note_failure e w'

  -- `write`, on the kind and the model of a result.
  unfoldable pub write : Kind → Option Model → W → W
  unfolding write_one
  write kind_parse_error m w = write_one dead_letter m w
  write kind_identity_error m w = write_one dead_letter m w
  write kind_filtered m w = w
  write kind_user m w = write_one user m w
  write kind_event m w = write_one event m w

  unfoldable pub run_lines : List String → W → W
  unfolding write
  run_lines [] w = w
  run_lines (line ∷ lines) w =
      let (res, w') = stage.process_line line w in run_lines lines (write res.kind res.model w')

  abbrev pub result : End → Option RunError
  result drained = none
  result (cancelled text) = some (context_error text)

  -- `Run` on the lines that it receives before the source ends.
  unfoldable pub run : List String → End → W → Option RunError × W
  unfolding run_lines
  run lines end w = (result end, run_lines lines w)
