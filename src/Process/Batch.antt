-- ===== src/Process/Batch.antt =====
-- internal/process/batch/uploader.go: the strategy that gathers models and writes them in batches.
pub mod Flushes
pub mod Runs
use ta2mongo.Prelude.{
  ℕ, suc, ◌+◌, String, Option, none, some, List, [], ◌∷◌, ◌++◌, leb, or_else, if◌then◌else◌,
}
use ta2mongo.Prelude.Int.{ℤ, pos, leb_ℤ, pos_part}
use ta2mongo.WriteModel.{Model}
use ta2mongo.Store.{Target, user, event, dead_letter, WriteError}
use ta2mongo.Process.Core.{
  Kind, kind_event, kind_user, kind_filtered, kind_parse_error, kind_identity_error, Outcome,
}
use ta2mongo.Process.Uploads.{Stage, End, drained, cancelled, RunError, write_failed, context_error}
use ta2mongo.Process.Uploads.Trace.{to_list}

abbrev pub default_batch_size : ℕ
default_batch_size = 1000

-- The batch size of `NewUploader`.
unfoldable pub new_batch_size : ℤ → ℕ
new_batch_size n = if leb_ℤ n (pos 0) then default_batch_size else pos_part n

-- The variables of `Run`. A result that is not filtered has a model.
pub record Buffers : Type 0 where
  pub users : List Model
  pub events : List Model
  pub deads : List Model
  pub pending : ℕ
  pub first : Option RunError

abbrev pub emptied : Option RunError → Buffers
emptied first = record { users = []; events = []; deads = []; pending = 0; first = first }

module _ {W : Type 0} (stage : Stage W) where
  -- The error of a write, after those before it.
  unfoldable pub note_failure :
      Target → Option WriteError → Option RunError → W → Option RunError × W
  note_failure target none first w = (first, w)
  note_failure target (some cause) first w =
      (or_else first (some (write_failed target cause)), stage.note_write_error w)

  -- One collection's part of `flush`.
  unfoldable pub flush_one : Target → List Model → Option RunError × W → Option RunError × W
  unfolding note_failure
  flush_one target [] (first, w) = (first, w)
  flush_one target (m ∷ models) (first, w) =
      let (e, w') = stage.write target (m ∷ models) w in note_failure target e first w'

  -- The method `flush`.
  unfoldable pub flush : Buffers → W → Option RunError × W
  unfolding flush_one
  flush b w =
      flush_one dead_letter b.deads (flush_one event b.events (flush_one user b.users (none, w)))

  -- The closure `flush` of `Run`.
  unfoldable pub flush_all : Buffers × W → Buffers × W
  unfolding flush
  flush_all (b, w) = let (e, w') = flush b w in (emptied (or_else b.first e), w')

  -- pending++, and the flush of a full batch.
  unfoldable pub count_pending : ℕ → Buffers × W → Buffers × W
  unfolding flush_all
  count_pending size (b, w) =
      let b' = record b { pending = suc b.pending } in
      if leb size b'.pending then flush_all (b', w) else (b', w)

  unfoldable pub absorb : ℕ → Kind → Option Model → Buffers × W → Buffers × W
  unfolding count_pending
  absorb size kind_parse_error m (b, w) =
      count_pending size (record b { deads = b.deads ++ to_list m }, w)
  absorb size kind_identity_error m (b, w) =
      count_pending size (record b { deads = b.deads ++ to_list m }, w)
  absorb size kind_filtered m (b, w) = (b, w)
  absorb size kind_user m (b, w) = count_pending size (record b { users = b.users ++ to_list m }, w)
  absorb size kind_event m (b, w) =
      count_pending size (record b { events = b.events ++ to_list m }, w)

  unfoldable pub run_line : ℕ → String → Buffers × W → Buffers × W
  unfolding absorb
  run_line size line (b, w) =
      let (res, w') = stage.process_line line w in absorb size res.kind res.model (b, w')

  unfoldable pub finish : End → Buffers × W → Option RunError × W
  unfolding flush_all
  finish drained (b, w) = let (b', w') = flush_all (b, w) in (b'.first, w')
  finish (cancelled text) (b, w) =
      let (b', w') = flush_all (b, w) in (or_else b'.first (some (context_error text)), w')

  unfoldable pub run_lines : ℕ → List String → Buffers × W → Buffers × W
  unfolding run_line
  run_lines size [] s = s
  run_lines size (line ∷ lines) s = run_lines size lines (run_line size line s)

  -- `Run` on the lines that it receives before the source ends.
  unfoldable pub run : ℕ → List String → End → W → Option RunError × W
  unfolding run_lines finish
  run size lines end w = finish end (run_lines size lines (emptied none, w))
