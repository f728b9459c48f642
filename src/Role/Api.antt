-- ===== src/Role/Api.antt =====
-- internal/role/api/api.go: `Run` of the engine, with the strategy that the settings choose. How the
-- workers of the pipeline interleave is open, so a run is a relation.
pub mod Balance
use ta2mongo.Prelude.{
  ℕ, ◌<◌, ◌≡◌, String, Bool, true, false, Option, none, some, List, Result, ok, err,
}
use ta2mongo.Prelude.Int.{ℤ, pos_part}
use ta2mongo.Process.Core.{Counters}
use ta2mongo.Process.Uploads.{Stage, End, RunError}
use ta2mongo.Process.Single
use ta2mongo.Process.Batch
use ta2mongo.Process.Batch.{new_batch_size}
use ta2mongo.Process.Mode as Mode
use ta2mongo.Process.Mode.{
  ModeError, Uploader, single_uploader, batch_uploader, pipeline_uploader, mode_value, new,
}
use ta2mongo.Process.Pipeline.Config as Pipeline
use ta2mongo.Process.Pipeline.Threshold.{Float}
use ta2mongo.Process.Pipeline.Pool.{Pool, Reach}

-- api.Result
pub record Summary : Type 0 where
  pub lines : ℕ
  pub user_writes : ℕ
  pub event_writes : ℕ
  pub dead_letters : ℕ
  pub filtered : ℕ

abbrev pub summary_of : Counters → Summary
summary_of s = record {
  lines = s.total_lines;
  user_writes = s.user_writes;
  event_writes = s.event_writes;
  dead_letters = s.dead_letters;
  filtered = s.filtered;
}

pub data EngineError : Type 0 where
  bad_mode : ModeError → EngineError
  failed : RunError → EngineError

-- The calls of a worker of the pipeline, which keeps nothing for itself.
abbrev pub beside : {W : Type 0} → Stage W → Stage (W × Unit {0})
beside stage = record {
  process_line = λ line (w, u). let (outcome, w') = stage.process_line line w in (outcome, (w', u));
  write = λ target models (w, u). let (e, w') = stage.write target models w in (e, (w', u));
  note_write_error = λ (w, u). (stage.note_write_error w, u);
}

module _ (gjson : String → String → Option String) (bytes : String → List ℕ) (float : Float)
    {W : Type 0} (stage : Stage W) (counters : W → Counters) where
  -- `Run` of the strategies, on the lines that they receive before the source ends. The pipeline's
  -- returns when all its workers have, and never an error.
  pub data Ran (lines : List String) (end : End) (w : W)
      : Uploader → Option RunError → W → Type 0 where
    by_single :
        Ran lines end w single_uploader
          (Single.run stage lines end w).0
          (Single.run stage lines end w).1
    by_batch :
        (size : ℤ)
        → Ran lines end w
            (batch_uploader size)
            (Batch.run stage (new_batch_size size) lines end w).0
            (Batch.run stage (new_batch_size size) lines end w).1
    by_pipeline :
        (cfg : Pipeline.Config) (taken : List String) (p : Pool W (Unit {0}))
        → Reach gjson bytes float cfg (beside stage) w (λ i. tt) taken p
        → ((i : ℕ) → i < pos_part cfg.batch_workers → (p.slots i).running ≡ false)
        → Ran lines end w (pipeline_uploader cfg) none p.world

  -- `Run` of the engine, with its settings.
  pub data Runs (cfg : Mode.Config) (lines : List String) (end : End) (w : W)
      : Result EngineError Summary → W → Type 0 where
    no_mode :
        (e : ModeError) → mode_value (some cfg) ≡ err e → Runs cfg lines end w (err (bad_mode e)) w
    no_uploader :
        (e : ModeError) → new (some cfg) ≡ err e → Runs cfg lines end w (err (bad_mode e)) w
    fails :
        (u : Uploader) (e : RunError) (w' : W)
        → new (some cfg) ≡ ok u
        → Ran lines end w u (some e) w'
        → Runs cfg lines end w (err (failed e)) w'
    completes :
        (u : Uploader) (w' : W)
        → new (some cfg) ≡ ok u
        → Ran lines end w u none w'
        → Runs cfg lines end w (ok (summary_of (counters w'))) w'
