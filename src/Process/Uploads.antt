-- ===== src/Process/Uploads.antt =====
-- What the upload strategies of internal/process share: the processor and the store they call, as
-- an interface, its implementation by the modelled components, and the trace of its calls.
pub mod Trace
use ta2mongo.Prelude.{ℕ, ◌+◌, String, Bool, false, Option, none, some, List, [], ◌∷◌, Result}
use ta2mongo.Prelude.Int.{ℤ}
use ta2mongo.Value.{Fields}
use ta2mongo.Filter.{ExprLang, Filter}
use ta2mongo.WriteModel.{Model}
use ta2mongo.Identity.Mapping.{Driver}
use ta2mongo.Identity.Resolver.{Resolver}
use ta2mongo.Store.{Target, WriteError, bulk_write, count_retries}
use ta2mongo.Process.Core.{
  Cause, Outcome, Stat, on_write_error, process, Counters, count_stat, count_stats,
}

-- The calls of a strategy on a state `W`: `Processor.Process`, an unordered `Store.BulkWrite`, and
-- `StatsCollector.OnWriteError`.
pub record Stage (W : Type 0) : Type 0 where
  pub process_line : String → W → Outcome × W
  pub write : Target → List Model → W → Option WriteError × W
  pub note_write_error : W → W

-- How a source ends: drained, or the context is cancelled with an error.
pub data End : Type 0 where
  drained : End
  cancelled : String → End

-- The errors of `Run`.
pub data RunError : Type 0 where
  write_failed : Target → WriteError → RunError
  context_error : String → RunError

-- The process around a strategy: the resolver with its database, the filter that the holder
-- has, and the counters.
pub record World (P Db : Type 0) : Type 0 where
  pub resolver : Resolver Db
  pub filter : Option (Filter P)
  pub counters : Counters
  pub retries : ℕ

module _ (lang : ExprLang) (decode : String → Result String Fields) {Db : Type 0} (io : Driver Db)
    (error_text : Cause → String) (parsed_at written_at : Db → ℤ)
    (driver : Bool → Target → List Model → Db → Option WriteError × Db)
    (stopped : Db → Option WriteError) (retries : ℕ) where
  open lang use {Program}

  unfoldable pub process_in : String → World Program Db → Outcome × World Program Db
  unfolding count_stats
  process_in line w =
      let now = parsed_at w.resolver.db in
      let later = written_at w.resolver.db in
      let ((outcome, stats), s) =
        process lang decode io error_text now later w.filter w.filter line w.resolver in
      (outcome, record w { resolver = s; counters = count_stats stats w.counters })

  unfoldable pub write_in :
      Target → List Model → World Program Db → Option WriteError × World Program Db
  unfolding bulk_write count_retries
  write_in target models w =
      let r = bulk_write driver (stopped w.resolver.db) retries false target models w.resolver.db in
      (
        r.failure,
        record w {
          resolver = record w.resolver { db = r.world };
          retries = count_retries r.attempts w.retries;
        },
      )

  -- The strategies' calls, as the components make them.
  abbrev pub stage : Stage (World Program Db)
  stage = record {
    process_line = process_in;
    write = write_in;
    note_write_error = λ w. record w { counters = count_stat on_write_error w.counters };
  }
