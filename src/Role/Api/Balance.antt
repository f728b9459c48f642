-- ===== src/Role/Api/Balance.antt =====
-- The summary of an upload accounts for every line.
use ta2mongo.Prelude.{ℕ, ◌+◌, ◌%◌, ◌^◌, ◌≡◌, refl, String, Bool, Option, List, Result, ok, arith}
use ta2mongo.Prelude.Int.{ℤ}
use ta2mongo.Value.{Fields}
use ta2mongo.Filter.{ExprLang}
use ta2mongo.WriteModel.{Model}
use ta2mongo.Identity.Mapping.{Driver}
use ta2mongo.Store.{Target, WriteError}
use ta2mongo.Process.Core.{Cause, Counters, zeros, count_stat, on_write_error}
use ta2mongo.Process.Core.Accounting.{IsBalanced, process-IsBalanced}
use ta2mongo.Process.Uploads.{Stage, End, RunError, World, process_in, write_in, stage}
use ta2mongo.Process.Mode as Mode
use ta2mongo.Process.Mode.{Uploader}
use ta2mongo.Process.Single
use ta2mongo.Process.Batch.{new_batch_size}
use ta2mongo.Process.Kept.{Keeps, batch_run-keeps, single_lines-keeps}
use ta2mongo.Process.Kept.Pools.{Reach-keeps}
use ta2mongo.Process.Pipeline.Threshold.{Float}
use ta2mongo.Role.Api.{
  Summary, summary_of, beside, Ran, by_single, by_batch, by_pipeline, Runs, completes,
}

module _ {W : Type 0} (P : W → Type 0) (calls : Stage W) (keeps : Keeps P calls) where
  beside-Keeps : Keeps (λ (s : W × Unit {0}). P s.0) (beside calls)
  beside-Keeps = record {
    line = λ l (w, u) p. keeps.line l w p;
    write = λ t ms (w, u) p. keeps.write t ms w p;
    note = λ (w, u) p. keeps.note w p;
  }

  module _ (gjson : String → String → Option String) (bytes : String → List ℕ) (float : Float)
      (counters : W → Counters) where
    Ran-keeps :
        {lines : List String} {end : End} {w : W} {u : Uploader} {e : Option RunError} {w' : W}
        → Ran gjson bytes float calls counters lines end w u e w'
        → P w
        → P w'
    unfolding Single.run
    Ran-keeps {lines} {end} {w} by_single p = single_lines-keeps P calls keeps lines w p
    Ran-keeps {lines} {end} {w} (by_batch size) p =
        batch_run-keeps P calls keeps (new_batch_size size) lines end w p
    Ran-keeps (by_pipeline cfg taken pool r returned) p =
        Reach-keeps gjson bytes float cfg P (beside calls) beside-Keeps r p

module _ (lang : ExprLang) (decode : String → Result String Fields) {Db : Type 0} (io : Driver Db)
    (error_text : Cause → String) (parsed_at written_at : Db → ℤ)
    (driver : Bool → Target → List Model → Db → Option WriteError × Db)
    (stopped : Db → Option WriteError) (retries : ℕ) (gjson : String → String → Option String)
    (bytes : String → List ℕ) (float : Float) where
  open lang use {Program}

  abbrev calls : Stage (World Program Db)
  calls = stage lang decode io error_text parsed_at written_at driver stopped retries

  abbrev WorldIsBalanced : World Program Db → Type 0
  WorldIsBalanced w = IsBalanced w.counters

  note-IsBalanced : (c : Counters) → IsBalanced c → IsBalanced (count_stat on_write_error c)
  unfolding count_stat
  note-IsBalanced c h = record { lines = h.lines; parsed = h.parsed; dead = h.dead }

  calls-Keeps : Keeps WorldIsBalanced calls
  unfolding process_in write_in
  calls-Keeps = record {
    line = λ l w h.
        process-IsBalanced lang decode io error_text (parsed_at w.resolver.db)
          (written_at w.resolver.db) w.filter w.filter l w.resolver w.counters h;
    write = λ t ms w h. h;
    note = λ w h. note-IsBalanced w.counters h;
  }

  abbrev counters : World Program Db → Counters
  counters w = w.counters

  summary_balanced :
      (c : Counters)
      → IsBalanced c
      → let s = summary_of c in
        s.lines % 2 ^ 64 ≡ (s.user_writes + s.event_writes + s.dead_letters + s.filtered) % 2 ^ 64
  summary_balanced c h = omega (arith, h.lines, h.parsed, h.dead)

  -- When an upload by the engine completes, with any settings and so by any of the strategies, and in
  -- any interleaving of the workers of the pipeline, the lines of its summary are the user writes,
  -- the event writes, the dead letters and the filtered lines together, modulo the wrap of the
  -- counters at 2 ^ 64.
  pub Runs-balanced :
      {cfg : Mode.Config} {lines : List String} {end : End} {w w' : World Program Db} {s : Summary}
      → Runs gjson bytes float calls counters cfg lines end w (ok s) w'
      → w.counters ≡ zeros
      → s.lines % 2 ^ 64 ≡ (s.user_writes + s.event_writes + s.dead_letters + s.filtered) % 2 ^ 64
  Runs-balanced {w = w} (completes u w' e ran) fresh =
      let initial : IsBalanced w.counters =
        rw fresh (record { lines = refl; parsed = refl; dead = refl }) in
      summary_balanced w'.counters
        (Ran-keeps WorldIsBalanced calls calls-Keeps gjson bytes float counters ran initial)
