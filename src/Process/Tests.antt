-- ===== src/Process/Tests.antt =====
-- Runs of the strategies, and the theorems of internal/process at concrete inputs.
mod Pool
use ta2mongo.Prelude.{
  ℕ, ◌+◌, ◌*◌, ◌/◌, ◌%◌, ◌≡◌, ◌↔◌, refl, arith, String, Bool, true, false, Option, none, some, List,
  [], ◌∷◌, Result, ok, err, ◌==◌, codes, nat_eq, if◌then◌else◌,
}
use ta2mongo.Prelude.Int.{ℤ, pos, negsuc, pos_part, neg_part, leb_ℤ, ◌+ℤ◌, ◌-ℤ◌, ◌≤ℤ◌}
use ta2mongo.Value.{Fields, end, field, str, bool, get_or_null}
use ta2mongo.Filter.{ExprLang, Filter, keep, is_empty}
use ta2mongo.Talog.{Record, parse_line}
use ta2mongo.WriteModel.{dead_letter_model}
use ta2mongo.Identity.Memory.{Memory, memory}
use ta2mongo.Identity.Resolver.{Resolver}
use ta2mongo.Store.{Target, dead_letter, WriteError, other}
use ta2mongo.Process.Core.{
  kind_event, kind_user, kind_filtered, kind_parse_error, Cause, Outcome, process,
}
use ta2mongo.Process.Core.Outcomes.{process-dropped_iff}
use ta2mongo.Process.Uploads.{Stage, drained, cancelled, write_failed}
use ta2mongo.Process.Batch
use ta2mongo.Process.Batch.Runs
use ta2mongo.Process.Single
use ta2mongo.Process.Single.Runs.{run-batch_of_one}
use ta2mongo.Process.Mode as ProcessMode
use ta2mongo.Process.Mode.{mode_value, mode_pipeline, ModeError, Mode, Uploader, zero_config, new}
use ta2mongo.Process.Mode.Choice.{mode_of, IsRunnable, new-Chosen}
use ta2mongo.Process.Pipeline.Config.{Config, apply_defaults}
use ta2mongo.Process.Pipeline.Config.Laws.{IsUsable, apply_defaults-IsUsable}
use ta2mongo.Process.Pipeline.Threshold.{Float, compute_flush_threshold}
use ta2mongo.Process.Pipeline.Threshold.Bounds.{compute_flush_threshold-bounds}
use ta2mongo.Process.Pipeline.Routing.{route_index, extract_routing_key}
use ta2mongo.Process.Pipeline.Dispatch.{Offer, dispatch}
use ta2mongo.Process.Pipeline.Worker.{Event, received, tick}
use ta2mongo.Process.Pipeline.Worker.Runs as WorkerRuns
use ta2mongo.Process.Pipeline.Worker.Runs.{count_lines}

abbrev vip_lang : ExprLang
vip_lang = record {
  Program = Bool;
  compile = λ text. ok true;
  run = λ p env. elim p [ false ↦ err "no such name" | true ↦ ok (get_or_null "vip" env) ];
}

abbrev vips : Option (Filter Bool)
vips = some (record { include = true ∷ []; exclude = [] })

abbrev decode : String → Result String Fields
decode line =
    if line == "{a}"
    then ok (
        field "#type" (str "user_set") (
          field "#uuid" (str "u") (
            field "#time" (str "t")
              (field "#account_id" (str "a") (field "vip" (bool false) end)))))
    else err "bad"

abbrev pod : Resolver Memory
pod = record { db = record { rows = []; seq = pos 0 }; account_cache = []; distinct_cache = [] }

abbrev text : Cause → String
text c = "failed"

process-dropped_iff_example :
    let o = (process vip_lang decode memory text (pos 1) (pos 2) vips vips "{a}" pod).0.0 in
    let dropped =
      (r : Record) × (parse_line (pos 1) decode "{a}" ≡ ok r)
      × ((is_empty vip_lang vips ≡ false) × ((keep vip_lang vips r.doc).0 ≡ false)) in
    ((o.kind ≡ kind_filtered) ↔ dropped) × ((o.model ≡ none) ↔ dropped)
process-dropped_iff_example =
    process-dropped_iff vip_lang decode memory text (pos 1) (pos 2) vips vips "{a}" pod

-- A stage whose lines name their kinds, and whose dead letters cannot be written; it counts the
-- failed writes.
abbrev outcome_of : String → Outcome
outcome_of line =
    if line == "user"
    then record {
      kind = kind_user;
      model = some (dead_letter_model (pos 1) line none);
      cause = none;
    }
    else if line == "event"
    then record {
      kind = kind_event;
      model = some (dead_letter_model (pos 1) line none);
      cause = none;
    }
    else if line == "out"
    then record { kind = kind_filtered; model = none; cause = none }
    else record {
      kind = kind_parse_error;
      model = some (dead_letter_model (pos 1) line none);
      cause = none;
    }

abbrev answer_to : Target → Option WriteError
answer_to dead_letter = some (other "closed")
answer_to t = none

abbrev pub stage : Stage ℕ
stage = record {
  process_line = λ line n. (outcome_of line, n);
  write = λ target models n. (answer_to target, n);
  note_write_error = λ n. n + 1;
}

abbrev lines : List String
lines = "user" ∷ "bad" ∷ "out" ∷ "event" ∷ "user" ∷ []

batch_runs :
    Batch.run stage 2 lines (cancelled "stop") 0
    ≡ (some (write_failed dead_letter (other "closed")), 1)
unfolding Batch.run
batch_runs = refl

run-batch_of_one_example :
    (Batch.run stage 1 lines drained 0).1 ≡ (Single.run stage lines drained 0).1
run-batch_of_one_example = run-batch_of_one stage lines drained 0

-- Thousandths in place of floats; what is rounded is not negative.
abbrev scaled : ℤ → ℕ → ℤ
scaled (pos a) b = pos (a * b / 1000)
scaled (negsuc a) b = pos 0 -ℤ pos ((a + 1) * b / 1000)

abbrev pub thousandths : Float
thousandths = record {
  Carrier = ℤ;
  of_int = λ n. (pos (1000 * pos_part n)) -ℤ pos (1000 * neg_part n);
  half = pos 500;
  div = λ a b. pos (pos_part a * 1000 / pos_part b);
  mul = λ a b. scaled a (pos_part b);
  add = λ a b. a +ℤ b;
  sub = λ a b. a -ℤ b;
  le = leb_ℤ;
  round_int = λ v. pos ((pos_part v + 500) / 1000);
}

threshold_runs :
    (compute_flush_threshold thousandths (pos 10) (pos 40) (pos 80) (pos 25) (pos 100) ≡ 60)
    × (compute_flush_threshold thousandths (pos 10) (pos 40) (pos 80) (pos 75) (pos 100) ≡ 25)
unfolding compute_flush_threshold
threshold_runs = (refl, refl)

compute_flush_threshold-bounds_example :
    let out =
      pos (compute_flush_threshold thousandths (pos 10) (pos 40) (pos 80) (pos 75) (pos 100)) in
    (pos 10 ≤ℤ out) × (out ≤ℤ pos 80)
compute_flush_threshold-bounds_example =
    compute_flush_threshold-bounds thousandths (pos 10) (pos 40) (pos 80) (pos 75) (pos 100)
      (omega arith) (omega arith) (omega arith)

abbrev unset : Config
unset = record {
  batch_size = pos 4;
  batch_size_min = pos 9;
  batch_size_max = pos 0;
  batch_workers = pos 0;
  flush_interval = pos 0;
  channel_buffer = pos 0;
  dead_letter_cap = pos 0;
}

apply_defaults-IsUsable_example : IsUsable (apply_defaults unset)
apply_defaults-IsUsable_example = apply_defaults-IsUsable unset (omega arith)

abbrev offers : List Offer
offers =
    record { line = "a"; has_room = λ i. nat_eq i 1; waited = false }
    ∷ record { line = "b"; has_room = λ i. false; waited = true }
    ∷ []

route_index_runs : route_index (codes "a") (pos 1000003) ≡ 3826002220 % 1000003
unfolding route_index
route_index_runs = refl

abbrev pub no_json : String → String → Option String
no_json line path = none

dispatch_runs : dispatch no_json codes 3 offers ≡ ((1, "a") ∷ (0, "b") ∷ [], false)
unfolding dispatch route_index extract_routing_key
dispatch_runs = refl

abbrev events : List Event
events =
    received "user" (pos 0) false
    ∷ received "bad" (pos 3) false
    ∷ tick
    ∷ received "event" (pos 8) true
    ∷ []

abbrev pipelined : Option ProcessMode.Config
pipelined = some (record zero_config { mode = "pipeline" })

new_runs : mode_value pipelined ≡ ok mode_pipeline
unfolding mode_value
new_runs = refl
