-- ===== src/Role/Tests/Uploads.antt =====
-- An upload by the engine, in batch mode: a line that is filtered and one that is no JSON.
use ta2mongo.Prelude.{
  ℕ, ◌%◌, ◌^◌, ◌+◌, ◌≡◌, refl, String, Bool, true, false, Option, none, some, List, [], ◌∷◌, Result,
  ok, err, ◌==◌, codes, if◌then◌else◌,
}
use ta2mongo.Prelude.Int.{pos, pos_part}
use ta2mongo.Value.{Fields, end, field, str, bool, get_or_null, put, put_all, delete}
use ta2mongo.Filter.{ExprLang, is_empty, keep}
use ta2mongo.Talog.{parse_line, has_ta_keys, build_record, validate_by_type}
use ta2mongo.WriteModel.{Model}
use ta2mongo.Identity.Memory.{Memory, memory}
use ta2mongo.Store.{Target, WriteError}
use ta2mongo.Process.Core.{Cause, zeros, process, screen, dead, identified}
use ta2mongo.Process.Uploads as Uploads
use ta2mongo.Process.Uploads.{Stage, World, drained}
use ta2mongo.Process.Batch
use ta2mongo.Process.Mode.{batch_uploader, zero_config, new}
use ta2mongo.Process.Pipeline.Threshold.{Float}
use ta2mongo.Role.Api.{Summary, Runs, completes, by_batch}
use ta2mongo.Role.Api.Balance.{Runs-balanced}

abbrev lang : ExprLang
lang = record {
  Program = Bool;
  compile = λ text. ok true;
  run = λ p env. ok (get_or_null "vip" env);
}

abbrev decode : String → Result String Fields
decode line =
    if line == "{a}"
    then ok (
        field "#type" (str "user_set") (
          field "#uuid" (str "u") (
            field "#time" (str "t")
              (field "#account_id" (str "a") (field "vip" (bool false) end)))))
    else err "bad"

abbrev world : World Bool Memory
world = record {
  resolver = record {
    db = record { rows = []; seq = pos 0 };
    account_cache = [];
    distinct_cache = [];
  };
  filter = some (record { include = true ∷ []; exclude = [] });
  counters = zeros;
  retries = 0;
}

abbrev float : Float
float = record {
  Carrier = ℕ;
  of_int = pos_part;
  half = 0;
  div = λ a b. a;
  mul = λ a b. a;
  add = λ a b. a;
  sub = λ a b. a;
  le = λ a b. true;
  round_int = λ v. pos v;
}

abbrev no_json : String → String → Option String
no_json line path = none

abbrev error_text : Cause → String
error_text c = "failed"

abbrev written : Bool → Target → List Model → Memory → Option WriteError × Memory
written ordered target models db = (none, db)

abbrev calls : Stage (World Bool Memory)
calls =
    Uploads.stage lang decode memory error_text (λ db. pos 1) (λ db. pos 2) written (λ db. none) 0

abbrev uploaded : List String
uploaded = "{a}" ∷ "junk" ∷ []

abbrev after : World Bool Memory
after = (Batch.run calls 1000 uploaded drained world).1

abbrev summary : Summary
summary = record { lines = 2; user_writes = 0; event_writes = 0; dead_letters = 1; filtered = 1 }

batch_upload :
    Runs no_json codes float calls
      (λ w. w.counters)
      zero_config
      uploaded
      drained
      world
      (ok summary)
      after
unfolding new Batch.run Uploads.process_in process parse_line has_ta_keys build_record
    validate_by_type screen is_empty dead Batch.new_batch_size keep put put_all identified delete
    Uploads.write_in
batch_upload = completes (batch_uploader (pos 1000)) after refl (by_batch (pos 1000))

Runs-balanced_example :
    summary.lines % 2 ^ 64
    ≡ (summary.user_writes + summary.event_writes + summary.dead_letters + summary.filtered)
      % 2 ^ 64
Runs-balanced_example =
    Runs-balanced lang decode memory error_text (λ db. pos 1) (λ db. pos 2) written (λ db. none) 0
      no_json codes float batch_upload refl
