-- ===== src/Cfgsync/Tests.antt =====
-- Runs of the watcher and of the publications, and the theorems of internal/cfgsync at concrete
-- inputs.
use ta2mongo.Prelude.{
  arith, ◌≤◌, ℕ, ◌≡◌, ◌↔◌, refl, String, Bool, true, false, Option, none, some, List, [], ◌∷◌,
  Result, ok, err, inr,
}
use ta2mongo.Prelude.Int.{◌≤ℤ◌, ℤ, pos, eq_ℤ, ◌+ℤ◌}
use ta2mongo.Value.{
  Value, Fields, end, field, str, strings, int64, bson_map, bool, get, get_or_null, put, put_all,
  is_empty,
}
use ta2mongo.Filter.{ExprLang, build}
use ta2mongo.Cfgsync.Document.{as_sub_document, to_string_slice, doc_version}
use ta2mongo.Cfgsync.Registry.{apply, register_filter}
use ta2mongo.Cfgsync.Registry.Filters.{filters, compiled, apply-live}
use ta2mongo.Cfgsync.Watcher.{new_watcher, poll}
use ta2mongo.Cfgsync.Watcher.Guard.{watch, Converged, poll-Converged}
use ta2mongo.Cfgsync.Watcher.Newest.{poll-newest_live}
use ta2mongo.Cfgsync.ChangeStream.{Occurrence, event, broke, reconcile, stream_run}
use ta2mongo.Cfgsync.ChangeStream.Reads.{reads_of, stream_run-poll}
use ta2mongo.Cfgsync.Publish.{Collection, union_rules, strip, validate_publish_doc, publish_append}
use ta2mongo.Cfgsync.Publish.Rules.{IsUnion, union_rules-IsUnion}
use ta2mongo.Cfgsync.Publish.Gate.{validate_publish_doc_iff}
use ta2mongo.Cfgsync.Publish.Append.{logged, Landed, publish_append-Landed}
use ta2mongo.Cfgsync.Config.{
  Config, apply_defaults, validate, IsComplete, apply_defaults-IsComplete,
}

abbrev always : ExprLang
always = record { Program = Bool; compile = λ text. ok true; run = λ p env. ok (bool p) }

abbrev truncate : ℕ → ℤ
truncate bits = pos 0

abbrev rules : List String → Value
rules r = bson_map (field "include" (strings r) end)

abbrev document : ℕ → List String → Fields
document v r =
    field "_id" (str "filter") (field "version" (int64 (pos v)) (field "filter" (rules r) end))

-- An applier that fails on every document.
abbrev failing : Fields → ℕ → Option String × ℕ
failing doc n = (some "bad", n)

abbrev reads : List (Result String (Option Fields))
reads =
    ok none
    ∷ ok (some (document 2 []))
    ∷ err "down"
    ∷ ok (some (document 1 []))
    ∷ ok (some (document 5 []))
    ∷ []

poll_runs :
    (poll truncate (watch truncate failing) reads (new_watcher (0, [])))
    ≡ record { last_version = pos 5; ready = false; live = (0, document 5 [] ∷ document 2 [] ∷ []) }
unfolding poll get_or_null
poll_runs = refl

poll-Converged_example :
    Converged truncate failing reads
      (poll truncate (watch truncate failing) reads (new_watcher (0, [])))
poll-Converged_example = poll-Converged truncate failing reads 0

apply-live_example :
    (apply (filters always) (document 3 ("x" ∷ [])) none).1
    ≡ (elim (get "filter" (document 3 ("x" ∷ []))) [
      | none ↦ none
      | some val ↦ elim (compiled always val) [ ok flt ↦ some flt | err e ↦ none ]
    ])
apply-live_example =
    apply-live always (document 3 ("x" ∷ [])) none (unfold get in (refl, (refl, (refl, tt))))

validate_publish_doc_iff_example :
    (validate_publish_doc {E = String} always (document 3 ("x" ∷ []))
      ≡ ok (strip (document 3 ("x" ∷ []))))
    ↔ ((apply (filters always) (document 3 ("x" ∷ [])) none).0 ≡ none)
unfolding strip is_empty
validate_publish_doc_iff_example = validate_publish_doc_iff always (document 3 ("x" ∷ [])) none refl

union_runs : union_rules ("a" ∷ "b" ∷ []) ("c" ∷ "a" ∷ "c" ∷ []) ≡ "a" ∷ "b" ∷ "c" ∷ []
unfolding union_rules
union_runs = refl

union_rules-IsUnion_example :
    IsUnion ("a" ∷ []) ("c" ∷ "a" ∷ []) (union_rules ("a" ∷ []) ("c" ∷ "a" ∷ []))
union_rules-IsUnion_example = union_rules-IsUnion ("a" ∷ []) ("c" ∷ "a" ∷ [])

-- A collection in memory with the one document.
abbrev set_on : Fields → ℤ → Fields → Fields
set_on set v doc = put "version" (int64 v) (put_all doc set)

abbrev next_version : Option Fields → ℤ
next_version none = pos 1
next_version (some doc) = elim (doc_version truncate doc) [ none ↦ pos 1 | some v ↦ v +ℤ pos 1 ]

abbrev doc_or_end : Option Fields → Fields
doc_or_end none = end
doc_or_end (some doc) = doc

abbrev is_at : ℤ → Option Fields → Bool
is_at v none = false
is_at v (some doc) = elim (doc_version truncate doc) [ none ↦ false | some u ↦ eq_ℤ u v ]

abbrev update_if : Bool → Fields → Option Fields → Result String (Option ℕ) × Option Fields
update_if true set db = (ok (some 1), some (set_on set (next_version db) (doc_or_end db)))
update_if false set db = (ok (some 0), db)

abbrev insert_into : Fields → Option Fields → Result String (Unit {0}) × Option Fields
insert_into doc none = (ok tt, some doc)
insert_into doc (some old) = (err "duplicate key", some old)

abbrev in_memory : Collection String (Option Fields)
in_memory = record {
  find_one = λ db. (ok db, db);
  upsert = λ set db. (ok tt, some (set_on set (next_version db) (doc_or_end db)));
  insert_one = insert_into;
  update_version = λ v set db. update_if (is_at v db) set db;
  is_duplicate_key = λ e. true;
}

publish_append_runs :
    (publish_append always truncate "filter" in_memory
      (document 0 ("b" ∷ []))
      (some (document 3 ("a" ∷ []))))
    ≡ (ok (pos 4), some (document 4 ("a" ∷ "b" ∷ [])))
unfolding publish_append doc_version put_all put get_or_null is_empty register_filter build
publish_append_runs = refl

publish_append-Landed_example :
    let r =
      publish_append always truncate "filter"
        (logged in_memory)
        (document 0 ("b" ∷ []))
        (some (document 3 ("a" ∷ [])), []) in
    Landed always truncate "filter" (document 0 ("b" ∷ [])) (pos 4) r.1.1
unfolding publish_append doc_version put_all put get_or_null is_empty register_filter build
publish_append-Landed_example =
    publish_append-Landed always truncate "filter" in_memory (document 0 ("b" ∷ []))
      (some (document 3 ("a" ∷ []))) (pos 4) refl

abbrev settings : Config
settings = record {
  enabled = true;
  backend = "changestream";
  document_id = "";
  poll_interval = pos 0;
  reconcile_interval = pos 7;
  collection = "";
}

apply_defaults-IsComplete_example :
    (validate (apply_defaults settings) ≡ ok tt) × IsComplete (apply_defaults settings)
apply_defaults-IsComplete_example = apply_defaults-IsComplete settings (inr (inr refl))

abbrev late : List (Result String (Option Fields))
late =
    ok (some (document 2 ("y" ∷ [])))
    ∷ err "down"
    ∷ ok none
    ∷ ok (some (document 3 ("x" ∷ [])))
    ∷ []

upto : (n v : ℕ) → n ≤ v → (u : ℤ) → ◌≡◌ {A = Option ℤ} (some (pos n)) (some u) → u ≤ℤ pos v
upto n v h u e = let same : pos n ≡ u = ground arith in rw (← same) (omega (arith, h))

poll-newest_live_example :
    (poll truncate
      (some (apply (filters always)))
      (ok (some (document 3 ("x" ∷ []))) ∷ late)
      (new_watcher none)).live
    ≡ some (record { include = true ∷ []; exclude = [] })
unfolding get doc_version get_or_null as_sub_document to_string_slice build
poll-newest_live_example =
    poll-newest_live truncate always (document 3 ("x" ∷ [])) (pos 3) (rules ("x" ∷ []))
      (record { include = true ∷ []; exclude = [] }) late (new_watcher none)
      (refl, (refl, (refl, tt))) refl (omega arith) refl refl
      (upto 2 3 (omega arith), (tt, (tt, (upto 3 3 (omega arith), tt))))

abbrev occurrences : List (Occurrence String)
occurrences =
    event (ok (some (document 4 [])))
    ∷ broke (false ∷ true ∷ []) (ok none)
    ∷ reconcile (err "down")
    ∷ []

stream_run-poll_example :
    (stream_run truncate
      (some failing)
      (ok tt)
      (ok (some (document 2 [])))
      occurrences
      (new_watcher 0)).1
    ≡ poll truncate
        (some failing)
        (ok (some (document 2 [])) ∷ reads_of occurrences)
        (new_watcher 0)
stream_run-poll_example =
    stream_run-poll truncate (some failing) (ok (some (document 2 []))) occurrences (new_watcher 0)
