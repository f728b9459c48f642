-- ===== src/WriteModel/Tests.antt =====
-- Runs of the write models, and their theorems at concrete inputs.
use ta2mongo.Prelude.{
  ◌&&◌, ◌==◌, ℕ, String, ◌≡◌, refl, Bool, true, false, ◌||◌, Option, none, some, [], ◌∷◌, arith,
  or_else, ◌==◌, if◌then◌else◌,
}
use ta2mongo.Prelude.Int.{ℤ, pos, leb_ℤ}
use ta2mongo.Value.{
  Value, item, nil, Fields, end, field, int64, str, array, bson_array, bson_map, get, get_or_null,
  has, put, put_all,
}
use ta2mongo.WriteModel.{
  Model, update_one, one, is_meta, meta_fields, data_fields, guarded, merge_fields, meta_max_update,
  upsert_with_operator, to_each_fields, user_model, user_write_model, set_fields, max_fields,
  with_operator, unset_fields, event_write_model, event_doc, replace_one,
}
use ta2mongo.WriteModel.Operators.{weight, writers, update_of, writers-user_write_model}
use ta2mongo.WriteModel.Server.{Server, Documented, Holds}
use ta2mongo.WriteModel.Ordering.{
  user_fields, user_sets, user_set-newest_wins, user_set-skips_older,
}

models : Unit {0}
unfolding user_write_model user_model is_meta meta_fields data_fields guarded merge_fields
    meta_max_update upsert_with_operator to_each_fields unset_fields set_fields max_fields
    with_operator get_or_null put put_all event_write_model event_doc
models = tt

abbrev doc : Fields
doc =
    field "#type" (str "user_append")
      (field "_ts" (int64 (pos 5)) (field "tags" (str "x") (field "#uuid" (str "u") end)))

append_model :
    user_write_model "user_append" (pos 3) doc
    ≡ update_one
        (one "#user_id" (int64 (pos 3)))
        (field "$set"
          (bson_map (
            field "#type"
              (str "user_append")
              (field "#uuid" (str "u") (field "#user_id" (int64 (pos 3)) end))))
          (field "$max" (bson_map (one "_ts" (int64 (pos 5)))) (
            field "$push"
              (bson_map (one "tags" (bson_map (one "$each" (array (item (str "x") nil))))))
              end)))
        true
unfolding models
append_model = refl

overwrite_model :
    event_write_model (pos 9) "track_overwrite" "u" none
    ≡ replace_one
        (guarded "#uuid" (str "u") (int64 (pos 9)))
        (field "#uuid" (str "u") (field "_ts" (int64 (pos 9)) end))
        true
unfolding models
overwrite_model = refl

writers-user_write_model_example :
    writers "tags" (update_of (user_write_model "user_append" (pos 3) doc))
    ≡ weight (("#user_id" == "tags") || has "tags" doc)
writers-user_write_model_example = writers-user_write_model "tags" "user_append" (pos 3) doc refl

-- A server for guarded $set upserts.
append : Fields → Fields → Fields
append end d = d
append (field k v m) d = field k v (append m d)

get-append : (k : String) (m d : Fields) → get k (append m d) ≡ or_else (get k m) (get k d)
unfolding get append
get-append k end d = refl
get-append k (field j v m) d = ground (arith, get-append k m d)

guard_of : Fields → Option ℤ
guard_of
      (field k id (
        field o
          (bson_array
            (item a (item (bson_map (field t (bson_map (field l (int64 ts) end)) end)) nil)))
          end)) =
    if o == "$or" && (t == "_ts" && l == "$lte") then some ts else none
guard_of filter = none

is_newer : Option Value → ℤ → Bool
is_newer (some (int64 t)) ts = if leb_ℤ t ts then false else true
is_newer v ts = false

set_over : Fields → Option ℤ → Fields → Option Fields → Option Fields
set_over (field k id rest) (some ts) fields none = some (append fields (one k id))
set_over filter (some ts) fields (some d) =
    if is_newer (get "_ts" d) ts then some d else some (append fields d)
set_over filter guard fields state = state

abbrev run_write : Model → Option Fields → Option Fields
run_write (update_one filter (field op (bson_map fields) end) upsert) state =
    set_over filter (guard_of filter) fields state
run_write model state = state

abbrev server : Server
server = record {
  write = run_write;
  overlay = append;
  inserted = λ key id fields. append fields (one key id);
}

server_documented : Documented server "#user_id"
unfolding guarded guard_of set_over is_newer
server_documented = record {
  get-overlay = λ k fields d. get-append k fields d;
  get-inserted = λ k id fields. get-append k fields (one "#user_id" id);
  upserts = λ id ts fields. refl;
  matches_undated = λ id ts fields d undated. rw undated;
  matches = λ id ts t fields d at le. rw at (ground arith);
  skips = λ id ts t fields d at lt. rw at (ground arith);
}

abbrev dated_doc : ℕ → String → Fields
dated_doc ts name = field "_ts" (int64 (pos ts)) (field name (str "v") end)

user_set-newest_wins_example : Holds (pos 9) (user_fields (pos 3) (dated_doc 9 "a")) (
    user_sets server server_documented
      (pos 3)
      none
      (dated_doc 5 "b" ∷ dated_doc 9 "a" ∷ dated_doc 7 "c" ∷ []))
unfolding get
user_set-newest_wins_example =
    user_set-newest_wins server server_documented (pos 3) (pos 9) (dated_doc 9 "a")
      (dated_doc 5 "b" ∷ []) (dated_doc 7 "c" ∷ []) (refl, (refl, tt)) refl
      (((refl, (refl, tt)), (pos 5, refl, omega arith)), tt)
      (((refl, (refl, tt)), (pos 7, refl, omega arith)), tt)

user_set-skips_older_example :
    server.write (user_write_model "user_set" (pos 3) (dated_doc 5 "b")) (some (dated_doc 9 "a"))
    ≡ some (dated_doc 9 "a")
unfolding get
user_set-skips_older_example =
    user_set-skips_older server server_documented (pos 3) (pos 5) (pos 9) (dated_doc 5 "b")
      (dated_doc 9 "a") refl refl (omega arith)
