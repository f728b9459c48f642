-- ===== src/WriteModel.antt =====
-- internal/dao/store/writemodel.go: the MongoDB write model of a user_* or track* record, and of a
-- dead letter.
pub mod Operators
pub mod Server
pub mod Ordering
mod Tests
use ta2mongo.Prelude.{
  String, Bool, true, false, ◌&&◌, ◌||◌, Option, none, some, List, [], ◌∷◌, ◌==◌, if◌then◌else◌,
}
use ta2mongo.Prelude.Int.{ℤ}
use ta2mongo.Value.{
  Value, Items, nil, item, Fields, end, field, null, bool, int64, str, array, bson_array, bson_map,
  get, get_or_null, put, put_all, is_empty,
}

-- mongo.WriteModel: the models that this file builds.
pub data Model : Type 0 where
  -- filter, update, upsert
  update_one : Fields → Fields → Bool → Model
  -- filter, replacement, upsert
  replace_one : Fields → Fields → Bool → Model
  delete_one : Fields → Model
  insert_one : Fields → Model

-- metaKeys
unfoldable pub is_meta : String → Bool
is_meta k =
    k == "#uuid"
    || k == "#type"
    || k == "#time"
    || k == "#user_id"
    || k == "#account_id"
    || k == "#distinct_id"
    || k == "_ts"

-- The two halves of `splitFields`.
unfoldable pub meta_fields : Fields → Fields
meta_fields end = end
meta_fields (field k v m) = let rest = meta_fields m in if is_meta k then field k v rest else rest

unfoldable pub data_fields : Fields → Fields
data_fields end = end
data_fields (field k v m) = let rest = data_fields m in if is_meta k then rest else field k v rest

abbrev pub one : String → Value → Fields
one k v = field k v end

unfoldable pub ts_guard_or : Value → Value
ts_guard_or ts = bson_array (
    item (bson_map (one "_ts" (bson_map (one "$exists" (bool false)))))
      (item (bson_map (one "_ts" (bson_map (one "$lte" ts)))) nil))

-- `setFields` and `maxFields` of `metaMaxUpdate`
unfoldable pub set_fields : Fields → Fields
set_fields end = end
set_fields (field k v m) = let rest = set_fields m in if k == "_ts" then rest else field k v rest

unfoldable pub max_fields : Fields → Fields
max_fields end = end
max_fields (field k v m) = let rest = max_fields m in if k == "_ts" then field k v rest else rest

-- if len(fields) > 0 { update[op] = fields }
unfoldable pub with_operator : String → Fields → Fields → Fields
unfolding is_empty put
with_operator op fields update = if is_empty fields then update else put op (bson_map fields) update

unfoldable pub meta_max_update : Fields → Fields
meta_max_update meta =
    with_operator "$max" (max_fields meta) (with_operator "$set" (set_fields meta) end)

-- `mergeFields`: the copy of both maps into a new one
unfoldable pub merge_fields : Fields → Fields → Fields
unfolding put_all
merge_fields meta props = put_all (put_all end meta) props

unfoldable pub upsert_with_operator : Fields → Fields → String → Fields → Model
upsert_with_operator filter meta op props =
    update_one filter (with_operator op props (meta_max_update meta)) true

-- `toEachFields`; the type switch names []any alone.
unfoldable pub each_value : Value → Value
each_value (array items) = bson_map (one "$each" (array items))
each_value v = bson_map (one "$each" (array (item v nil)))

unfoldable pub to_each_fields : Fields → Fields
unfolding each_value
to_each_fields end = end
to_each_fields (field k v m) = field k (each_value v) (to_each_fields m)

-- The values of `unset`: every data field, as "".
unfoldable pub unset_fields : Fields → Fields
unset_fields end = end
unset_fields (field k v m) = field k (str "") (unset_fields m)

-- filter["$or"] = tsGuardOr(ts)
unfoldable pub guarded : String → Value → Value → Fields
unfolding ts_guard_or
guarded key id ts = field key id (one "$or" (ts_guard_or ts))

-- `UserWriteModel` on the document with its `#user_id` set.
unfoldable pub user_model : String → Value → Fields → Model
user_model typ id doc =
    let filter = one "#user_id" id in
    let meta = meta_fields doc in
    let props = data_fields doc in
    let guard = guarded "#user_id" id (get_or_null "_ts" meta) in
    let set_all = update_one guard (one "$set" (bson_map (merge_fields meta props))) true in
    if typ == "user_set"
    then set_all
    else if typ == "user_setOnce"
    then upsert_with_operator filter meta "$setOnInsert" props
    else if typ == "user_add"
    then upsert_with_operator filter meta "$inc" props
    else if typ == "user_unset"
    then update_one guard (with_operator "$unset" (unset_fields props) (one "$set" (bson_map meta)))
        true
    else if typ == "user_del"
    then delete_one filter
    else if typ == "user_append"
    then upsert_with_operator filter meta "$push" (to_each_fields props)
    else if typ == "user_uniq_append"
    then upsert_with_operator filter meta "$addToSet" (to_each_fields props)
    else set_all

unfoldable pub user_write_model : String → ℤ → Fields → Model
user_write_model typ user_id doc =
    user_model typ (int64 user_id) (put "#user_id" (int64 user_id) doc)

abbrev pub is_null : Value → Bool
is_null null = true
is_null v = false

abbrev pub is_blank_text : Value → Bool
is_blank_text (str s) = s == ""
is_blank_text v = true

-- The document of an event with its `#uuid` and `_ts` filled in.
unfoldable pub event_doc : ℤ → String → Fields → Fields
unfolding get_or_null put
event_doc now uuid doc =
    let named =
      if is_blank_text (get_or_null "#uuid" doc) then put "#uuid" (str uuid) doc else doc in
    if is_null (get_or_null "_ts" named) then put "_ts" (int64 now) named else named

-- `EventWriteModel`; a nil document is `none`.
unfoldable pub event_write_model : ℤ → String → String → Option Fields → Model
event_write_model now typ uuid given =
    let doc = event_doc now uuid (elim given [ none ↦ end | some d ↦ d ]) in
    let guard = guarded "#uuid" (str uuid) (get_or_null "_ts" doc) in
    let once = update_one (one "#uuid" (str uuid)) (one "$setOnInsert" (bson_map doc)) true in
    if typ == "track"
    then once
    else if typ == "track_update"
    then update_one guard (one "$set" (bson_map doc)) true
    else if typ == "track_overwrite"
    then replace_one guard doc true
    else once

-- `DeadLetterModel`; the error is its text, `none` for nil.
unfoldable pub dead_letter_model : ℤ → String → Option String → Model
dead_letter_model now line failure =
    let text : String = elim failure [ none ↦ "" | some e ↦ e ] in
    insert_one (field "_ts" (int64 now) (field "line" (str line) (field "error" (str text) end)))
