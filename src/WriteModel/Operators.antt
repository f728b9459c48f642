-- ===== src/WriteModel/Operators.antt =====
-- Which update operator writes a field of the record.
use ta2mongo.Prelude.{
  ℕ, ◌+◌, String, ◌≡◌, refl, ◌∙◌, Bool, true, false, not, ◌&&◌, ◌||◌, none, arith, ◌==◌, eq_iff,
}
use ta2mongo.Prelude.Int.{ℤ}
use ta2mongo.Value.{Value, Fields, end, field, int64, bson_map, get, has, put, put_all, is_empty}
use ta2mongo.Value.Laws.{get-put}
use ta2mongo.WriteModel.{
  Model, update_one, is_meta, meta_fields, data_fields, one, set_fields, max_fields, with_operator,
  meta_max_update, merge_fields, upsert_with_operator, to_each_fields, unset_fields, user_model,
  user_write_model,
}

abbrev pub weight : Bool → ℕ
weight true = 1
weight false = 0

-- How many operators of an update document name a field.
pub writers : String → Fields → ℕ
unfolding has
writers k end = 0
writers k (field op (bson_map fields) update) = weight (has k fields) + writers k update
writers k (field op v update) = writers k update

-- The update document of a model, if it has one.
abbrev pub update_of : Model → Fields
update_of (update_one filter update upsert) = update
update_of m = end

module _ (k : String) where
  has-meta_fields : (m : Fields) → has k (meta_fields m) ≡ (is_meta k && has k m)
  unfolding has meta_fields
  has-meta_fields end = ground arith
  has-meta_fields (field j v m) = ground (arith, has-meta_fields m, eq_iff j k)

  has-data_fields : (m : Fields) → has k (data_fields m) ≡ (not (is_meta k) && has k m)
  unfolding has data_fields
  has-data_fields end = ground arith
  has-data_fields (field j v m) = ground (arith, has-data_fields m, eq_iff j k)

  has-set_fields : (m : Fields) → has k (set_fields m) ≡ (not (k == "_ts") && has k m)
  unfolding has set_fields
  has-set_fields end = ground arith
  has-set_fields (field j v m) = ground (arith, has-set_fields m, eq_iff j k)

  has-max_fields : (m : Fields) → has k (max_fields m) ≡ ((k == "_ts") && has k m)
  unfolding has max_fields
  has-max_fields end = ground arith
  has-max_fields (field j v m) = ground (arith, has-max_fields m, eq_iff j k)

  has-to_each_fields : (m : Fields) → has k (to_each_fields m) ≡ has k m
  unfolding has to_each_fields
  has-to_each_fields end = refl
  has-to_each_fields (field j v m) = ground (arith, has-to_each_fields m)

  has-unset_fields : (m : Fields) → has k (unset_fields m) ≡ has k m
  unfolding has unset_fields
  has-unset_fields end = refl
  has-unset_fields (field j v m) = ground (arith, has-unset_fields m)

  has-put_all : (dst src : Fields) → has k (put_all dst src) ≡ (has k src || has k dst)
  unfolding has put_all
  has-put_all dst end = refl
  has-put_all dst (field j v src) = ground (arith, has-put_all (put j v dst) src, get-put j k v dst)

  not-has-empty : (m : Fields) → is_empty m ≡ true → has k m ≡ false
  unfolding has is_empty
  not-has-empty end h = refl
  not-has-empty (field j v m) h = cc

  writers-put :
      (op : String) (fields update : Fields)
      → get op update ≡ none
      → writers k (put op (bson_map fields) update) ≡ weight (has k fields) + writers k update
  unfolding writers get put
  writers-put op fields end absent = refl
  writers-put op fields (field i (bson_map fs) u) absent = ground (arith, writers-put op fields u)
  writers-put op fields (field i v u) absent = ground (arith, writers-put op fields u)

  writers-with_operator :
      (op : String) (fields update : Fields)
      → get op update ≡ none
      → writers k (with_operator op fields update) ≡ weight (has k fields) + writers k update
  unfolding with_operator
  writers-with_operator op fields update absent =
      ground (arith, writers-put op fields update absent, not-has-empty fields)

  writers-one :
      (op : String) (fields : Fields) → writers k (one op (bson_map fields)) ≡ weight (has k fields)
  unfolding writers
  writers-one op fields = omega arith

get-with_operator :
    (k op : String) (fields update : Fields)
    → (op == k) ≡ false
    → get k (with_operator op fields update) ≡ get k update
unfolding with_operator
get-with_operator k op fields update h = ground (arith, get-put op k (bson_map fields) update)

module _ (k : String) (m : Fields) where
  weights-set_max : weight (has k (max_fields m)) + weight (has k (set_fields m)) ≡ weight (has k m)
  weights-set_max = ground (arith, has-max_fields k m, has-set_fields k m)

  weights-meta_data :
      weight (has k (data_fields m)) + weight (has k (meta_fields m)) ≡ weight (has k m)
  weights-meta_data = ground (arith, has-data_fields k m, has-meta_fields k m)

  weight-merge_fields :
      weight (has k (merge_fields (meta_fields m) (data_fields m))) ≡ weight (has k m)
  unfolding merge_fields has get
  weight-merge_fields = ground (
    arith,
    has-put_all k (put_all end (meta_fields m)) (data_fields m),
    has-put_all k end (meta_fields m),
    has-data_fields k m,
    has-meta_fields k m,
  )

-- `metaMaxUpdate` shares the meta fields out between $max and $set, and a further operator is
-- beside them.
writers-meta_max :
    (k op : String) (meta props : Fields)
    → ("$set" == op) ≡ false
    → ("$max" == op) ≡ false
    → writers k (with_operator op props (meta_max_update meta))
      ≡ weight (has k props) + weight (has k meta)
unfolding meta_max_update writers get
writers-meta_max k op meta props p q =
    let inner = with_operator "$set" (set_fields meta) end in
    let absent : get op (with_operator "$max" (max_fields meta) inner) ≡ none =
      get-with_operator op "$max" (max_fields meta) inner q
      ∙ get-with_operator op "$set" (set_fields meta) end p in
    let free : get "$max" inner ≡ none =
      get-with_operator "$max" "$set" (set_fields meta) end refl in
    omega (
      arith,
      writers-with_operator k op props (with_operator "$max" (max_fields meta) inner) absent,
      writers-with_operator k "$max" (max_fields meta) inner free,
      writers-with_operator k "$set" (set_fields meta) end refl,
      weights-set_max k meta,
    )

unset_free : (meta : Fields) → get "$unset" (one "$set" (bson_map meta)) ≡ none
unfolding get
unset_free meta = refl

writers-user_model :
    (k typ : String) (id : Value) (doc : Fields)
    → (typ == "user_del") ≡ false
    → writers k (update_of (user_model typ id doc)) ≡ weight (has k doc)
unfolding user_model upsert_with_operator
writers-user_model k typ id doc h =
    let meta = meta_fields doc in
    let props = data_fields doc in
    let each = to_each_fields props in
    ground (
      arith,
      writers-one k "$set" (merge_fields meta props),
      weight-merge_fields k doc,
      weights-meta_data k doc,
      writers-meta_max k "$setOnInsert" meta props refl refl,
      writers-meta_max k "$inc" meta props refl refl,
      writers-meta_max k "$push" meta each refl refl,
      writers-meta_max k "$addToSet" meta each refl refl,
      has-to_each_fields k props,
      writers-with_operator k "$unset" (unset_fields props) (one "$set" (bson_map meta))
          (unset_free meta),
      writers-one k "$set" meta,
      has-unset_fields k props,
    )

-- In the update of every user operation but a deletion, each field of the record, and `#user_id`,
-- is written by exactly one operator, and no other field is written: MongoDB refuses an update in
-- which two operators name one field.
pub writers-user_write_model :
    (k typ : String) (user_id : ℤ) (doc : Fields)
    → (typ == "user_del") ≡ false
    → writers k (update_of (user_write_model typ user_id doc))
      ≡ weight (("#user_id" == k) || has k doc)
unfolding user_write_model has
writers-user_write_model k typ user_id doc h = ground (
  arith,
  writers-user_model k typ (int64 user_id) (put "#user_id" (int64 user_id) doc) h,
  get-put "#user_id" k (int64 user_id) doc,
)
