-- ===== src/Cfgsync/Publish.antt =====
-- publish.go: validation, the merge of rules, and the three ways to publish. The settings, with
-- their defaults, say which document a `Collection` is about.
pub mod Rules
pub mod Gate
pub mod Append
pub mod Rejections
use ta2mongo.Prelude.{
  ℕ, zero, suc, String, Bool, true, false, not, ◌&&◌, Option, none, some, List, [], ◌∷◌, ◌++◌, any,
  Result, ok, err, ◌>>=◌, wrap, ◌==◌, if◌then◌else◌,
}
use ta2mongo.Prelude.Int.{ℤ, pos, ◌+ℤ◌, eq_ℤ}
use ta2mongo.Value.{
  Value, null, int64, str, strings, bson_map, Fields, end, field, get, get_or_null, has, put,
  put_all, is_empty,
}
use ta2mongo.Filter.{ExprLang}
use ta2mongo.Cfgsync.Document.{
  is_reserved, subtree_filter, doc_version, SliceError, to_string_slice, as_sub_document,
}
use ta2mongo.Cfgsync.Registry.{ApplyError, Registry, Live, apply, register_filter}

-- The errors of this file; `E` is that of the database.
pub data PublishError (E : Type 0) : Type 0 where
  empty_document no_subtrees no_version gave_up : PublishError E
  rejected : ApplyError → PublishError E
  stored_subtree published_subtree : Value → PublishError E
  bad_rules bad_stored_rules : String → SliceError → PublishError E
  publish_failed read_back_failed read_failed create_failed update_failed : E → PublishError E
  unknown_mode : String → PublishError E

-- The calls of dao.EJSON on the one document that is tracked, by its collection and `_id`.
pub record Collection (E Db : Type 0) : Type 0 where
  pub find_one : Db → Result E (Option Fields) × Db
  -- {$set, $inc: {version: 1}}, with upsert
  pub upsert : Fields → Db → Result E (Unit {0}) × Db
  pub insert_one : Fields → Db → Result E (Unit {0}) × Db
  -- the same without upsert, where the stored version is the one given: MatchedCount
  pub update_version : ℤ → Fields → Db → Result E (Option ℕ) × Db
  -- mongo.IsDuplicateKeyError
  pub is_duplicate_key : E → Bool

-- The loop over the fresh rules, with those seen.
unfoldable pub union_loop : List String → List String → List String → List String
union_loop seen out [] = out
union_loop seen out (r ∷ fresh) =
    let skipped = union_loop seen out fresh in
    let added = union_loop (r ∷ seen) (out ++ r ∷ []) fresh in
    if any (λ s. s == r) seen then skipped else added

unfoldable pub union_rules : List String → List String → List String
unfolding union_loop
union_rules stored fresh = union_loop stored stored fresh

-- The fields that are not reserved.
unfoldable pub strip : Fields → Fields
strip end = end
strip (field k v doc) = let rest = strip doc in if is_reserved k then rest else field k v rest

module _ {E : Type 0} where
  -- One turn of the loop over "include" and "exclude".
  unfoldable pub merge_side : String → Fields → Fields → Result (PublishError E) Fields
  unfolding get get_or_null put to_string_slice union_rules
  merge_side side delta merged = elim (get side delta) [
    | none ↦ ok merged
    | some rules ↦ do
      fresh ← wrap (bad_rules side) (to_string_slice rules)
      stored ← wrap (bad_stored_rules side) (to_string_slice (get_or_null side merged))
      ok (put side (strings (union_rules stored fresh)) merged)
  ]

  unfoldable pub merge_filter : Value → Value → Result (PublishError E) Value
  unfolding as_sub_document merge_side put_all
  merge_filter stored v = elim (as_sub_document stored) [
    | none ↦ err (stored_subtree stored)
    | some stored_sub ↦ elim (as_sub_document v) [
      | none ↦ err (published_subtree v)
      | some delta_sub ↦ do
        included ← merge_side "include" delta_sub (put_all end stored_sub)
        excluded ← merge_side "exclude" delta_sub included
        ok (bson_map excluded)
    ]
  ]

  -- A field of the delta that is not reserved.
  unfoldable pub merge_field : String → Value → Fields → Result (PublishError E) Fields
  unfolding merge_filter get put
  merge_field k v merged = elim (get k merged) [
    | none ↦ ok (put k v merged)
    | some stored ↦
        if k == subtree_filter
        then (merge_filter stored v >>= λ sub. ok (put k sub merged))
        else ok (put k v merged)
  ]

  -- The loop over the delta.
  unfoldable pub merge_from : Fields → Fields → Result (PublishError E) Fields
  unfolding merge_field
  merge_from merged end = ok merged
  merge_from merged (field k v delta) =
      let skipped = merge_from merged delta in
      if is_reserved k then skipped else (merge_field k v merged >>= λ next. merge_from next delta)

  unfoldable pub merge_publish_docs : Fields → Fields → Result (PublishError E) Fields
  unfolding merge_from strip
  merge_publish_docs cur delta = merge_from (strip cur) delta

  module _ (lang : ExprLang) where
    -- The throwaway parser's filter is nil.
    unfoldable pub validate_publish_doc : Fields → Result (PublishError E) Fields
    unfolding strip apply
    validate_publish_doc doc =
        let set = strip doc in
        if is_empty doc
        then err empty_document
        else if is_empty set
        then err no_subtrees
        else elim (apply (register_filter lang []) set none).0 [
          | some e ↦ err (rejected e)
          | none ↦ ok set
        ]

    module _ (truncate : ℕ → ℤ) (document_id : String) {Db : Type 0} (io : Collection E Db) where
      -- `version, _ := docVersion(updated)`
      abbrev pub version_or_zero : Option Fields → ℤ
      version_or_zero none = pos 0
      version_or_zero (some doc) = elim (doc_version truncate doc) [ none ↦ pos 0 | some v ↦ v ]

      abbrev pub read_back : Result E (Option Fields) × Db → Result (PublishError E) ℤ × Db
      read_back (err e, db) = (err (read_back_failed e), db)
      read_back (ok updated, db) = (ok (version_or_zero updated), db)

      abbrev pub published : Result E (Unit {0}) × Db → Result (PublishError E) ℤ × Db
      published (err e, db) = (err (publish_failed e), db)
      published (ok _, db) = read_back (io.find_one db)

      unfoldable pub publish : Fields → Db → Result (PublishError E) ℤ × Db
      unfolding validate_publish_doc
      publish doc db = elim (validate_publish_doc doc) [
        | err e ↦ (err e, db)
        | ok set ↦ published (io.upsert set db)
      ]

      -- What an attempt of `PublishAppend` ends with: a result, or another attempt.
      pub data Turn : Type 0 where
        done : Result (PublishError E) ℤ → Turn
        again : Turn

      abbrev pub created : Result E (Unit {0}) → Turn
      created (ok _) = done (ok (pos 1))
      created (err e) = if io.is_duplicate_key e then again else done (err (create_failed e))

      -- The insert of a validated document.
      unfoldable pub insert_new : Result (PublishError E) Fields → Db → Turn × Db
      unfolding put_all
      insert_new (err e) db = (done (err e), db)
      insert_new (ok set) db =
          let new = field "_id" (str document_id) (field "version" (int64 (pos 1)) end) in
          let (answer, db') = io.insert_one (put_all new set) db in (created answer, db')

      unfoldable pub create : Fields → Db → Turn × Db
      unfolding validate_publish_doc insert_new
      create doc db = insert_new (validate_publish_doc doc) db

      -- resp.MatchedCount == nil || *resp.MatchedCount == 0
      abbrev pub updated : ℤ → Result E (Option ℕ) → Turn
      updated version (err e) = done (err (update_failed e))
      updated version (ok none) = again
      updated version (ok (some zero)) = again
      updated version (ok (some (suc n))) = done (ok (version +ℤ pos 1))

      -- The guarded write of a validated merge.
      unfoldable pub write_merged : ℤ → Result (PublishError E) Fields → Db → Turn × Db
      write_merged version (err e) db = (done (err e), db)
      write_merged version (ok set) db =
          let (answer, db') = io.update_version version set db in (updated version answer, db')

      -- What follows the version of the stored document.
      unfoldable pub update_at : Option ℤ → Fields → Fields → Db → Turn × Db
      unfolding merge_publish_docs validate_publish_doc write_merged
      update_at none cur doc db = (done (err no_version), db)
      update_at (some version) cur doc db =
          write_merged version (merge_publish_docs cur doc >>= validate_publish_doc) db

      unfoldable pub update : Fields → Fields → Db → Turn × Db
      unfolding doc_version update_at
      update cur doc db = update_at (doc_version truncate cur) cur doc db

      -- One attempt, on the answer of the read.
      unfoldable pub attempt : Fields → Result E (Option Fields) × Db → Turn × Db
      unfolding create update
      attempt doc (err e, db) = (done (err (read_failed e)), db)
      attempt doc (ok none, db) = create doc db
      attempt doc (ok (some cur), db) = update cur doc db

      -- What follows an attempt: its result, or the attempts after it.
      abbrev pub resume :
          Turn → Db → Result (PublishError E) ℤ × Db → Result (PublishError E) ℤ × Db
      resume (done r) db rest = (r, db)
      resume again db rest = rest

      -- The loop, with the attempts left.
      unfoldable pub append_loop : ℕ → Fields → Db → Result (PublishError E) ℤ × Db
      unfolding attempt
      append_loop zero doc db = (err gave_up, db)
      append_loop (suc n) doc db =
          let (turn, db') = attempt doc (io.find_one db) in
          let rest = append_loop n doc db' in resume turn db' rest

      abbrev pub publish_append_attempts : ℕ
      publish_append_attempts = 8

      -- The early check of the document that is published.
      abbrev pub if_valid :
          Result (PublishError E) Fields
          → Db
          → Result (PublishError E) ℤ × Db
          → Result (PublishError E) ℤ × Db
      if_valid (err e) db rest = (err e, db)
      if_valid (ok set) db rest = rest

      unfoldable pub publish_append : Fields → Db → Result (PublishError E) ℤ × Db
      unfolding validate_publish_doc append_loop
      publish_append doc db =
          if_valid (validate_publish_doc doc) db (append_loop publish_append_attempts doc db)

      unfoldable pub publish_with_mode : Fields → String → Db → Result (PublishError E) ℤ × Db
      unfolding publish publish_append
      publish_with_mode doc mode db =
          let set_mode = publish doc db in
          let append_mode = publish_append doc db in
          if mode == ""
          then set_mode
          else if mode == "set"
          then set_mode
          else if mode == "append"
          then append_mode
          else (err (unknown_mode mode), db)
