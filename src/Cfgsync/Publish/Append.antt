-- ===== src/Cfgsync/Publish/Append.antt =====
-- An append that succeeds has written a merge with the document that it replaced.
use ta2mongo.Prelude.{
  ℕ, zero, suc, ◌≡◌, refl, String, Option, none, some, List, [], ◌∷◌, Result, ok, err, arith, ◌>>=◌,
  Bool-cases, inl, inr,
}
use ta2mongo.Prelude.Int.{ℤ, pos, ◌+ℤ◌}
use ta2mongo.Value.{Fields, end, field, str, int64, put_all}
use ta2mongo.Filter.{ExprLang}
use ta2mongo.Cfgsync.Document.{doc_version}
use ta2mongo.Cfgsync.Publish.{
  PublishError, Collection, merge_publish_docs, validate_publish_doc, Turn, done, again, created,
  insert_new, create, updated, write_merged, update_at, update, attempt, resume, if_valid,
  append_loop, publish_append,
}

-- The calls of an append: a read with its answer, an insert, and an update with the version it
-- requires and the number of documents it matched.
pub data Call (E : Type 0) : Type 0 where
  read : Result E (Option Fields) → Call E
  inserted : Fields → Result E (Unit {0}) → Call E
  updated_at : ℤ → Fields → Result E (Option ℕ) → Call E

-- The last calls of an append of `doc` that answers version `v`. Either the document was missing
-- and the validated one was inserted, with version 1; or the document that was read last, of
-- version `v - 1`, was merged with `doc`, the merge passed the validation, and it replaced the
-- stored document, which still had that version.
pub data Landed {E : Type 0} (lang : ExprLang) (truncate : ℕ → ℤ) (id : String) (doc : Fields)
    : ℤ → List (Call E) → Type 0 where
  first_publication :
      (set : Fields) (l : List (Call E))
      → validate_publish_doc {E = E} lang doc ≡ ok set
      → Landed lang truncate id doc (pos 1) (
          inserted
            (put_all (field "_id" (str id) (field "version" (int64 (pos 1)) end)) set)
            (ok tt)
          ∷ read (ok none)
          ∷ l)
  merged :
      (cur set : Fields) (version : ℤ) (n : ℕ) (l : List (Call E))
      → doc_version truncate cur ≡ some version
      → merge_publish_docs {E = E} cur doc >>= validate_publish_doc lang ≡ ok set
      → Landed lang truncate id doc
          (version +ℤ pos 1)
          (updated_at version set (ok (some (suc n))) ∷ read (ok (some cur)) ∷ l)

module _ {E Db : Type 0} where
  -- A collection that records these calls, newest first.
  abbrev pub logged : Collection E Db → Collection E (Db × List (Call E))
  logged io = record {
    find_one = λ (db, l). let (a, db') = io.find_one db in (a, (db', read a ∷ l));
    upsert = λ set (db, l). let (a, db') = io.upsert set db in (a, (db', l));
    insert_one =
        λ doc (db, l). let (a, db') = io.insert_one doc db in (a, (db', inserted doc a ∷ l));
    update_version = λ v set (db, l).
        let (a, db') = io.update_version v set db in (a, (db', updated_at v set a ∷ l));
    is_duplicate_key = io.is_duplicate_key;
  }

  module _ (lang : ExprLang) (truncate : ℕ → ℤ) (id : String) (io : Collection E Db)
      (doc : Fields) where
    Success : Turn lang truncate id (logged io) → List (Call E) → Type 0
    Success t l = (v : ℤ) → t ≡ done (ok v) → Landed lang truncate id doc v l

    created_lem :
        (set : Fields) (answer : Result E (Unit {0})) (l : List (Call E))
        → validate_publish_doc {E = E} lang doc ≡ ok set
        → Success (created lang truncate id (logged io) answer) (
            inserted
              (put_all (field "_id" (str id) (field "version" (int64 (pos 1)) end)) set)
              answer
            ∷ read (ok none)
            ∷ l)
    unfolding Success
    created_lem set (ok _) l h v e =
        let same : pos 1 ≡ v = ground arith in rw (← same) (first_publication set l h)
    created_lem set (err c) l h v e = elim (Bool-cases (io.is_duplicate_key c)) [
      | inl d ↦ absurd (ground (arith, d, e))
      | inr d ↦ absurd (ground (arith, d, e))
    ]

    updated_lem :
        (cur set : Fields) (version : ℤ) (answer : Result E (Option ℕ)) (l : List (Call E))
        → doc_version truncate cur ≡ some version
        → merge_publish_docs {E = E} cur doc >>= validate_publish_doc lang ≡ ok set
        → Success
            (updated lang truncate id (logged io) version answer)
            (updated_at version set answer ∷ read (ok (some cur)) ∷ l)
    unfolding Success
    updated_lem cur set version (err c) l h k v e = absurd (ground arith)
    updated_lem cur set version (ok none) l h k v e = absurd (ground arith)
    updated_lem cur set version (ok (some zero)) l h k v e = absurd (ground arith)
    updated_lem cur set version (ok (some (suc n))) l h k v e =
        let same : version +ℤ pos 1 ≡ v = ground arith in
        rw (← same) (merged cur set version n l h k)

    insert_new_lem :
        (r : Result (PublishError E) Fields) (db : Db) (l : List (Call E))
        → validate_publish_doc lang doc ≡ r
        → let w = insert_new lang truncate id (logged io) r (db, read (ok none) ∷ l) in
          Success w.0 w.1.1
    unfolding insert_new Success
    insert_new_lem (err c) db l h v e = absurd (ground arith)
    insert_new_lem (ok set) db l h v e =
        let new = put_all (field "_id" (str id) (field "version" (int64 (pos 1)) end)) set in
        created_lem set (io.insert_one new db).0 l h v e

    write_merged_lem :
        (cur : Fields) (version : ℤ) (r : Result (PublishError E) Fields) (db : Db)
        (l : List (Call E))
        → doc_version truncate cur ≡ some version
        → merge_publish_docs cur doc >>= validate_publish_doc lang ≡ r
        → let w =
            write_merged lang truncate id (logged io) version r (db, read (ok (some cur)) ∷ l) in
          Success w.0 w.1.1
    unfolding write_merged Success
    write_merged_lem cur version (err c) db l h k v e = absurd (ground arith)
    write_merged_lem cur version (ok set) db l h k v e =
        updated_lem cur set version (io.update_version version set db).0 l h k v e

    update_at_lem :
        (cur : Fields) (found : Option ℤ) (db : Db) (l : List (Call E))
        → doc_version truncate cur ≡ found
        → let w =
            update_at lang truncate id (logged io) found cur doc (db, read (ok (some cur)) ∷ l) in
          Success w.0 w.1.1
    unfolding update_at
    update_at_lem cur none db l h = unfold Success in λ v e. absurd (ground arith)
    update_at_lem cur (some version) db l h =
        write_merged_lem cur version (merge_publish_docs cur doc >>= validate_publish_doc lang) db l
          h refl

    attempt_lem :
        (answer : Result E (Option Fields)) (db : Db) (l : List (Call E))
        → let r = attempt lang truncate id (logged io) doc (answer, (db, read answer ∷ l)) in
          Success r.0 r.1.1
    unfolding attempt create update
    attempt_lem (err c) db l = unfold Success in λ v e. absurd (ground arith)
    attempt_lem (ok none) db l = insert_new_lem (validate_publish_doc lang doc) db l refl
    attempt_lem (ok (some cur)) db l = update_at_lem cur (doc_version truncate cur) db l refl

    resume_lem :
        (turn : Turn lang truncate id (logged io)) (s : Db × List (Call E))
        (rest : Result (PublishError E) ℤ × (Db × List (Call E))) (v : ℤ)
        → Success turn s.1
        → (rest.0 ≡ ok v → Landed lang truncate id doc v rest.1.1)
        → let r = resume lang truncate id (logged io) turn s rest in
          r.0 ≡ ok v → Landed lang truncate id doc v r.1.1
    unfolding Success
    resume_lem (done r) s rest v h k e = h v (rw e refl)
    resume_lem again s rest v h k e = k e

    append_loop_lem :
        (n : ℕ) (db : Db) (l : List (Call E)) (v : ℤ)
        → let r = append_loop lang truncate id (logged io) n doc (db, l) in
          r.0 ≡ ok v → Landed lang truncate id doc v r.1.1
    unfolding append_loop
    append_loop_lem zero db l v e = absurd (ground arith)
    append_loop_lem (suc n) db l v e =
        let (answer, db') = io.find_one db in
        let (turn, s) = attempt lang truncate id (logged io) doc (answer, (db', read answer ∷ l)) in
        resume_lem turn s (append_loop lang truncate id (logged io) n doc s) v
          (attempt_lem answer db' l) (append_loop_lem n s.0 s.1 v) e

    if_valid_lem :
        (check : Result (PublishError E) Fields) (s : Db × List (Call E))
        (rest : Result (PublishError E) ℤ × (Db × List (Call E))) (v : ℤ)
        → (rest.0 ≡ ok v → Landed lang truncate id doc v rest.1.1)
        → let r = if_valid lang truncate id (logged io) check s rest in
          r.0 ≡ ok v → Landed lang truncate id doc v r.1.1
    if_valid_lem (err c) s rest v k e = absurd (ground arith)
    if_valid_lem (ok set) s rest v k e = k e

    -- An append that answers version `v`, whatever the database answers and whatever other
    -- publishers write between its calls, has ended with a write of `doc`: it inserted the validated
    -- document with version 1 after a read that found none, or it replaced the document that it read
    -- last, still at version `v - 1`, by the validated merge of that document and `doc`.
    pub publish_append-Landed :
        (db : Db) (v : ℤ)
        → let r = publish_append lang truncate id (logged io) doc (db, []) in
          r.0 ≡ ok v → Landed lang truncate id doc v r.1.1
    unfolding publish_append
    publish_append-Landed db v =
        if_valid_lem (validate_publish_doc lang doc) (db, [])
          (append_loop lang truncate id (logged io) 8 doc (db, [])) v (append_loop_lem 8 db [] v)
