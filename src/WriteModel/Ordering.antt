-- ===== src/WriteModel/Ordering.antt =====
-- What the `_ts` guard of the write models gives, on a server that does what MongoDB documents.
use ta2mongo.Prelude.{
  String, ◌≡◌, refl, Option, none, some, List, [], ◌∷◌, ◌++◌, arith, eq_iff, All, if◌then◌else◌,
}
use ta2mongo.Prelude.Int.{ℤ, ◌<ℤ◌}
use ta2mongo.Value.{Fields, end, field, int64, get, get_or_null, put, put_all, IsMap}
use ta2mongo.Value.Laws.{get-put, get-put_all, put-IsMap}
use ta2mongo.WriteModel.{
  is_meta, meta_fields, data_fields, guarded, merge_fields, user_model, user_write_model,
}
use ta2mongo.WriteModel.Server.{
  Server, set_model, Documented, IsOlder, Holds, Dated, IsOlder-write_set, Holds-write_newest,
  Holds-write_older,
}

-- The fields that `user_set` writes: those of the record, with its `#user_id`.
abbrev pub user_fields : ℤ → Fields → Fields
user_fields user_id doc = put "#user_id" (int64 user_id) doc

merged : Fields → Fields
merged doc = merge_fields (meta_fields doc) (data_fields doc)

get-meta_fields :
    (k : String) (m : Fields) → get k (meta_fields m) ≡ (if is_meta k then get k m else none)
unfolding get meta_fields
get-meta_fields k end = ground arith
get-meta_fields k (field j v m) = ground (arith, get-meta_fields k m, eq_iff j k)

get-data_fields :
    (k : String) (m : Fields) → get k (data_fields m) ≡ (if is_meta k then none else get k m)
unfolding get data_fields
get-data_fields k end = ground arith
get-data_fields k (field j v m) = ground (arith, get-data_fields k m, eq_iff j k)

meta-IsMap : (m : Fields) → IsMap m → IsMap (meta_fields m)
unfolding meta_fields
meta-IsMap end h = tt
meta-IsMap (field k v m) h = ground (arith, meta-IsMap m h.1, get-meta_fields k m)

data-IsMap : (m : Fields) → IsMap m → IsMap (data_fields m)
unfolding data_fields
data-IsMap end h = tt
data-IsMap (field k v m) h = ground (arith, data-IsMap m h.1, get-data_fields k m)

-- Splitting a document and merging the halves gives the document.
get-merged : (k : String) (doc : Fields) → IsMap doc → get k (merged doc) ≡ get k doc
unfolding merged merge_fields get
get-merged k doc h = ground (
  arith,
  get-put_all k (put_all end (meta_fields doc)) (data_fields doc) (data-IsMap doc h),
  get-put_all k end (meta_fields doc) (meta-IsMap doc h),
  get-meta_fields k doc,
  get-data_fields k doc,
)

guard_ts :
    (user_id ts : ℤ) (doc : Fields)
    → Dated ts doc
    → get_or_null "_ts" (meta_fields (user_fields user_id doc)) ≡ int64 ts
unfolding get_or_null is_meta
guard_ts user_id ts doc dated = ground (
  arith,
  get-meta_fields "_ts" (user_fields user_id doc),
  get-put "#user_id" "_ts" (int64 user_id) doc,
  dated,
)

user_set_model :
    (user_id ts : ℤ) (doc : Fields)
    → Dated ts doc
    → user_write_model "user_set" user_id doc
      ≡ set_model "#user_id" (int64 user_id) (int64 ts) (merged (user_fields user_id doc))
unfolding user_write_model user_model merged guarded merge_fields
user_set_model user_id ts doc dated = rw (guard_ts user_id ts doc dated)

module _ (s : Server) (law : Documented s "#user_id") (user_id : ℤ) where
  -- The document of one user after user_set records, in the order in which they are written.
  pub user_sets : Option Fields → List Fields → Option Fields
  user_sets state [] = state
  user_sets state (doc ∷ docs) =
      user_sets (s.write (user_write_model "user_set" user_id doc) state) docs

  -- A record with a timestamp before `n`.
  abbrev pub IsEarlier : ℤ → Fields → Type 0
  IsEarlier n doc = IsMap doc × ((ts : ℤ) × Dated ts doc × (ts <ℤ n))

  user_sets-append :
      (state : Option Fields) (xs ys : List Fields)
      → user_sets state (xs ++ ys) ≡ user_sets (user_sets state xs) ys
  unfolding user_sets
  user_sets-append state [] ys = refl
  user_sets-append state (x ∷ xs) ys =
      user_sets-append (s.write (user_write_model "user_set" user_id x) state) xs ys

  merged-Dated :
      (ts : ℤ) (doc : Fields)
      → IsMap doc
      → Dated ts doc
      → Dated ts (merged (user_fields user_id doc))
  merged-Dated ts doc m dated =
      rw (get-merged "_ts" _ (put-IsMap "#user_id" (int64 user_id) doc m), get-put, dated)

  IsOlder-user_sets :
      (n : ℤ) (docs : List Fields) (state : Option Fields)
      → All (IsEarlier n) docs
      → IsOlder n state
      → IsOlder n (user_sets state docs)
  unfolding user_sets
  IsOlder-user_sets n [] state h old = old
  IsOlder-user_sets n (doc ∷ docs) state ((m, (ts, dated, lt)), h) old =
      IsOlder-user_sets n docs (s.write (user_write_model "user_set" user_id doc) state) h (
        rw (user_set_model user_id ts doc dated) (
          IsOlder-write_set s "#user_id" law (int64 user_id) n ts _ state
            (merged-Dated ts doc m dated) lt old))

  Holds-user_sets :
      (n : ℤ) (newest : Fields) (docs : List Fields) (state : Option Fields)
      → All (IsEarlier n) docs
      → Holds n newest state
      → Holds n newest (user_sets state docs)
  unfolding user_sets
  Holds-user_sets n newest [] state h holds = holds
  Holds-user_sets n newest (doc ∷ docs) state ((m, (ts, dated, lt)), h) holds =
      Holds-user_sets n newest docs (s.write (user_write_model "user_set" user_id doc) state) h (
        rw (user_set_model user_id ts doc dated)
          (Holds-write_older s "#user_id" law (int64 user_id) n ts newest _ state lt holds))

  Holds-newest :
      (n : ℤ) (newest : Fields) (state : Option Fields)
      → IsMap newest
      → Dated n newest
      → IsOlder n state
      → Holds n
          (user_fields user_id newest)
          (s.write (user_write_model "user_set" user_id newest) state)
  Holds-newest n newest state m dated old =
      let (d, wrote, at, kept) =
        Holds-write_newest s "#user_id" law (int64 user_id) n (merged (user_fields user_id newest))
          state (merged-Dated n newest m dated) old in
      (
        d,
        rw (user_set_model user_id n newest dated) wrote,
        at,
        λ k v h. kept k v (rw (get-merged k _ (put-IsMap "#user_id" (int64 user_id) newest m)) h),
      )

  -- In whatever order the user_set records of one user are written, the document that results is
  -- dated by the newest of them and has each of its fields, if that one is alone the newest.
  pub user_set-newest_wins :
      (n : ℤ) (newest : Fields) (before after : List Fields)
      → IsMap newest
      → Dated n newest
      → All (IsEarlier n) before
      → All (IsEarlier n) after
      → Holds n (user_fields user_id newest) (user_sets none (before ++ newest ∷ after))
  user_set-newest_wins n newest before after m d b a =
      let first = IsOlder-user_sets n before none b tt in
      rw (user_sets-append none before (newest ∷ after)) (
        unfold user_sets in
        Holds-user_sets n (user_fields user_id newest) after _ a
          (Holds-newest n newest _ m d first))

  -- A user_set record that is older than the stored document changes nothing of it: it is dropped
  -- whole, with the fields that the document does not have.
  pub user_set-skips_older :
      (ts t : ℤ) (doc stored : Fields)
      → Dated ts doc
      → Dated t stored
      → ts <ℤ t
      → s.write (user_write_model "user_set" user_id doc) (some stored) ≡ some stored
  user_set-skips_older ts t doc stored dated at lt =
      rw (user_set_model user_id ts doc dated) (law.skips (int64 user_id) ts t _ stored at lt)
