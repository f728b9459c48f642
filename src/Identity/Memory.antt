-- ===== src/Identity/Memory.antt =====
-- An id_mapping collection in memory that only one resolver uses: what the MongoDB server answers
-- while no other pod writes and no call fails.
use ta2mongo.Prelude.{
  String, Bool, not, ◌&&◌, ◌||◌, none, List, [], ◌∷◌, ◌++◌, any, Result, ok, err, ◌==◌,
  if◌then◌else◌,
}
use ta2mongo.Prelude.Int.{ℤ, pos, ◌+ℤ◌, eq_ℤ}
use ta2mongo.Identity.Mapping.{IdMapping, DriverError, no_documents, duplicate_key, Driver}

pub record Memory : Type 0 where
  pub rows : List IdMapping
  pub seq : ℤ

unfoldable pub find : (IdMapping → Bool) → List IdMapping → Result DriverError IdMapping
find test [] = err no_documents
find test (r ∷ rows) = if test r then ok r else find test rows

abbrev pub has_account : String → IdMapping → Bool
has_account a r = not (a == "") && (r.account_id == a)

abbrev pub has_distinct : String → IdMapping → Bool
has_distinct d r = any (λ e. e == d) r.distinct_ids

abbrev pub has_user : ℤ → IdMapping → Bool
has_user u r = eq_ℤ r.user_id u

-- The first row that a test accepts, changed.
unfoldable pub change :
    (IdMapping → Bool) → (IdMapping → IdMapping) → List IdMapping → List IdMapping
change test f [] = []
change test f (r ∷ rows) = let rest = change test f rows in if test r then f r ∷ rows else r ∷ rest

unfoldable pub remove : (IdMapping → Bool) → List IdMapping → List IdMapping
remove test [] = []
remove test (r ∷ rows) = let rest = remove test rows in if test r then rows else r ∷ rest

-- $addToSet
abbrev pub add_to_set : String → IdMapping → IdMapping
add_to_set d r =
    if has_distinct d r then r else record r { distinct_ids = r.distinct_ids ++ d ∷ [] }

abbrev pub is_unbound : ℤ → IdMapping → Bool
is_unbound u r = has_user u r && (r.account_id == "")

-- The unique indexes are on the user and on an account that is set.
abbrev pub memory : Driver Memory
memory = record {
  find_account = λ a db. (find (has_account a) db.rows, db);
  find_distinct = λ d db. (find (has_distinct d) db.rows, db);
  insert = λ m db.
      if any (λ r. has_user m.user_id r || has_account m.account_id r) db.rows
      then (err duplicate_key, db)
      else (ok tt, record db { rows = db.rows ++ m ∷ [] });
  delete = λ u db. (ok tt, record db { rows = remove (has_user u) db.rows });
  add_distinct = λ u d db. (ok tt, record db { rows = change (has_user u) (add_to_set d) db.rows });
  set_account = λ u a db.
      if any (is_unbound u) db.rows
      then if any (has_account a) db.rows then (err duplicate_key, db) else (
        ok 1,
        record db { rows = change (is_unbound u) (λ r. record r { account_id = a }) db.rows },
      )
      else (ok 0, db);
  next_seq = λ db. let n = db.seq +ℤ pos 1 in (ok n, record db { seq = n });
  ctx_err = λ db. none;
}
