-- ===== src/Identity/Atomic.antt =====
-- identity_atomic.go: the creations and bindings, with their answers to a lost race.
use ta2mongo.Prelude.{
  ℕ, String, Bool, false, Option, none, some, [], ◌∷◌, Result, ok, err, ltb, if◌then◌else◌,
}
use ta2mongo.Prelude.Int.{ℤ, eq_ℤ}
use ta2mongo.Identity.Mapping.{IdMapping, DriverError, is_duplicate_key, Driver}
use ta2mongo.Identity.Resolver.{
  driver, bind_after_race, orphan_left, Exec, pure, fail, ◌>>=◌, ◌>>◌, call, cache_account,
  cache_distinct, cache_mapping, find_by_account_id, find_by_distinct_id, next_user_id,
}

module _ {Db : Type 0} (io : Driver Db) where
  -- What follows a duplicate key on an insert: the record of the pod that came first.
  abbrev pub adopt : DriverError → Option IdMapping → Exec Db ℤ
  adopt e none = fail (driver e)
  adopt e (some existing) = do cache_mapping existing; pure existing.user_id

  unfoldable pub after_insert_account : String → ℤ → Result DriverError (Unit {0}) → Exec Db ℤ
  unfolding find_by_account_id cache_mapping
  after_insert_account account_id user_id (ok _) = do cache_account account_id user_id; pure user_id
  after_insert_account account_id user_id (err e) =
      if is_duplicate_key e then (find_by_account_id io account_id >>= adopt e) else fail (driver e)

  unfoldable pub atomic_create_for_account_id : String → Exec Db ℤ
  unfolding next_user_id after_insert_account
  atomic_create_for_account_id account_id = do
    user_id ← next_user_id io
    inserted ←
        call (io.insert (record { user_id = user_id; account_id = account_id; distinct_ids = [] }))
    after_insert_account account_id user_id inserted

  after_delete : IdMapping → Result DriverError (Unit {0}) → Exec Db ℤ
  unfolding cache_mapping
  after_delete existing (err e) = fail (orphan_left e)
  after_delete existing (ok _) = do cache_mapping existing; pure existing.user_id

  -- The re-read after the insert: another document with the distinct id wins.
  verify_distinct : String → ℤ → Option IdMapping → Exec Db ℤ
  unfolding after_delete
  verify_distinct distinct_id user_id none = do cache_distinct distinct_id user_id; pure user_id
  verify_distinct distinct_id user_id (some existing) =
      let won = call (io.delete user_id) >>= after_delete existing in
      let ours = cache_distinct distinct_id user_id >> pure user_id in
      if eq_ℤ existing.user_id user_id then ours else won

  after_insert_distinct : String → ℤ → Result DriverError (Unit {0}) → Exec Db ℤ
  unfolding find_by_distinct_id verify_distinct
  after_insert_distinct distinct_id user_id (err e) = fail (driver e)
  after_insert_distinct distinct_id user_id (ok _) =
      find_by_distinct_id io distinct_id >>= verify_distinct distinct_id user_id

  unfoldable pub atomic_create_for_distinct_id : String → Exec Db ℤ
  unfolding next_user_id after_insert_distinct
  atomic_create_for_distinct_id distinct_id = do
    user_id ← next_user_id io
    inserted ←
        call (
          io.insert
            (record { user_id = user_id; account_id = ""; distinct_ids = distinct_id ∷ [] }))
    after_insert_distinct distinct_id user_id inserted

  unfoldable pub atomic_bind_distinct_to_account :
      ℤ → String → Exec Db (Result DriverError (Unit {0}))
  atomic_bind_distinct_to_account user_id distinct_id = call (io.add_distinct user_id distinct_id)

  unfoldable pub after_late_bind : IdMapping → String → Result DriverError (Unit {0}) → Exec Db ℤ
  unfolding cache_mapping
  after_late_bind existing distinct_id (err e) = fail (bind_after_race e)
  after_late_bind existing distinct_id (ok _) = do
    cache_mapping existing
    cache_distinct distinct_id existing.user_id
    pure existing.user_id

  unfoldable pub bind_late : String → DriverError → Option IdMapping → Exec Db ℤ
  unfolding atomic_bind_distinct_to_account after_late_bind
  bind_late distinct_id e none = fail (driver e)
  bind_late distinct_id e (some existing) =
      atomic_bind_distinct_to_account existing.user_id distinct_id
      >>= after_late_bind existing distinct_id

  unfoldable pub after_insert_both : String → String → ℤ → Result DriverError (Unit {0}) → Exec Db ℤ
  unfolding find_by_account_id bind_late
  after_insert_both account_id distinct_id user_id (ok _) = do
    cache_account account_id user_id
    cache_distinct distinct_id user_id
    pure user_id
  after_insert_both account_id distinct_id user_id (err e) =
      if is_duplicate_key e
      then (find_by_account_id io account_id >>= bind_late distinct_id e)
      else fail (driver e)

  unfoldable pub atomic_create_for_both : String → String → Exec Db ℤ
  unfolding next_user_id after_insert_both
  atomic_create_for_both account_id distinct_id = do
    user_id ← next_user_id io
    inserted ← call (
        io.insert
          (record { user_id = user_id; account_id = account_id; distinct_ids = distinct_id ∷ [] }))
    after_insert_both account_id distinct_id user_id inserted

  unfoldable pub bound_result : Result DriverError ℕ → Exec Db Bool
  bound_result (ok modified) = pure (ltb 0 modified)
  bound_result (err e) = if is_duplicate_key e then pure false else fail (driver e)

  unfoldable pub atomic_bind_account_to_distinct : ℤ → String → Exec Db Bool
  unfolding bound_result
  atomic_bind_account_to_distinct user_id account_id =
      call (io.set_account user_id account_id) >>= bound_result
