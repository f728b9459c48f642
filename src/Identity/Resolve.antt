-- ===== src/Identity/Resolve.antt =====
-- identity_lookup.go and `Resolve` of identity.go.
use ta2mongo.Prelude.{
  String, Bool, true, false, not, ◌&&◌, Option, none, some, Result, ok, err, ◌==◌, if◌then◌else◌,
}
use ta2mongo.Prelude.Int.{ℤ}
use ta2mongo.Identity.Mapping.{IdMapping, DriverError, Driver}
use ta2mongo.Identity.Resolver.{
  bind_failed, is_set, Exec, pure, fail, ◌>>=◌, ◌>>◌, cache_account, cache_distinct, cache_mapping,
  try_cache, find_by_account_id, find_by_distinct_id,
}
use ta2mongo.Identity.Atomic.{
  atomic_create_for_account_id, atomic_create_for_distinct_id, atomic_create_for_both,
  atomic_bind_distinct_to_account, atomic_bind_account_to_distinct,
}

module _ {Db : Type 0} (io : Driver Db) where
  unfoldable pub after_bind : IdMapping → String → Result DriverError (Unit {0}) → Exec Db ℤ
  unfolding cache_mapping
  after_bind account distinct_id (err e) = fail (bind_failed e)
  after_bind account distinct_id (ok _) = do
    cache_mapping account
    cache_distinct distinct_id account.user_id
    pure account.user_id

  unfoldable pub after_bind_account : String → IdMapping → Bool → Exec Db ℤ
  unfolding atomic_create_for_account_id
  after_bind_account account_id distinct true = do
    cache_account account_id distinct.user_id
    pure distinct.user_id
  after_bind_account account_id distinct false = atomic_create_for_account_id io account_id

  unfoldable pub resolve_with_both :
      String → String → Option IdMapping → Option IdMapping → Exec Db ℤ
  unfolding atomic_create_for_both atomic_bind_distinct_to_account after_bind after_bind_account
      atomic_bind_account_to_distinct atomic_create_for_account_id cache_mapping
  resolve_with_both account_id distinct_id none none =
      atomic_create_for_both io account_id distinct_id
  resolve_with_both account_id distinct_id (some account) none =
      atomic_bind_distinct_to_account io account.user_id distinct_id
      >>= after_bind account distinct_id
  resolve_with_both account_id distinct_id none (some distinct) =
      if distinct.account_id == ""
      then (atomic_bind_account_to_distinct io distinct.user_id account_id
          >>= after_bind_account account_id distinct)
      else atomic_create_for_account_id io account_id
  resolve_with_both account_id distinct_id (some account) (some distinct) = do
    cache_mapping account
    cache_mapping distinct
    pure account.user_id

  -- A lookup that is made only for an id that is set.
  abbrev pub when_set : String → Exec Db (Option IdMapping) → Exec Db (Option IdMapping)
  when_set id m = if is_set id then m else pure none

  unfoldable pub only_account : String → Option IdMapping → Exec Db ℤ
  unfolding cache_mapping atomic_create_for_account_id
  only_account account_id (some m) = do cache_mapping m; pure m.user_id
  only_account account_id none = atomic_create_for_account_id io account_id

  only_distinct : String → Option IdMapping → Exec Db ℤ
  unfolding cache_mapping atomic_create_for_distinct_id
  only_distinct distinct_id (some m) = do cache_mapping m; pure m.user_id
  only_distinct distinct_id none = atomic_create_for_distinct_id io distinct_id

  -- The three cases of `resolveFromDB`.
  unfoldable pub choose : String → String → Option IdMapping → Option IdMapping → Exec Db ℤ
  unfolding only_account only_distinct
  choose account_id distinct_id account distinct =
      if is_set account_id && not (is_set distinct_id)
      then only_account account_id account
      else if not (is_set account_id) && is_set distinct_id
      then only_distinct distinct_id distinct
      else resolve_with_both account_id distinct_id account distinct

  unfoldable pub resolve_from_db : String → String → Exec Db ℤ
  unfolding find_by_account_id find_by_distinct_id choose
  resolve_from_db account_id distinct_id = do
    account ← when_set account_id (find_by_account_id io account_id)
    distinct ← when_set distinct_id (find_by_distinct_id io distinct_id)
    choose account_id distinct_id account distinct

  unfoldable pub resolve : String → String → Exec Db ℤ
  unfolding try_cache
  resolve account_id distinct_id r = elim (try_cache account_id distinct_id r) [
    | some u ↦ (ok u, r)
    | none ↦ resolve_from_db account_id distinct_id r
  ]
