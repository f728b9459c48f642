-- ===== src/Identity/Resolver.antt =====
-- identity.go, identity_cache.go and identity_query.go: the resolver's state, its caches and its
-- lookups, and `nextUserID` of identity_atomic.go.
use ta2mongo.Prelude.{
  ℕ, zero, suc, String, Bool, not, ◌&&◌, Option, none, some, List, [], ◌∷◌, Result, ok, err, ◌==◌,
  if◌then◌else◌,
}
use ta2mongo.Prelude.Int.{ℤ}
use ta2mongo.Identity.Mapping.{
  IdMapping, DriverError, no_documents, duplicate_key, is_duplicate_key, Driver,
}

pub data Failure : Type 0 where
  driver : DriverError → Failure
  lost_create_race bind_failed bind_after_race orphan_left : DriverError → Failure

-- sync.Map from an id to its user
abbrev pub Cache : Type 0
Cache = List (String × ℤ)

unfoldable pub load : String → Cache → Option ℤ
load k [] = none
load k ((j, u) ∷ c) = if j == k then some u else load k c

abbrev pub store : String → ℤ → Cache → Cache
store k u c = (k, u) ∷ c

unfoldable pub store_all : List String → ℤ → Cache → Cache
store_all [] u c = c
store_all (d ∷ ds) u c = store_all ds u (store d u c)

-- The resolver of one pod, and the database that it shares.
pub record Resolver (Db : Type 0) : Type 0 where
  pub db : Db
  pub account_cache : Cache
  pub distinct_cache : Cache

abbrev pub is_set : String → Bool
is_set id = not (id == "")

-- A method returns its result and the resolver that it leaves.
abbrev pub Exec : Type 0 → Type 0 → Type 0
Exec Db A = Resolver Db → Result Failure A × Resolver Db

module _ {Db : Type 0} where
  abbrev pub pure : {A : Type 0} → A → Exec Db A
  pure a r = (ok a, r)

  abbrev pub fail : {A : Type 0} → Failure → Exec Db A
  fail e r = (err e, r)

  abbrev pub continue : {A B : Type 0} → Result Failure A → (A → Exec Db B) → Exec Db B
  continue (ok a) f r = f a r
  continue (err e) f r = (err e, r)

  infixl 5 ◌>>=◌ ◌>>◌
  abbrev pub ◌>>=◌ : {A B : Type 0} → Exec Db A → (A → Exec Db B) → Exec Db B
  ◌>>=◌ m f r = continue (m r).0 f (m r).1

  abbrev pub ◌>>◌ : {B : Type 0} → Exec Db (Unit {0}) → Exec Db B → Exec Db B
  m >> k = m >>= λ _. k

  -- A driver call: the driver's own result is returned as a value.
  abbrev pub call : {A : Type 0} → (Db → Result DriverError A × Db) → Exec Db (Result DriverError A)
  call op r = let answer = op r.db in (ok answer.0, record r { db = answer.1 })

  abbrev pub cache_account : String → ℤ → Exec Db (Unit {0})
  cache_account id u r = (ok tt, record r { account_cache = store id u r.account_cache })

  abbrev pub cache_distinct : String → ℤ → Exec Db (Unit {0})
  cache_distinct id u r = (ok tt, record r { distinct_cache = store id u r.distinct_cache })

  -- `cacheMapping` of a mapping that is not nil
  unfoldable pub cache_mapping : IdMapping → Exec Db (Unit {0})
  unfolding store_all
  cache_mapping m r = (
    ok tt,
    record r {
      account_cache =
          if is_set m.account_id
          then store m.account_id m.user_id r.account_cache
          else r.account_cache;
      distinct_cache = store_all m.distinct_ids m.user_id r.distinct_cache;
    },
  )

  unfoldable pub try_cache : String → String → Resolver Db → Option ℤ
  unfolding load
  try_cache account_id distinct_id r =
      if is_set account_id && is_set distinct_id
      then elim (load account_id r.account_cache) [
        | none ↦ none
        | some u ↦ elim (load distinct_id r.distinct_cache) [ none ↦ none | some v ↦ some u ]
      ]
      else if is_set account_id
      then load account_id r.account_cache
      else if is_set distinct_id
      then load distinct_id r.distinct_cache
      else none

  module _ (io : Driver Db) where
    -- findByAccountID and findByDistinctID, of the answer of FindOne
    abbrev pub found : Result DriverError IdMapping → Exec Db (Option IdMapping)
    found (ok m) = pure (some m)
    found (err no_documents) = pure none
    found (err e) = fail (driver e)

    unfoldable pub find_by_account_id : String → Exec Db (Option IdMapping)
    find_by_account_id id = call (io.find_account id) >>= found

    unfoldable pub find_by_distinct_id : String → Exec Db (Option IdMapping)
    find_by_distinct_id id = call (io.find_distinct id) >>= found

    abbrev pub max_attempts : ℕ
    max_attempts = 8

    -- The loop of `nextUserID`, with the attempts left and the error of the last one.
    unfoldable pub next_attempt : ℕ → DriverError → Exec Db ℤ
    next_attempt zero last r = fail (lost_create_race last) r
    next_attempt (suc n) last r =
        let answer = io.next_seq r.db in
        let r' : Resolver Db = record r { db = answer.1 } in
        elim answer.0 [
          | ok seq ↦ pure seq r'
          | err e ↦
              let again = next_attempt n e r' in
              let stopped : Result Failure ℤ × Resolver Db = elim (io.ctx_err r'.db) [
                | some c ↦ fail (driver c) r'
                | none ↦ again
              ] in
              if is_duplicate_key e then stopped else fail (driver e) r'
        ]

    unfoldable pub next_user_id : Exec Db ℤ
    unfolding next_attempt
    next_user_id = next_attempt max_attempts duplicate_key
