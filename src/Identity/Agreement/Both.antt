-- ===== src/Identity/Agreement/Both.antt =====
-- The creation for an account with a distinct id, and its answer to a lost race.
use mathlib.Core.Path.{subst}
use ta2mongo.Prelude.{
  ◌≡◌, refl, sym, String, true, Option, none, some, [], ◌∷◌, Result, ok, err, Bool-cases, inl, inr,
}
use ta2mongo.Prelude.Int.{ℤ}
use ta2mongo.Identity.Mapping.{IdMapping, DriverError, is_duplicate_key, Driver}
use ta2mongo.Identity.Resolver.{
  driver, bind_after_race, Resolver, is_set, Exec, pure, ◌>>=◌, ◌>>◌, call, cache_account,
  cache_distinct, cache_mapping, find_by_account_id, next_user_id,
}
use ta2mongo.Identity.Atomic.{
  after_late_bind, bind_late, after_insert_both, atomic_create_for_both,
  atomic_bind_distinct_to_account,
}
use ta2mongo.Identity.Agreement.{
  Documented, IsFaithful, Post, pure-Post, fail-Post, bind-Post, call-Post, Nothing,
  cache_account-Post, cache_distinct-Post, cache_mapping-Post,
}
use ta2mongo.Identity.Agreement.Calls.{
  Found, IsOf, BoundTo, Any, Inserted, find_account-Post, insert-Post, next_user-Post,
}

module _ {Db : Type 0} (io : Driver Db) (Bound : String → ℤ → Db → Type 0)
    (law : Documented io Bound) where
  -- The distinct id is cached, and the user is the result.
  distinct-Post :
      (a d : String) (u : ℤ) (r : Resolver Db)
      → IsFaithful Bound r
      → Bound a u r.db
      → Post Bound (BoundTo io Bound law a) r.db ((cache_distinct d u >> pure u) r)
  distinct-Post a d u r f bound =
      bind-Post Bound (Nothing Bound) (BoundTo io Bound law a) (cache_distinct d u) (λ _. pure u) r
        (cache_distinct-Post Bound d u r f)
        (λ _ r' f' e _. pure-Post Bound (BoundTo io Bound law a) u r' f' (e a u bound))

  -- The account and the distinct id are cached.
  both-Post :
      (a d : String) (u : ℤ) (r : Resolver Db)
      → IsFaithful Bound r
      → Bound a u r.db
      → Post Bound
          (BoundTo io Bound law a)
          r.db
          ((cache_account a u >> (cache_distinct d u >> pure u)) r)
  both-Post a d u r f bound =
      bind-Post Bound (Nothing Bound) (BoundTo io Bound law a) (cache_account a u)
        (λ _. cache_distinct d u >> pure u) r (cache_account-Post Bound a u r f bound)
        (λ _ r' f' e _. distinct-Post a d u r' f' (e a u bound))

  -- A mapping of the account and a distinct id are cached.
  pub mapped-Post :
      (a d : String) (m : IdMapping) (r : Resolver Db)
      → IsFaithful Bound r
      → IsOf io Bound law a m r.db
      → Post Bound
          (BoundTo io Bound law a)
          r.db
          ((cache_mapping m >> (cache_distinct d m.user_id >> pure m.user_id)) r)
  mapped-Post a d m r f (same, bound) =
      bind-Post Bound (Nothing Bound) (BoundTo io Bound law a) (cache_mapping m)
        (λ _. cache_distinct d m.user_id >> pure m.user_id) r
        (cache_mapping-Post Bound m r f
          (λ _. subst (λ (k : String). Bound k m.user_id r.db) (sym same) bound))
        (λ _ r' f' e _. distinct-Post a d m.user_id r' f' (e a m.user_id bound))

  late-Post :
      (a d : String) (m : IdMapping) (answer : Result DriverError (Unit {0})) (r : Resolver Db)
      → IsFaithful Bound r
      → IsOf io Bound law a m r.db
      → Post Bound (BoundTo io Bound law a) r.db (after_late_bind io m d answer r)
  unfolding after_late_bind
  late-Post a d m (ok _) r f k = mapped-Post a d m r f k
  late-Post a d m (err e) r f k = fail-Post Bound (BoundTo io Bound law a) (bind_after_race e) r f

  pub bind-distinct-Post :
      (u : ℤ) (d : String) (r : Resolver Db)
      → IsFaithful Bound r
      → Post Bound
          (λ (x : Result DriverError (Unit {0})) db. Unit {0})
          r.db
          (atomic_bind_distinct_to_account io u d r)
  unfolding atomic_bind_distinct_to_account
  bind-distinct-Post u d r f =
      call-Post Bound (λ (x : Result DriverError (Unit {0})) db. Unit {0}) (io.add_distinct u d) r f
        (λ b v k. law.keeps_add_distinct b v u d r.db k) tt

  bind_late-Post :
      (a d : String) (e : DriverError) (o : Option IdMapping) (r : Resolver Db)
      → IsFaithful Bound r
      → Found io Bound law (IsOf io Bound law a) o r.db
      → Post Bound (BoundTo io Bound law a) r.db (bind_late io d e o r)
  unfolding bind_late
  bind_late-Post a d e none r f k = fail-Post Bound (BoundTo io Bound law a) (driver e) r f
  bind_late-Post a d e (some m) r f k =
      bind-Post Bound (λ (x : Result DriverError (Unit {0})) db. Unit {0}) (BoundTo io Bound law a)
        (atomic_bind_distinct_to_account io m.user_id d) (after_late_bind io m d) r
        (bind-distinct-Post m.user_id d r f)
        (λ answer r' f' kept _.
          late-Post a d m answer r' f' ((k m refl).0, kept a m.user_id (k m refl).1))

  after_insert_both-Post :
      (a d : String) (u : ℤ) (answer : Result DriverError (Unit {0})) (r : Resolver Db)
      → IsFaithful Bound r
      → Inserted io Bound law a u answer r.db
      → Post Bound (BoundTo io Bound law a) r.db (after_insert_both io a d u answer r)
  unfolding after_insert_both
  after_insert_both-Post a d u (ok _) r f k = both-Post a d u r f (k refl)
  after_insert_both-Post a d u (err e) r f k = elim (Bool-cases (is_duplicate_key e)) [
    | inl dup ↦
        rw (after_insert_both, dup)
          (bind-Post Bound (Found io Bound law (IsOf io Bound law a)) (BoundTo io Bound law a)
            (find_by_account_id io a) (bind_late io d e) r (find_account-Post io Bound law a r f)
            (λ o r' f' _ q. bind_late-Post a d e o r' f' q))
    | inr dup ↦
        rw (after_insert_both, dup) (fail-Post Bound (BoundTo io Bound law a) (driver e) r f)
  ]

  pub create_both-Post :
      (a d : String) (r : Resolver Db)
      → is_set a ≡ true
      → IsFaithful Bound r
      → Post Bound (BoundTo io Bound law a) r.db (atomic_create_for_both io a d r)
  unfolding atomic_create_for_both
  create_both-Post a d r s f =
      let insert : ℤ → Exec Db (Result DriverError (Unit {0})) =
        λ u. call (io.insert (record { user_id = u; account_id = a; distinct_ids = d ∷ [] })) in
      bind-Post Bound (Any io Bound law) (BoundTo io Bound law a) (next_user_id io)
        (λ u. insert u >>= λ answer. after_insert_both io a d u answer) r
        (next_user-Post io Bound law r f)
        (λ u r1 f1 _ _.
          bind-Post Bound (Inserted io Bound law a u) (BoundTo io Bound law a) (insert u)
            (after_insert_both io a d u) r1 (insert-Post io Bound law a u (d ∷ []) r1 s f1)
            (λ answer r2 f2 _ q. after_insert_both-Post a d u answer r2 f2 q))
