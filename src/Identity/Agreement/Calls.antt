-- ===== src/Identity/Agreement/Calls.antt =====
-- The calls of a pod and the creation for an account: the account is bound to the result.
use mathlib.Core.Path.{subst}
use ta2mongo.Prelude.{
  ℕ, zero, suc, ◌≡◌, refl, sym, ap, String, true, Option, none, some, List, [], Result, ok, err,
  arith, Bool-cases, Option-cases, Result-cases, inl, inr,
}
use ta2mongo.Prelude.Int.{ℤ}
use ta2mongo.Identity.Mapping.{
  IdMapping, DriverError, is_duplicate_key, no_documents, duplicate_key, failed, Driver,
}
use ta2mongo.Identity.Resolver.{
  Failure, driver, lost_create_race, Resolver, is_set, Exec, pure, fail, ◌>>=◌, ◌>>◌, call,
  cache_account, cache_mapping, found, find_by_account_id, find_by_distinct_id, next_attempt,
  next_user_id,
}
use ta2mongo.Identity.Atomic.{adopt, after_insert_account, atomic_create_for_account_id}
use ta2mongo.Identity.Agreement.{
  Documented, Extends, IsFaithful, Post, pure-Post, fail-Post, bind-Post, call-Post, Nothing,
  cache_account-Post, IsTrue, cache_mapping-Post,
}

module _ {Db : Type 0} (io : Driver Db) (Bound : String → ℤ → Db → Type 0)
    (law : Documented io Bound) where
  -- A mapping that was found has a property.
  abbrev pub Found : (IdMapping → Db → Type 0) → Option IdMapping → Db → Type 0
  Found K o db = (m : IdMapping) → o ≡ some m → K m db

  abbrev Answered : (IdMapping → Db → Type 0) → Result DriverError IdMapping → Db → Type 0
  Answered K answer db = (m : IdMapping) → answer ≡ ok m → K m db

  found-Post :
      (K : IdMapping → Db → Type 0) (answer : Result DriverError IdMapping) (r : Resolver Db)
      → IsFaithful Bound r
      → Answered K answer r.db
      → Post Bound (Found K) r.db (found io answer r)
  found-Post K (ok m) r f k =
      pure-Post Bound (Found K) (some m) r f
        (λ n e. let same : m ≡ n = ground arith in k n (ap (λ (x : IdMapping). ok x) same))
  found-Post K (err no_documents) r f k =
      pure-Post Bound (Found K) none r f (λ n e. absurd (ground (arith, e)))
  found-Post K (err duplicate_key) r f k = fail-Post Bound (Found K) (driver duplicate_key) r f
  found-Post K (err (failed t)) r f k = fail-Post Bound (Found K) (driver (failed t)) r f

  -- The mapping of an account, bound.
  abbrev pub IsOf : String → IdMapping → Db → Type 0
  IsOf a m db = (m.account_id ≡ a) × Bound a m.user_id db

  abbrev pub BoundTo : String → ℤ → Db → Type 0
  BoundTo a u db = Bound a u db

  pub find_account-Post :
      (a : String) (r : Resolver Db)
      → IsFaithful Bound r
      → Post Bound (Found (IsOf a)) r.db (find_by_account_id io a r)
  unfolding find_by_account_id
  find_account-Post a r f =
      bind-Post Bound (Answered (IsOf a)) (Found (IsOf a)) (call (io.find_account a)) (found io) r
        (call-Post Bound (Answered (IsOf a)) (io.find_account a) r f
          (λ b v k. law.keeps_find_account b v a r.db k) (law.by_account a r.db))
        (λ answer r' f' e k. found-Post (IsOf a) answer r' f' k)

  pub find_distinct-Post :
      (d : String) (r : Resolver Db)
      → IsFaithful Bound r
      → Post Bound (Found (IsTrue Bound)) r.db (find_by_distinct_id io d r)
  unfolding find_by_distinct_id
  find_distinct-Post d r f =
      bind-Post Bound (Answered (IsTrue Bound)) (Found (IsTrue Bound)) (call (io.find_distinct d))
        (found io) r
        (call-Post Bound (Answered (IsTrue Bound)) (io.find_distinct d) r f
          (λ b v k. law.keeps_find_distinct b v d r.db k) (law.by_distinct d r.db))
        (λ answer r' f' e k. found-Post (IsTrue Bound) answer r' f' k)

  abbrev pub Any : ℤ → Db → Type 0
  Any u db = Unit

  pub later-Post :
      {A : Type 0} (Q : A → Db → Type 0) (before db : Db) (out : Result Failure A × Resolver Db)
      → Extends Bound before db
      → Post Bound Q db out
      → Post Bound Q before out
  later-Post Q before db out kept p = record {
    faithful = p.faithful;
    extends = λ b v k. p.extends b v (kept b v k);
    gives = p.gives;
  }

  next_attempt-Post :
      (n : ℕ) (last : DriverError) (r : Resolver Db)
      → IsFaithful Bound r
      → Post Bound Any r.db (next_attempt io n last r)
  unfolding next_attempt
  next_attempt-Post zero last r f = fail-Post Bound Any (lost_create_race last) r f
  next_attempt-Post (suc n) last r f =
      let db' = (io.next_seq r.db).1 in
      let r' : Resolver Db = record r { db = db' } in
      let kept : Extends Bound r.db db' = λ b v k. law.keeps_next_seq b v r.db k in
      let f' : IsFaithful Bound r' = λ b v h. kept b v (f b v h) in
      let later = λ (out : Result Failure ℤ × Resolver Db). later-Post Any r.db db' out kept in
      elim (Result-cases (io.next_seq r.db).0) [
        | inl (seq, e) ↦
            rw (next_attempt, e) (later (pure seq r') (pure-Post Bound Any seq r' f' tt))
        | inr (cause, e) ↦ elim (Bool-cases (is_duplicate_key cause)) [
          | inr d ↦
              rw (next_attempt, e, d)
                (later (fail (driver cause) r') (fail-Post Bound Any (driver cause) r' f'))
          | inl d ↦ elim (Option-cases (io.ctx_err db')) [
            | inl c ↦
                rw (next_attempt, e, d, c)
                  (later (next_attempt io n cause r') (next_attempt-Post n cause r' f'))
            | inr (done, c) ↦
                rw (next_attempt, e, d, c)
                  (later (fail (driver done) r') (fail-Post Bound Any (driver done) r' f'))
          ]
        ]
      ]

  -- The account's mapping is cached and its user is the result.
  pub mapping-Post :
      (a : String) (m : IdMapping) (r : Resolver Db)
      → IsFaithful Bound r
      → IsOf a m r.db
      → Post Bound (BoundTo a) r.db ((cache_mapping m >> pure m.user_id) r)
  mapping-Post a m r f (same, bound) =
      bind-Post Bound (Nothing Bound) (BoundTo a) (cache_mapping m) (λ _. pure m.user_id) r
        (cache_mapping-Post Bound m r f
          (λ _. subst (λ (k : String). Bound k m.user_id r.db) (sym same) bound))
        (λ _ r' f' e _. pure-Post Bound (BoundTo a) m.user_id r' f' (e a m.user_id bound))

  pub own-Post :
      (a : String) (u : ℤ) (r : Resolver Db)
      → IsFaithful Bound r
      → Bound a u r.db
      → Post Bound (BoundTo a) r.db ((cache_account a u >> pure u) r)
  own-Post a u r f bound =
      bind-Post Bound (Nothing Bound) (BoundTo a) (cache_account a u) (λ _. pure u) r
        (cache_account-Post Bound a u r f bound)
        (λ _ r' f' e _. pure-Post Bound (BoundTo a) u r' f' (e a u bound))

  adopt-Post :
      (a : String) (e : DriverError) (o : Option IdMapping) (r : Resolver Db)
      → IsFaithful Bound r
      → Found (IsOf a) o r.db
      → Post Bound (BoundTo a) r.db (adopt io e o r)
  adopt-Post a e none r f k = fail-Post Bound (BoundTo a) (driver e) r f
  adopt-Post a e (some m) r f k = mapping-Post a m r f (k m refl)

  insert_account-Post :
      (a : String) (u : ℤ) (answer : Result DriverError (Unit {0})) (r : Resolver Db)
      → IsFaithful Bound r
      → (answer ≡ ok tt → Bound a u r.db)
      → Post Bound (BoundTo a) r.db (after_insert_account io a u answer r)
  unfolding after_insert_account
  insert_account-Post a u (ok _) r f k = own-Post a u r f (k refl)
  insert_account-Post a u (err e) r f k = elim (Bool-cases (is_duplicate_key e)) [
    | inl d ↦ rw d (
        bind-Post Bound (Found (IsOf a)) (BoundTo a) (find_by_account_id io a) (adopt io e) r
          (find_account-Post a r f) (λ o r' f' _ q. adopt-Post a e o r' f' q))
    | inr d ↦ rw d (fail-Post Bound (BoundTo a) (driver e) r f)
  ]

  pub next_user-Post :
      (r : Resolver Db) → IsFaithful Bound r → Post Bound Any r.db (next_user_id io r)
  unfolding next_user_id
  next_user-Post r f = next_attempt-Post 8 duplicate_key r f

  -- An insert with the account, whatever its answer.
  abbrev pub Inserted : String → ℤ → Result DriverError (Unit {0}) → Db → Type 0
  Inserted a u answer db = answer ≡ ok tt → Bound a u db

  pub insert-Post :
      (a : String) (u : ℤ) (ds : List String) (r : Resolver Db)
      → is_set a ≡ true
      → IsFaithful Bound r
      → Post Bound
          (Inserted a u)
          r.db
          (call (io.insert (record { user_id = u; account_id = a; distinct_ids = ds })) r)
  insert-Post a u ds r s f =
      let m : IdMapping = record { user_id = u; account_id = a; distinct_ids = ds } in
      call-Post Bound (Inserted a u) (io.insert m) r f (λ b v k. law.keeps_insert b v m r.db k)
        (law.inserted m r.db s)

  pub create_account-Post :
      (a : String) (r : Resolver Db)
      → is_set a ≡ true
      → IsFaithful Bound r
      → Post Bound (BoundTo a) r.db (atomic_create_for_account_id io a r)
  unfolding atomic_create_for_account_id
  create_account-Post a r s f =
      let insert : ℤ → Exec Db (Result DriverError (Unit {0})) =
        λ u. call (io.insert (record { user_id = u; account_id = a; distinct_ids = [] })) in
      bind-Post Bound Any (BoundTo a) (next_user_id io)
        (λ u. insert u >>= λ answer. after_insert_account io a u answer) r (next_user-Post r f)
        (λ u r1 f1 _ _.
          bind-Post Bound (Inserted a u) (BoundTo a) (insert u) (after_insert_account io a u) r1
            (insert-Post a u [] r1 s f1)
            (λ answer r2 f2 _ q. insert_account-Post a u answer r2 f2 q))
