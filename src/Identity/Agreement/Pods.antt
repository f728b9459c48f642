-- ===== src/Identity/Agreement/Pods.antt =====
-- `Resolve` with an account: its result is the user that the account is bound to, on every pod.
use mathlib.Core.Path.{subst}
use ta2mongo.Prelude.{
  ℕ, zero, suc, ◌≡◌, refl, sym, ap, ◌∙◌, String, Bool, true, false, Option, none, some, Result, ok,
  err, ◌==◌, arith, Bool-cases, Option-cases, inl, inr, ltb,
}
use ta2mongo.Prelude.Int.{ℤ}
use ta2mongo.Identity.Mapping.{IdMapping, DriverError, is_duplicate_key, Driver}
use ta2mongo.Identity.Resolver.{
  driver, bind_failed, load, Resolver, is_set, pure, ◌>>=◌, ◌>>◌, call, cache_mapping, try_cache,
  find_by_account_id, find_by_distinct_id,
}
use ta2mongo.Identity.Atomic.{
  atomic_bind_distinct_to_account, bound_result, atomic_bind_account_to_distinct,
}
use ta2mongo.Identity.Resolve.{
  after_bind, after_bind_account, resolve_with_both, when_set, only_account, choose,
  resolve_from_db, resolve,
}
use ta2mongo.Identity.Agreement.{
  Documented, Extends, IsFaithful, Post, pure-Post, fail-Post, bind-Post, call-Post, Nothing,
  IsTrue, cache_mapping-Post,
}
use ta2mongo.Identity.Agreement.Calls.{
  Found, IsOf, BoundTo, find_account-Post, find_distinct-Post, mapping-Post, own-Post,
  create_account-Post,
}
use ta2mongo.Identity.Agreement.Both.{mapped-Post, bind-distinct-Post, create_both-Post}

module _ {Db : Type 0} (io : Driver Db) (Bound : String → ℤ → Db → Type 0)
    (law : Documented io Bound) where
  abbrev Own : String → ℤ → Db → Type 0
  Own = BoundTo io Bound law

  abbrev FoundOf : String → Option IdMapping → Db → Type 0
  FoundOf a = Found io Bound law (IsOf io Bound law a)

  abbrev FoundTrue : Option IdMapping → Db → Type 0
  FoundTrue = Found io Bound law (IsTrue Bound)

  after_bind-Post :
      (a d : String) (m : IdMapping) (answer : Result DriverError (Unit {0})) (r : Resolver Db)
      → IsFaithful Bound r
      → IsOf io Bound law a m r.db
      → Post Bound (Own a) r.db (after_bind io m d answer r)
  unfolding after_bind
  after_bind-Post a d m (ok _) r f k = mapped-Post io Bound law a d m r f k
  after_bind-Post a d m (err e) r f k = fail-Post Bound (Own a) (bind_failed e) r f

  -- Whether the account was set on a document: if so, it is bound to its user.
  abbrev WasSet : String → ℤ → Bool → Db → Type 0
  WasSet a u b db = b ≡ true → Bound a u db

  abbrev Modified : String → ℤ → Result DriverError ℕ → Db → Type 0
  Modified a u answer db = (n : ℕ) → answer ≡ ok (suc n) → Bound a u db

  bound_result-Post :
      (a : String) (u : ℤ) (answer : Result DriverError ℕ) (r : Resolver Db)
      → IsFaithful Bound r
      → Modified a u answer r.db
      → Post Bound (WasSet a u) r.db (bound_result io answer r)
  unfolding bound_result
  bound_result-Post a u (ok zero) r f k =
      pure-Post Bound (WasSet a u) false r f (λ h. absurd (ground (arith, h)))
  bound_result-Post a u (ok (suc n)) r f k =
      pure-Post Bound (WasSet a u) (ltb 0 (suc n)) r f (λ h. k n refl)
  bound_result-Post a u (err e) r f k = elim (Bool-cases (is_duplicate_key e)) [
    | inl dup ↦
        rw (bound_result, dup)
          (pure-Post Bound (WasSet a u) false r f (λ h. absurd (ground (arith, h))))
    | inr dup ↦ rw (bound_result, dup) (fail-Post Bound (WasSet a u) (driver e) r f)
  ]

  bind_account-Post :
      (a : String) (u : ℤ) (r : Resolver Db)
      → is_set a ≡ true
      → IsFaithful Bound r
      → Post Bound (WasSet a u) r.db (atomic_bind_account_to_distinct io u a r)
  unfolding atomic_bind_account_to_distinct
  bind_account-Post a u r s f =
      bind-Post Bound (Modified a u) (WasSet a u) (call (io.set_account u a)) (bound_result io) r
        (call-Post Bound (Modified a u) (io.set_account u a) r f
          (λ b v k. law.keeps_set_account b v u a r.db k) (λ n. law.account_set u a r.db n s))
        (λ answer r' f' _ k. bound_result-Post a u answer r' f' k)

  after_bind_account-Post :
      (a : String) (m : IdMapping) (b : Bool) (r : Resolver Db)
      → is_set a ≡ true
      → IsFaithful Bound r
      → WasSet a m.user_id b r.db
      → Post Bound (Own a) r.db (after_bind_account io a m b r)
  unfolding after_bind_account
  after_bind_account-Post a m true r s f k = own-Post io Bound law a m.user_id r f (k refl)
  after_bind_account-Post a m false r s f k = create_account-Post io Bound law a r s f

  with_both-Post :
      (a d : String) (account distinct : Option IdMapping) (r : Resolver Db)
      → is_set a ≡ true
      → IsFaithful Bound r
      → FoundOf a account r.db
      → FoundTrue distinct r.db
      → Post Bound (Own a) r.db (resolve_with_both io a d account distinct r)
  unfolding resolve_with_both
  with_both-Post a d none none r s f k t = create_both-Post io Bound law a d r s f
  with_both-Post a d (some m) none r s f k t =
      bind-Post Bound (λ (x : Result DriverError (Unit {0})) db. Unit {0}) (Own a)
        (atomic_bind_distinct_to_account io m.user_id d) (after_bind io m d) r
        (bind-distinct-Post io Bound law m.user_id d r f)
        (λ answer r' f' kept _.
          after_bind-Post a d m answer r' f' ((k m refl).0, kept a m.user_id (k m refl).1))
  with_both-Post a d none (some m) r s f k t = elim (Bool-cases (m.account_id == "")) [
    | inl e ↦
        rw (resolve_with_both, e)
          (bind-Post Bound (WasSet a m.user_id) (Own a)
            (atomic_bind_account_to_distinct io m.user_id a) (after_bind_account io a m) r
            (bind_account-Post a m.user_id r s f)
            (λ b r' f' _ q. after_bind_account-Post a m b r' s f' q))
    | inr e ↦ rw (resolve_with_both, e) (create_account-Post io Bound law a r s f)
  ]
  with_both-Post a d (some m) (some n) r s f k t =
      let (same, bound) = k m refl in
      bind-Post Bound (Nothing Bound) (Own a) (cache_mapping m)
        (λ _. cache_mapping n >> pure m.user_id) r
        (cache_mapping-Post Bound m r f
          (λ _. subst (λ (x : String). Bound x m.user_id r.db) (sym same) bound))
        (λ _ r1 f1 kept _.
          bind-Post Bound (Nothing Bound) (Own a) (cache_mapping n) (λ _. pure m.user_id) r1
            (cache_mapping-Post Bound n r1 f1 (λ set. kept n.account_id n.user_id (t n refl set)))
            (λ _ r2 f2 kept' _.
              pure-Post Bound (Own a) m.user_id r2 f2 (kept' a m.user_id (kept a m.user_id bound))))

  only_account-Post :
      (a : String) (account : Option IdMapping) (r : Resolver Db)
      → is_set a ≡ true
      → IsFaithful Bound r
      → FoundOf a account r.db
      → Post Bound (Own a) r.db (only_account io a account r)
  unfolding only_account
  only_account-Post a none r s f k = create_account-Post io Bound law a r s f
  only_account-Post a (some m) r s f k = mapping-Post io Bound law a m r f (k m refl)

  choose-Post :
      (a d : String) (account distinct : Option IdMapping) (r : Resolver Db)
      → is_set a ≡ true
      → IsFaithful Bound r
      → FoundOf a account r.db
      → FoundTrue distinct r.db
      → Post Bound (Own a) r.db (choose io a d account distinct r)
  unfolding choose
  choose-Post a d account distinct r s f k t = elim (Bool-cases (is_set d)) [
    | inl e ↦ rw (choose, s, e) (with_both-Post a d account distinct r s f k t)
    | inr e ↦ rw (choose, s, e) (only_account-Post a account r s f k)
  ]

  when_distinct-Post :
      (d : String) (r : Resolver Db)
      → IsFaithful Bound r
      → Post Bound FoundTrue r.db (when_set io d (find_by_distinct_id io d) r)
  when_distinct-Post d r f = elim (Bool-cases (is_set d)) [
    | inl e ↦ rw e (find_distinct-Post io Bound law d r f)
    | inr e ↦ rw e (pure-Post Bound FoundTrue none r f (λ m h. absurd (ground (arith, h))))
  ]

  from_db-Post :
      (a d : String) (r : Resolver Db)
      → is_set a ≡ true
      → IsFaithful Bound r
      → Post Bound (Own a) r.db (resolve_from_db io a d r)
  unfolding resolve_from_db
  from_db-Post a d r s f =
      let second = when_set io d (find_by_distinct_id io d) in
      bind-Post Bound (FoundOf a) (Own a) (when_set io a (find_by_account_id io a))
        (λ account. second >>= λ distinct. choose io a d account distinct) r
        (rw s (find_account-Post io Bound law a r f))
        (λ account r1 f1 _ k.
          bind-Post Bound FoundTrue (Own a) second (choose io a d account) r1
            (when_distinct-Post d r1 f1)
            (λ distinct r2 f2 kept t.
              choose-Post a d account distinct r2 s f2
                (λ m e. ((k m e).0, kept a m.user_id (k m e).1)) t))

  try_cache_lem :
      (a d : String) (r : Resolver Db) (u : ℤ)
      → is_set a ≡ true
      → try_cache a d r ≡ some u
      → load a r.account_cache ≡ some u
  unfolding try_cache
  try_cache_lem a d r u s h = ground (arith, s, h)

  -- Where the server does what it documents, and no account is unbound, a pod whose cache says only
  -- what is bound resolves an account that is set, with any distinct id, to the user that the account
  -- is bound to; its cache stays so, and nothing is unbound.
  pub resolve-Post :
      (a d : String) (r : Resolver Db)
      → is_set a ≡ true
      → IsFaithful Bound r
      → Post Bound (Own a) r.db (resolve io a d r)
  unfolding resolve
  resolve-Post a d r s f = elim (Option-cases (try_cache a d r)) [
    | inl e ↦ rw (resolve, e) (from_db-Post a d r s f)
    | inr (u, e) ↦
        rw (resolve, e) (pure-Post Bound (Own a) u r f (f a u (try_cache_lem a d r u s e)))
  ]

  -- All pods agree on the user of an account: where the server does what it documents and no
  -- account is unbound, two pods whose caches say only what is bound, and which resolve the same
  -- account, each with any distinct id, and with a user, have the same user, whether one comes after
  -- the other, or they overlap and the second ends later.
  pub resolve-agrees :
      (a d d' : String) (r r' : Resolver Db) (u v : ℤ)
      → is_set a ≡ true
      → IsFaithful Bound r
      → IsFaithful Bound r'
      → Extends Bound (resolve io a d r).1.db (resolve io a d' r').1.db
      → (resolve io a d r).0 ≡ ok u
      → (resolve io a d' r').0 ≡ ok v
      → (resolve io a d' r').0 ≡ ok u
  resolve-agrees a d d' r r' u v s f f' later h k =
      let first = (resolve-Post a d r s f).gives u h in
      let second = (resolve-Post a d' r' s f').gives v k in
      let same = law.one a u v (resolve io a d' r').1.db (later a u first) second in
      k ∙ ap (λ (w : ℤ). ok w) (sym same)
