-- ===== src/Identity/Agreement.antt =====
-- Pods that resolve an account agree on its user, whatever the others do between the calls.
pub mod Calls
pub mod Both
pub mod Pods
use mathlib.Core.Path.{subst}
use ta2mongo.Prelude.{
  ℕ, suc, ◌≡◌, refl, sym, ap, ◌∙◌, String, Bool, true, false, not, ◌&&◌, Option, none, some, List,
  [], ◌∷◌, Result, ok, err, eq_iff, ◌==◌, arith, Bool-cases, Option-cases, inl, inr, ltb,
  if◌then◌else◌,
}
use ta2mongo.Prelude.Int.{ℤ}
use ta2mongo.Identity.Mapping.{
  IdMapping, DriverError, is_duplicate_key, no_documents, duplicate_key, failed, Driver,
}
use ta2mongo.Identity.Resolver.{
  Failure, driver, bind_failed, bind_after_race, Cache, load, store, Resolver, is_set, Exec, pure,
  fail, continue, ◌>>=◌, ◌>>◌, call, cache_account, cache_distinct, cache_mapping, try_cache, found,
  find_by_account_id, find_by_distinct_id, next_attempt, next_user_id,
}

-- What is relied on of the server, for a relation that says that an account is bound to a user: the
-- index on the account is unique, the operations do what they report, and no operation of a pod, nor
-- what the others do before the next, unbinds an account. Deletions are left out.
pub record Documented {Db : Type 0} (io : Driver Db) (Bound : String → ℤ → Db → Type 0)
    : Type 0 where
  pub one : (a : String) (u v : ℤ) (db : Db) → Bound a u db → Bound a v db → u ≡ v
  pub by_account :
      (a : String) (db : Db) (m : IdMapping)
      → (io.find_account a db).0 ≡ ok m
      → (m.account_id ≡ a) × Bound a m.user_id (io.find_account a db).1
  pub inserted :
      (m : IdMapping) (db : Db)
      → is_set m.account_id ≡ true
      → (io.insert m db).0 ≡ ok tt
      → Bound m.account_id m.user_id (io.insert m db).1
  pub account_set :
      (u : ℤ) (a : String) (db : Db) (n : ℕ)
      → is_set a ≡ true
      → (io.set_account u a db).0 ≡ ok (suc n)
      → Bound a u (io.set_account u a db).1
  pub by_distinct :
      (d : String) (db : Db) (m : IdMapping)
      → (io.find_distinct d db).0 ≡ ok m
      → is_set m.account_id ≡ true
      → Bound m.account_id m.user_id (io.find_distinct d db).1
  pub keeps_find_account :
      (b : String) (v : ℤ) (a : String) (db : Db)
      → Bound b v db
      → Bound b v (io.find_account a db).1
  pub keeps_find_distinct :
      (b : String) (v : ℤ) (d : String) (db : Db)
      → Bound b v db
      → Bound b v (io.find_distinct d db).1
  pub keeps_insert :
      (b : String) (v : ℤ) (m : IdMapping) (db : Db) → Bound b v db → Bound b v (io.insert m db).1
  pub keeps_add_distinct :
      (b : String) (v : ℤ) (u : ℤ) (d : String) (db : Db)
      → Bound b v db
      → Bound b v (io.add_distinct u d db).1
  pub keeps_set_account :
      (b : String) (v : ℤ) (u : ℤ) (a : String) (db : Db)
      → Bound b v db
      → Bound b v (io.set_account u a db).1
  pub keeps_next_seq : (b : String) (v : ℤ) (db : Db) → Bound b v db → Bound b v (io.next_seq db).1

module _ {Db : Type 0} (Bound : String → ℤ → Db → Type 0) where
  -- What one database has bound, another one has.
  abbrev pub Extends : Db → Db → Type 0
  Extends db db' = (b : String) (v : ℤ) → Bound b v db → Bound b v db'

  -- The accounts that a pod remembers are bound so.
  abbrev pub IsFaithful : Resolver Db → Type 0
  IsFaithful r = (b : String) (v : ℤ) → load b r.account_cache ≡ some v → Bound b v r.db

  -- What a method on a pod leads to, from a database: the cache is faithful, nothing was unbound,
  -- and a result has the property.
  pub record Post {A : Type 0} (Q : A → Db → Type 0) (before : Db)
      (out : Result Failure A × Resolver Db) : Type 0 where
    pub faithful : IsFaithful out.1
    pub extends : Extends before out.1.db
    pub gives : (x : A) → out.0 ≡ ok x → Q x out.1.db

  module _ {A : Type 0} (Q : A → Db → Type 0) where
    pub pure-Post : (x : A) (r : Resolver Db) → IsFaithful r → Q x r.db → Post Q r.db (pure x r)
    pure-Post x r f q = record {
      faithful = f;
      extends = λ b v k. k;
      gives = λ y e. let same : x ≡ y = ground arith in subst (λ (z : A). Q z r.db) same q;
    }

    pub fail-Post : (e : Failure) (r : Resolver Db) → IsFaithful r → Post Q r.db (fail e r)
    fail-Post e r f = record {
      faithful = f;
      extends = λ b v k. k;
      gives = λ y h. absurd (ground (arith, h));
    }

    continue-Post :
        {B : Type 0} (R : B → Db → Type 0) (before : Db) (answer : Result Failure A)
        (f : A → Exec Db B) (r : Resolver Db)
        → Post Q before (answer, r)
        → ((x : A) → IsFaithful r → Q x r.db → Post R r.db (f x r))
        → Post R before (continue answer f r)
    continue-Post R before (ok x) f r p next =
        let q = next x p.faithful (p.gives x refl) in
        record {
          faithful = q.faithful;
          extends = λ b v k. q.extends b v (p.extends b v k);
          gives = q.gives;
        }
    continue-Post R before (err e) f r p next = record {
      faithful = p.faithful;
      extends = p.extends;
      gives = λ y h. absurd (ground (arith, h));
    }

    pub bind-Post :
        {B : Type 0} (R : B → Db → Type 0) (m : Exec Db A) (f : A → Exec Db B) (r : Resolver Db)
        → Post Q r.db (m r)
        → ((x : A) (r' : Resolver Db)
            → IsFaithful r'
            → Extends r.db r'.db
            → Q x r'.db
            → Post R r'.db (f x r'))
        → Post R r.db ((m >>= f) r)
    bind-Post R m f r p next =
        continue-Post R r.db (m r).0 f (m r).1 p (λ x g q. next x (m r).1 g p.extends q)

  pub call-Post :
      {A : Type 0} (Q : Result DriverError A → Db → Type 0) (op : Db → Result DriverError A × Db)
      (r : Resolver Db)
      → IsFaithful r
      → Extends r.db (op r.db).1
      → Q (op r.db).0 (op r.db).1
      → Post Q r.db (call op r)
  call-Post {A} Q op r f e q = record {
    faithful = λ b v h. e b v (f b v h);
    extends = e;
    gives = λ y h.
        let same : (op r.db).0 ≡ y = ground (arith, h) in
        subst (λ (z : Result DriverError A). Q z (op r.db).1) same q;
  }

  abbrev pub Nothing : Unit {0} → Db → Type 0
  Nothing x db = Unit

  store_faithful :
      (a : String) (u : ℤ) (c : Cache) (db : Db)
      → Bound a u db
      → ((b : String) (v : ℤ) → load b c ≡ some v → Bound b v db)
      → (b : String) (v : ℤ) → load b (store a u c) ≡ some v
      → Bound b v db
  unfolding load
  store_faithful a u c db bound f b v h = elim (Bool-cases (a == b)) [
    | inl e ↦
        let value : u ≡ v = ground (arith, h, e) in
        let key : a ≡ b = (eq_iff a b).0 e in
        subst (λ (w : ℤ). Bound b w db) value (subst (λ (k : String). Bound k u db) key bound)
    | inr e ↦ f b v (ground (arith, h, e))
  ]

  pub cache_account-Post :
      (a : String) (u : ℤ) (r : Resolver Db)
      → IsFaithful r
      → Bound a u r.db
      → Post Nothing r.db (cache_account a u r)
  cache_account-Post a u r f bound = record {
    faithful = store_faithful a u r.account_cache r.db bound f;
    extends = λ b v k. k;
    gives = λ x e. tt;
  }

  pub cache_distinct-Post :
      (d : String) (u : ℤ) (r : Resolver Db)
      → IsFaithful r
      → Post Nothing r.db (cache_distinct d u r)
  cache_distinct-Post d u r f = record { faithful = f; extends = λ b v k. k; gives = λ x e. tt }

  -- A mapping with an account has it bound to its user.
  abbrev pub IsTrue : IdMapping → Db → Type 0
  IsTrue m db = is_set m.account_id ≡ true → Bound m.account_id m.user_id db

  pub cache_mapping-Post :
      (m : IdMapping) (r : Resolver Db)
      → IsFaithful r
      → IsTrue m r.db
      → Post Nothing r.db (cache_mapping m r)
  unfolding cache_mapping
  cache_mapping-Post m r f true_mapping = record {
    faithful = elim (Bool-cases (is_set m.account_id)) [
      | inl s ↦ rw s (store_faithful m.account_id m.user_id r.account_cache r.db (true_mapping s) f)
      | inr s ↦ rw s f
    ];
    extends = λ b v k. k;
    gives = λ x e. tt;
  }
