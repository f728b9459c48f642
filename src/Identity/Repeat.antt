-- ===== src/Identity/Repeat.antt =====
-- A pod remembers what it resolved.
use ta2mongo.Prelude.{◌≡◌, String, Option, some, ok}
use ta2mongo.Prelude.Int.{ℤ}
use ta2mongo.Identity.Mapping.{IdMapping, Driver}
use ta2mongo.Identity.Resolver.{load, Resolver, Exec}

-- What the server documents of a lookup: it answers a document that has the id.
pub record Documented {Db : Type 0} (io : Driver Db) : Type 0 where
  pub by_account :
      (a : String) (db : Db) (m : IdMapping) → (io.find_account a db).0 ≡ ok m → m.account_id ≡ a

module _ {Db : Type 0} where
  -- A method that succeeds gives a value of `Q`.
  Gives : {A : Type 0} → (A → Type 0) → Exec Db A → Type 0
  Gives {A} Q m = (r : Resolver Db) (x : A) → (m r).0 ≡ ok x → Q x

  -- A method that succeeds with a user leaves the account's user in the cache.
  Remembers : String → Exec Db ℤ → Type 0
  Remembers a m = (r : Resolver Db) (u : ℤ) → (m r).0 ≡ ok u → load a (m r).1.account_cache ≡ some u

  module _ (io : Driver Db) (documented : Documented io) where
    -- A mapping that is found by an account has that account.
    IsOf : String → Option IdMapping → Type 0
    IsOf a o = (m : IdMapping) → o ≡ some m → m.account_id ≡ a
