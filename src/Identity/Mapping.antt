-- ===== src/Identity/Mapping.antt =====
-- The id_mapping and id_counter collections as identity.go reaches them through the MongoDB driver.
use ta2mongo.Prelude.{String, ℕ, Option, List, Result, Bool, true, false}
use ta2mongo.Prelude.Int.{ℤ}

-- IDMapping of identity.go; an empty account is stored as no field.
pub record IdMapping : Type 0 where
  pub user_id : ℤ
  pub account_id : String
  pub distinct_ids : List String

-- The driver's errors that the code tells apart.
pub data DriverError : Type 0 where
  no_documents duplicate_key : DriverError
  failed : String → DriverError

abbrev pub is_duplicate_key : DriverError → Bool
is_duplicate_key duplicate_key = true
is_duplicate_key e = false

-- One round trip each. What other pods write between two round trips is part of the database that
-- the second one finds.
pub record Driver (Db : Type 0) : Type 0 where
  -- FindOne({#account_id}), FindOne({#distinct_ids})
  pub find_account : String → Db → Result DriverError IdMapping × Db
  pub find_distinct : String → Db → Result DriverError IdMapping × Db
  pub insert : IdMapping → Db → Result DriverError (Unit {0}) × Db
  -- DeleteOne({#user_id})
  pub delete : ℤ → Db → Result DriverError (Unit {0}) × Db
  -- UpdateOne({#user_id}, {$addToSet: {#distinct_ids}})
  pub add_distinct : ℤ → String → Db → Result DriverError (Unit {0}) × Db
  -- UpdateOne({#user_id, no #account_id}, {$set: {#account_id}}), with ModifiedCount
  pub set_account : ℤ → String → Db → Result DriverError ℕ × Db
  -- FindOneAndUpdate({_id: user_id}, {$inc: {seq: 1}}, upsert, after)
  pub next_seq : Db → Result DriverError ℤ × Db
  -- ctx.Err()
  pub ctx_err : Db → Option DriverError
