-- ===== src/Store.antt =====
-- internal/dao/store/store.go: bulk writes with retries, and the errors that count as skips.
pub mod Laws
mod Tests
use ta2mongo.Prelude.{
  ℕ, zero, suc, ◌+◌, ◌-◌, ◌%◌, ◌^◌, Bool, true, false, not, ◌&&◌, String, Option, none, some, List,
  [], ◌∷◌, nat_eq, ltb, or_else, if◌then◌else◌,
}
use ta2mongo.WriteModel.{Model}

pub data Target : Type 0 where
  user event dead_letter : Target

-- The error of a driver's BulkWrite: a mongo.BulkWriteException with the codes of its write errors
-- and whether it has a write-concern error, or another error.
pub data WriteError : Type 0 where
  exception : List ℕ → Bool → WriteError
  other : String → WriteError

abbrev pub duplicate_code : ℕ
duplicate_code = 11000

unfoldable pub all_duplicates : List ℕ → Bool
all_duplicates [] = true
all_duplicates (code ∷ codes) = nat_eq code duplicate_code && all_duplicates codes

abbrev pub is_nil : List ℕ → Bool
is_nil [] = true
is_nil l = false

unfoldable pub is_only_duplicate_key : WriteError → Bool
unfolding all_duplicates
is_only_duplicate_key (other text) = false
is_only_duplicate_key (exception codes concern) =
    if concern then false else if is_nil codes then false else all_duplicates codes

-- `op` of bulkWrite: the error of one attempt, nil for a skip.
unfoldable pub attempt_error : Option WriteError → Option WriteError
unfolding is_only_duplicate_key
attempt_error none = none
attempt_error (some e) = if is_only_duplicate_key e then none else some e

-- What bulkWrite leaves: the error, the driver calls made, and the database.
pub record Report (W : Type 0) : Type 0 where
  pub failure : Option WriteError
  pub attempts : ℕ
  pub world : W

-- The error of a retry that ends with `answer`: if the context ended it, that of the context.
abbrev pub reported : Option WriteError → Option WriteError → Option WriteError
reported stopped none = none
reported stopped (some e) = or_else stopped (some e)

-- `stopped` is the context's error, if that is what ends a retry.
module _ {W : Type 0} (driver : Bool → Target → List Model → W → Option WriteError × W)
    (stopped : Option WriteError) where
  -- backoff.Retry: `retries` is how often the policy and the context let it try again.
  unfoldable pub retry : ℕ → Bool → Target → List Model → ℕ → W → Report W
  unfolding attempt_error
  retry zero ordered target models attempt w =
      let (answer, w') = driver ordered target models w in
      record {
        failure = reported stopped (attempt_error answer);
        attempts = attempt + 1;
        world = w';
      }
  retry (suc retries) ordered target models attempt w =
      let (answer, w') = driver ordered target models w in
      elim (attempt_error answer) [
        | none ↦ record { failure = none; attempts = attempt + 1; world = w' }
        | some e ↦ retry retries ordered target models (attempt + 1) w'
      ]

  unfoldable pub bulk_write : ℕ → Bool → Target → List Model → W → Report W
  unfolding retry
  bulk_write retries ordered target [] w = record { failure = none; attempts = 0; world = w }
  bulk_write retries ordered target (m ∷ models) w = retry retries ordered target (m ∷ models) 0 w

-- s.stats.Retries.Add, on an int64 counter as a bit pattern
unfoldable pub count_retries : ℕ → ℕ → ℕ
count_retries attempts retries =
    if ltb 0 (attempts - 1) then (retries + (attempts - 1)) % 2 ^ 64 else retries
