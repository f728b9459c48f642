-- ===== src/Store/Tests.antt =====
-- Runs of the bulk write, and its theorems at concrete inputs.
use ta2mongo.Prelude.{ℕ, zero, suc, ◌≡◌, refl, Bool, false, Option, none, some, List, [], ◌∷◌}
use ta2mongo.Prelude.Int.{pos}
use ta2mongo.WriteModel.{Model, dead_letter_model}
use ta2mongo.Store.{Target, user, WriteError, exception, other, duplicate_code, bulk_write}

-- A driver that fails once and then meets a duplicate key.
abbrev flaky : Bool → Target → List Model → ℕ → Option WriteError × ℕ
flaky ordered target models zero = (some (other "timeout"), 1)
flaky ordered target models (suc n) = (some (exception (duplicate_code ∷ []) false), suc (suc n))

abbrev letter : Model
letter = dead_letter_model (pos 1) "x" none

bulk_write_runs :
    bulk_write flaky none 3 false user (letter ∷ []) 0
    ≡ record { failure = none; attempts = 2; world = 2 }
unfolding bulk_write
bulk_write_runs = refl
