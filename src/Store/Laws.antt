-- ===== src/Store/Laws.antt =====
-- When a bulk write succeeds, and what it costs.
use ta2mongo.Prelude.{
  ℕ, zero, suc, ◌+◌, ◌≤◌, ◌<◌, ◌≡◌, ◌↔◌, refl, Bool, true, false, Option, some, List, [], ◌∷◌,
  arith, All, nat_eq_iff,
}
use mathlib.Core.Path.{subst}
use ta2mongo.WriteModel.{Model}
use ta2mongo.Store.{
  Target, WriteError, exception, other, duplicate_code, all_duplicates, is_only_duplicate_key,
  attempt_error, reported, Report,
}

all_duplicates_iff :
    (codes : List ℕ) → (all_duplicates codes ≡ true) ↔ All (λ c. c ≡ duplicate_code) codes
unfolding all_duplicates
all_duplicates_iff [] = ground arith
all_duplicates_iff (c ∷ codes) =
    ground (arith, all_duplicates_iff codes, nat_eq_iff c duplicate_code)

-- A bulk write's error counts as a skip exactly when it is an exception with no write-concern
-- error whose write errors, at least one, are all duplicate keys.
pub is_only_duplicate_key_iff :
    (e : WriteError)
    → (is_only_duplicate_key e ≡ true) ↔ (
        (code : ℕ) × (codes : List ℕ) × (e ≡ exception (code ∷ codes) false)
        × All (λ c. c ≡ duplicate_code) (code ∷ codes))
unfolding is_only_duplicate_key
is_only_duplicate_key_iff (other text) = ((λ h. absurd (ground arith)), (λ (c, l, e, a). cc))
is_only_duplicate_key_iff (exception codes true) =
    ((λ h. absurd (ground arith)), (λ (c, l, e, a). absurd (ground arith)))
is_only_duplicate_key_iff (exception [] false) =
    ((λ h. absurd (ground arith)), (λ (c, l, e, a). absurd (ground arith)))
is_only_duplicate_key_iff (exception (code ∷ codes) false) = (
  (λ h. (code, codes, refl, (all_duplicates_iff (code ∷ codes)).0 h)),
  (λ (c, l, e, a).
      let same : c ∷ l ≡ code ∷ codes = ground arith in
      (all_duplicates_iff (code ∷ codes)).1
        (subst (λ (l : List ℕ). All (λ c. c ≡ duplicate_code) l) same a)),
)

module _ {W : Type 0} (driver : Bool → Target → List Model → W → Option WriteError × W)
    (stopped : Option WriteError) (ordered : Bool) (target : Target) (models : List Model) where
  -- The database and the error after `n` attempts.
  pub after : ℕ → W → W
  after zero w = w
  after (suc n) w = (driver ordered target models (after n w)).1

  pub answer : ℕ → W → Option WriteError
  answer n w = attempt_error (driver ordered target models (after n w)).0

  -- A report of attempts from number `k` on, the last of them number `last`.
  pub record Retried (k retries : ℕ) (w : W) (r : Report W) : Type 0 where
    pub last : ℕ
    pub counted : r.attempts ≡ suc last
    pub started : k ≤ last
    pub bounded : last ≤ k + retries
    pub world : r.world ≡ after (suc last) w
    pub failure : r.failure ≡ reported stopped (answer last w)
    pub earlier : (n : ℕ) → k ≤ n → n < last → (e : WriteError) × (answer n w ≡ some e)
    pub exhausted : (e : WriteError) → r.failure ≡ some e → last ≡ k + retries
