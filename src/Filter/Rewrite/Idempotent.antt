-- ===== src/Filter/Rewrite/Idempotent.antt =====
-- Rewriting an expression twice gives what rewriting it once gives: the references that the first
-- pass writes stand inside string literals, and a `#` that it leaves is one that it would leave.
use ta2mongo.Prelude.{ℕ, ◌≡◌, false, nat_eq}
use ta2mongo.Filter.Rewrite.{backslash}

-- A byte that neither closes a double-quoted literal nor escapes in it.
abbrev IsPlain : ℕ → Type 0
IsPlain c = (nat_eq c b'"' ≡ false) × (nat_eq c backslash ≡ false)
