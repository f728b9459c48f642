-- ===== src/Process/Batch/Runs.antt =====
-- What a run of the batch strategy writes and returns.
use ta2mongo.Prelude.{ℕ, ◌≡◌, Option, none, some, List, or_else, All}
use ta2mongo.Store.{Target}
use ta2mongo.Process.Uploads.{End, drained, cancelled, RunError, context_error}
use ta2mongo.Process.Uploads.Trace.{Act, due, sent, first_error, handled, IsSized}

-- The error that `Run` returns when the source ends.
abbrev pub end_error : End → Option RunError
end_error drained = none
end_error (cancelled text) = some (context_error text)

-- A finished run: all models are written to their collections in order, each write is of at most
-- `size` models, and the result is the first error of a write, or that of the context.
pub record IsComplete (size n : ℕ) (end : End) (result : Option RunError) (l : List Act)
    : Type 0 where
  pub written : (t : Target) → sent t l ≡ due t l
  pub sized : All (IsSized size) l
  pub lines : handled l ≡ n
  pub returned : result ≡ or_else (first_error l) (end_error end)
