-- ===== src/Process/Batch/Flushes.antt =====
-- The flushes of the batch strategy, and what stays true of its buffers.
use ta2mongo.Prelude.{
  ℕ, ◌+◌, ◌≤◌, ◌≡◌, refl, Option, none, some, List, [], ◌∷◌, ◌++◌, length, arith, or_else, All,
}
use mathlib.Core.List.{append-nil}
use ta2mongo.WriteModel.{Model}
use ta2mongo.Store.{Target, user, event, dead_letter, WriteError}
use ta2mongo.Process.Uploads.{Stage, RunError}
use ta2mongo.Process.Uploads.Trace.{
  Act, wrote, traced, only, due, sent, error_of, first_error, handled, only_nil, IsSized,
}
use ta2mongo.Process.Batch.{Buffers, emptied, note_failure, flush_one, flush, flush_all}

module _ {ℓ} {A : Type ℓ} where
  pub or_else_nil : (o : Option A) → or_else o none ≡ o
  or_else_nil none = refl
  or_else_nil (some a) = refl

  or_else_chain :
      (o a b c : Option A)
      → or_else o (or_else (or_else a b) c) ≡ or_else (or_else (or_else o a) b) c
  or_else_chain none a b c = refl
  or_else_chain (some x) a b c = refl

  errors_chain :
      (a b c : Option A) {x1 x2 x3 y0 y1 y2 y3 o : Option A}
      → x1 ≡ or_else none a
      → x2 ≡ or_else x1 b
      → x3 ≡ or_else x2 c
      → o ≡ y0
      → y1 ≡ or_else y0 a
      → y2 ≡ or_else y1 b
      → y3 ≡ or_else y2 c
      → or_else o x3 ≡ y3
  errors_chain a b c {y0 = y0} p q r s t u v = rw (v, u, t, s, r, q, p) (or_else_chain y0 a b c)

-- What writing `models` to `t` does to the error and the trace.
pub record Written (t : Target) (models : List Model) (first : Option RunError) (l : List Act)
    (first' : Option RunError) (l' : List Act) : Type 0 where
  pub dues : (u : Target) → due u l' ≡ due u l
  pub sents : (u : Target) → sent u l' ≡ sent u l ++ only u t models
  pub failure : Option RunError
  pub error : first' ≡ or_else first failure
  pub noted : first_error l' ≡ or_else (first_error l) failure
  pub lines : handled l' ≡ handled l
  pub sized : (size : ℕ) → length models ≤ size → All (IsSized size) l → All (IsSized size) l'

-- What stays true between the lines.
pub record Running (size n : ℕ) (b : Buffers) (l : List Act) : Type 0 where
  pub users : due user l ≡ sent user l ++ b.users
  pub events : due event l ≡ sent event l ++ b.events
  pub deads : due dead_letter l ≡ sent dead_letter l ++ b.deads
  pub counted : length b.users + length b.events + length b.deads ≤ b.pending
  pub error : b.first ≡ first_error l
  pub lines : handled l ≡ n
  pub sized : All (IsSized size) l

module _ {W : Type 0} (stage : Stage W) where
  note_failure-error :
      (t : Target) (e : Option WriteError) (first : Option RunError) (s : W × List Act)
      → (note_failure (traced stage) t e first s).0 ≡ or_else first (error_of t e)
  unfolding note_failure
  note_failure-error t none first s = rw (or_else_nil first) refl
  note_failure-error t (some e) first s = refl

  note_failure-trace :
      (t : Target) (e : Option WriteError) (first : Option RunError) (w : W) (l : List Act)
      → (note_failure (traced stage) t e first (w, l)).1.1 ≡ l
  unfolding note_failure
  note_failure-trace t none first w l = refl
  note_failure-trace t (some e) first w l = refl

  pub flush_one-Written :
      (t : Target) (models : List Model) (first : Option RunError) (w : W) (l : List Act)
      → let r = flush_one (traced stage) t models (first, (w, l)) in
        Written t models first l r.0 r.1.1
  unfolding flush_one
  flush_one-Written t [] first w l = record {
    dues = λ u. refl;
    sents = λ u. rw (only_nil u t, append-nil (sent u l)) refl;
    failure = none;
    error = rw (or_else_nil first) refl;
    noted = rw (or_else_nil (first_error l)) refl;
    lines = refl;
    sized = λ size h s. s;
  }
  flush_one-Written t (m ∷ models) first w l =
      let e = (stage.write t (m ∷ models) w).0 in
      let w' = (stage.write t (m ∷ models) w).1 in
      let l' = wrote t (m ∷ models) e ∷ l in
      rw (note_failure-trace t e first w' l', note_failure-error t e first (w', l'))
        (record {
          dues = λ u. refl;
          sents = λ u. refl;
          failure = error_of t e;
          error = refl;
          noted = refl;
          lines = refl;
          sized = λ size h s. ((omega arith, h), s);
        })

  pub flush_all-Running :
      (size n : ℕ) (b : Buffers) (w : W) (l : List Act)
      → Running size n b l
      → b.pending ≤ size
      → let r = flush_all (traced stage) (b, (w, l)) in
        Running size n r.0 r.1.1 × (r.0 ≡ emptied r.0.first)
  unfolding flush_all flush
  flush_all-Running size n b w l h small =
      let s0 : Option RunError × (W × List Act) = (none, (w, l)) in
      let s1 = flush_one (traced stage) user b.users s0 in
      let s2 = flush_one (traced stage) event b.events s1 in
      let s3 = flush_one (traced stage) dead_letter b.deads s2 in
      let h1 = flush_one-Written user b.users none w l in
      let h2 = flush_one-Written event b.events s1.0 s1.1.0 s1.1.1 in
      let h3 = flush_one-Written dead_letter b.deads s2.0 s2.1.0 s2.1.1 in
      (
        record {
          users =
              rw
                (
                  h3.dues user,
                  h2.dues user,
                  h1.dues user,
                  h3.sents user,
                  h2.sents user,
                  h1.sents user,
                  h.users,
                )
                (simp (append-nil));
          events =
              rw
                (
                  h3.dues event,
                  h2.dues event,
                  h1.dues event,
                  h3.sents event,
                  h2.sents event,
                  h1.sents event,
                  h.events,
                )
                (simp (append-nil));
          deads =
              rw
                (
                  h3.dues dead_letter,
                  h2.dues dead_letter,
                  h1.dues dead_letter,
                  h3.sents dead_letter,
                  h2.sents dead_letter,
                  h1.sents dead_letter,
                  h.deads,
                )
                (simp (append-nil));
          counted = omega arith;
          error =
              errors_chain h1.failure h2.failure h3.failure h1.error h2.error h3.error h.error
                h1.noted h2.noted h3.noted;
          lines = rw (h3.lines, h2.lines, h1.lines) h.lines;
          sized = h3.sized size (omega (arith, h.counted)) (
              h2.sized size (omega (arith, h.counted))
                (h1.sized size (omega (arith, h.counted)) h.sized));
        },
        refl,
      )
