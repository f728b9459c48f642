-- ===== src/Process/Pipeline/Worker/Flushes.antt =====
-- The flushes of a worker, and what stays true of its batches.
use mathlib.Core.List.{append-nil}
use ta2mongo.Prelude.{
  ℕ, ◌<◌, ◌≡◌, refl, Bool, true, false, Option, none, some, List, [], ◌∷◌, ◌++◌, length, arith, All,
}
use ta2mongo.Prelude.Int.{ℤ, pos, ◌≤ℤ◌, ◌<ℤ◌}
use ta2mongo.WriteModel.{Model}
use ta2mongo.Store.{Target, user, event, dead_letter, WriteError}
use ta2mongo.Process.Uploads.{Stage}
use ta2mongo.Process.Uploads.Trace.{
  Act, processed, wrote, traced, only, due, sent, handled, only_nil,
}
use ta2mongo.Process.Single
use ta2mongo.Process.Pipeline.Config.{Config, max_batch_size}
use ta2mongo.Process.Pipeline.Threshold.{Float}
use ta2mongo.Process.Pipeline.Worker.{Batches, flush_batch, flush, flush_if}

-- A write of users or events is of at most `max` models, and no write is empty.
abbrev pub IsCapped : ℤ → Act → Type 0
IsCapped max (processed o) = Unit
IsCapped max (wrote dead_letter models e) = 0 < length models
IsCapped max (wrote user models e) = (0 < length models) × (pos (length models) ≤ℤ max)
IsCapped max (wrote event models e) = (0 < length models) × (pos (length models) ≤ℤ max)

-- The size that a write to a target needs.
abbrev Fits : ℤ → Target → List Model → Type 0
Fits max dead_letter models = Unit
Fits max user models = pos (length models) ≤ℤ max
Fits max event models = pos (length models) ≤ℤ max

Fits-IsCapped :
    (max : ℤ) (t : Target) (m : Model) (models : List Model) (e : Option WriteError)
    → Fits max t (m ∷ models)
    → IsCapped max (wrote t (m ∷ models) e)
Fits-IsCapped max user m models e h = (omega arith, h)
Fits-IsCapped max event m models e h = (omega arith, h)
Fits-IsCapped max dead_letter m models e h = omega arith

-- What writing `models` to `t` does to the trace.
pub record Written (t : Target) (models : List Model) (l l' : List Act) : Type 0 where
  pub dues : (u : Target) → due u l' ≡ due u l
  pub sents : (u : Target) → sent u l' ≡ sent u l ++ only u t models
  pub lines : handled l' ≡ handled l
  pub capped : (max : ℤ) → Fits max t models → All (IsCapped max) l → All (IsCapped max) l'

-- What stays true between the events, except for the sizes.
pub record Running (max : ℤ) (n : ℕ) (b : Batches) (l : List Act) : Type 0 where
  pub users : due user l ≡ sent user l ++ b.users.models
  pub events : due event l ≡ sent event l ++ b.events.models
  pub deads : due dead_letter l ≡ sent dead_letter l ++ b.deads.models
  pub lines : handled l ≡ n
  pub capped : All (IsCapped max) l

-- The users and events are below the maximum.
abbrev pub IsSmall : ℤ → Batches → Type 0
IsSmall max b = (pos (length b.users.models) <ℤ max) × (pos (length b.events.models) <ℤ max)

abbrev pub IsFlushable : ℤ → Batches → Type 0
IsFlushable max b = (pos (length b.users.models) ≤ℤ max) × (pos (length b.events.models) ≤ℤ max)

module _ (float : Float) (cfg : Config) {W : Type 0} (stage : Stage W) where
  note_failure-trace :
      (e : Option WriteError) (w : W) (l : List Act)
      → (Single.note_failure (traced stage) e (w, l)).1 ≡ l
  unfolding Single.note_failure
  note_failure-trace none w l = refl
  note_failure-trace (some e) w l = refl

  flush_batch-Written :
      (t : Target) (models : List Model) (w : W) (l : List Act)
      → Written t models l (flush_batch float cfg (traced stage) t models (w, l)).1
  unfolding flush_batch
  flush_batch-Written t [] w l = record {
    dues = λ u. refl;
    sents = λ u. rw (only_nil u t, append-nil (sent u l)) refl;
    lines = refl;
    capped = λ max h s. s;
  }
  flush_batch-Written t (m ∷ models) w l =
      let e = (stage.write t (m ∷ models) w).0 in
      let w' = (stage.write t (m ∷ models) w).1 in
      rw (note_failure-trace e w' (wrote t (m ∷ models) e ∷ l)) (record {
        dues = λ u. refl;
        sents = λ u. refl;
        lines = refl;
        capped = λ max h s. (Fits-IsCapped max t m models e h, s);
      })

  abbrev max : ℤ
  max = max_batch_size cfg

  pub flush-Running :
      (n : ℕ) (b : Batches) (w : W) (l : List Act)
      → pos 0 <ℤ max
      → Running max n b l
      → IsFlushable max b
      → let r = flush float cfg (traced stage) (b, (w, l)) in
        Running max n r.0 r.1.1 × IsSmall max r.0
  unfolding flush
  flush-Running n b w l positive h small =
      let s0 : W × List Act = (w, l) in
      let s1 = flush_batch float cfg (traced stage) user b.users.models s0 in
      let s2 = flush_batch float cfg (traced stage) event b.events.models s1 in
      let s3 = flush_batch float cfg (traced stage) dead_letter b.deads.models s2 in
      let h1 = flush_batch-Written user b.users.models w l in
      let h2 = flush_batch-Written event b.events.models s1.0 s1.1 in
      let h3 = flush_batch-Written dead_letter b.deads.models s2.0 s2.1 in
      (
        record {
          users =
              rw
                (
                  h3.dues user,
                  h2.dues user,
                  h1.dues user,
                  h3.sents user,
                  h2.sents user,
                  h1.sents user,
                  h.users,
                )
                (simp (append-nil));
          events =
              rw
                (
                  h3.dues event,
                  h2.dues event,
                  h1.dues event,
                  h3.sents event,
                  h2.sents event,
                  h1.sents event,
                  h.events,
                )
                (simp (append-nil));
          deads =
              rw
                (
                  h3.dues dead_letter,
                  h2.dues dead_letter,
                  h1.dues dead_letter,
                  h3.sents dead_letter,
                  h2.sents dead_letter,
                  h1.sents dead_letter,
                  h.deads,
                )
                (simp (append-nil));
          lines = rw (h3.lines, h2.lines, h1.lines) h.lines;
          capped = h3.capped max tt (h2.capped max small.1 (h1.capped max small.0 h.capped));
        },
        (positive, positive),
      )

  pub flush_if-Running :
      (due_now : Bool) (n : ℕ) (b : Batches) (w : W) (l : List Act)
      → pos 0 <ℤ max
      → Running max n b l
      → IsFlushable max b
      → (due_now ≡ false → IsSmall max b)
      → let r = flush_if float cfg (traced stage) due_now (b, (w, l)) in
        Running max n r.0 r.1.1 × IsSmall max r.0
  unfolding flush_if
  flush_if-Running true n b w l positive h small s = flush-Running n b w l positive h small
  flush_if-Running false n b w l positive h small s = (h, s refl)
