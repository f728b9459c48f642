-- ===== src/Cfgsync/ChangeStream/Reads.antt =====
-- The change stream leaves a watcher as the same reads by polling would.
use ta2mongo.Prelude.{
  ℕ, ◌≡◌, refl, ap, ◌∙◌, Option, none, some, List, [], ◌∷◌, Result, ok, err, Bool-cases, inl, inr,
  if◌then◌else◌,
}
use ta2mongo.Prelude.Int.{ℤ}
use ta2mongo.Value.{Fields}
use ta2mongo.Cfgsync.Watcher.{Watcher, observe, read_once, poll}
use ta2mongo.Cfgsync.ChangeStream.{
  Occurrence, reconcile, event, broke, resubscribe, pump, forward, stream_loop, stream_run,
}

-- The documents that the occurrences bring, as reads, until the context is done.
abbrev pub reads_of : {F : Type 0} → List (Occurrence F) → List (Result F (Option Fields))
reads_of [] = []
reads_of (reconcile answer ∷ occurrences) = answer ∷ reads_of occurrences
reads_of (event decoded ∷ occurrences) = decoded ∷ reads_of occurrences
reads_of (broke subscriptions answer ∷ occurrences) =
    let rest = reads_of occurrences in if resubscribe subscriptions then answer ∷ rest else []

module _ (truncate : ℕ → ℤ) {E S F : Type 0} (on_change : Option (Fields → S → Option E × S)) where
  forwarded :
      (decoded : Result F (Option Fields)) (w : Watcher S)
      → forward truncate on_change (pump decoded) w ≡ read_once truncate on_change decoded w
  unfolding forward pump read_once observe
  forwarded (err e) w = refl
  forwarded (ok none) w = refl
  forwarded (ok (some doc)) w = refl

  stream_loop_lem :
      (occurrences : List (Occurrence F)) (w : Watcher S)
      → (stream_loop truncate on_change occurrences w).1
        ≡ poll truncate on_change (reads_of occurrences) w
  unfolding stream_loop poll
  stream_loop_lem [] w = refl
  stream_loop_lem (reconcile answer ∷ occurrences) w =
      stream_loop_lem occurrences (read_once truncate on_change answer w)
  stream_loop_lem (event decoded ∷ occurrences) w =
      ap (λ z. (stream_loop truncate on_change occurrences z).1) (forwarded decoded w)
      ∙ stream_loop_lem occurrences (read_once truncate on_change decoded w)
  stream_loop_lem (broke subscriptions answer ∷ occurrences) w =
      elim (Bool-cases (resubscribe subscriptions)) [
        | inl h ↦
            rw (stream_loop, h)
              (stream_loop_lem occurrences (read_once truncate on_change answer w))
        | inr h ↦ rw (stream_loop, h) refl
      ]

  -- A change stream that could be subscribed leaves the watcher as polling does that makes the same
  -- reads: the one after the subscription, the reconcile reads, those after a stream broke and was
  -- subscribed again, and the events, of which one that does not decode or has no document changes
  -- nothing, up to a break that the context ends.
  pub stream_run-poll :
      (answer : Result F (Option Fields)) (occurrences : List (Occurrence F)) (w : Watcher S)
      → (stream_run truncate on_change (ok tt) answer occurrences w).1
        ≡ poll truncate on_change (answer ∷ reads_of occurrences) w
  unfolding stream_run poll
  stream_run-poll answer occurrences w =
      stream_loop_lem occurrences (read_once truncate on_change answer w)
