-- ===== src/Cfgsync/ChangeStream.antt =====
-- changestream.go: the backend that follows a change stream, with its reconcile reads.
pub mod Reads
use ta2mongo.Prelude.{
  ℕ, Bool, true, false, Option, none, some, List, [], ◌∷◌, Result, ok, err, if◌then◌else◌,
}
use ta2mongo.Prelude.Int.{ℤ}
use ta2mongo.Value.{Fields}
use ta2mongo.Cfgsync.Watcher.{Watcher, observe, read_once}

-- What the loop of `Run` selects. An event of the stream carries its decoded full document, if it
-- decodes and has one; `broke` carries the answers to the subscriptions that are tried until the
-- context is done, by whether each succeeded, and that of the read after one that did.
pub data Occurrence (F : Type 0) : Type 0 where
  reconcile : Result F (Option Fields) → Occurrence F
  event : Result F (Option Fields) → Occurrence F
  broke : List Bool → Result F (Option Fields) → Occurrence F

-- How `Run` ends: the subscription is not supported, or the context is done.
pub data RunError (F : Type 0) : Type 0 where
  unsupported : F → RunError F
  context_done : RunError F

-- `resubscribe`, of whether it returns a stream.
unfoldable pub resubscribe : List Bool → Bool
resubscribe [] = false
resubscribe (true ∷ answers) = true
resubscribe (false ∷ answers) = resubscribe answers

-- `pump` on one event: the document that it forwards.
unfoldable pub pump : {F : Type 0} → Result F (Option Fields) → Option Fields
pump (err e) = none
pump (ok doc) = doc

module _ (truncate : ℕ → ℤ) {E S : Type 0} (on_change : Option (Fields → S → Option E × S)) where
  -- What the loop does with the pump's document, if there is one.
  unfoldable pub forward : Option Fields → Watcher S → Watcher S
  unfolding observe
  forward none w = w
  forward (some doc) w = (observe truncate on_change (some doc) w).1

  module _ {F : Type 0} where
    -- The loop until the context is done.
    unfoldable pub stream_loop : List (Occurrence F) → Watcher S → RunError F × Watcher S
    unfolding forward pump read_once resubscribe
    stream_loop [] w = (context_done, w)
    stream_loop (reconcile answer ∷ occurrences) w =
        stream_loop occurrences (read_once truncate on_change answer w)
    stream_loop (event decoded ∷ occurrences) w = stream_loop occurrences (forward (pump decoded) w)
    stream_loop (broke subscriptions answer ∷ occurrences) w =
        let rest = stream_loop occurrences (read_once truncate on_change answer w) in
        if resubscribe subscriptions then rest else (context_done, w)

    -- `Run`, on the answers to its subscription and to the read that follows it.
    unfoldable pub stream_run :
        Result F (Unit {0})
        → Result F (Option Fields)
        → List (Occurrence F)
        → Watcher S
        → RunError F × Watcher S
    unfolding stream_loop read_once
    stream_run (err e) answer occurrences w = (unsupported e, w)
    stream_run (ok _) answer occurrences w =
        stream_loop occurrences (read_once truncate on_change answer w)
