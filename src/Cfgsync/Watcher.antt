-- ===== src/Cfgsync/Watcher.antt =====
-- cfgsync.go and poll.go: the version guard of the watcher, and the polls that feed it.
pub mod Guard
pub mod Newest
use ta2mongo.Prelude.{
  ℕ, Bool, true, false, Option, none, some, List, [], ◌∷◌, Result, ok, err, if◌then◌else◌,
}
use ta2mongo.Prelude.Int.{ℤ, pos, leb_ℤ}
use ta2mongo.Value.{Fields}
use ta2mongo.Cfgsync.Document.{doc_version}

-- The watcher's own state, with the live state `S` that `onChange` changes.
pub record Watcher (S : Type 0) : Type 0 where
  pub last_version : ℤ
  pub ready : Bool
  pub live : S

abbrev pub new_watcher : {S : Type 0} → S → Watcher S
new_watcher s = record { last_version = pos 0; ready = false; live = s }

module _ (truncate : ℕ → ℤ) {E S : Type 0} (on_change : Option (Fields → S → Option E × S)) where
  -- What follows an accepted version.
  unfoldable pub accept : Fields → Watcher S → Option E × Watcher S
  accept doc w = elim on_change [
    | none ↦ (none, record w { ready = true })
    | some f ↦
        let (e, s) = f doc w.live in
        elim e [
          | some cause ↦ (some cause, record w { live = s })
          | none ↦ (none, record w { ready = true; live = s })
        ]
  ]

  -- `observe`, of a document that may be missing.
  unfoldable pub observe : Option Fields → Watcher S → Option E × Watcher S
  unfolding accept doc_version
  observe none w = (none, w)
  observe (some doc) w = elim (doc_version truncate doc) [
    | none ↦ (none, w)
    | some version ↦
        if leb_ℤ version w.last_version
        then (none, w)
        else accept doc (record w { last_version = version })
  ]

  -- `readOnce` of the poll backend, on the answer of `fetchDoc`; an error of a read is logged.
  unfoldable pub read_once : {F : Type 0} → Result F (Option Fields) → Watcher S → Watcher S
  unfolding observe
  read_once (err e) w = w
  read_once (ok doc) w = (observe doc w).1

  -- `Run` of the poll backend: the read at the start and those of the ticks, until the context ends.
  unfoldable pub poll : {F : Type 0} → List (Result F (Option Fields)) → Watcher S → Watcher S
  unfolding read_once
  poll [] w = w
  poll (answer ∷ answers) w = poll answers (read_once answer w)
