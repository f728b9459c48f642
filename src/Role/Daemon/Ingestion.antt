-- ===== src/Role/Daemon/Ingestion.antt =====
-- The daemon ingests nothing before the central configuration was applied.
use ta2mongo.Prelude.{
  ℕ, ◌≡◌, refl, ◌⊎◌, String, true, false, Option, none, some, List, [], ◌∷◌, ok, err, arith,
  Bool-cases, Option-cases, inl, inr,
}
use ta2mongo.Prelude.Int.{ℤ, leb_ℤ}
use ta2mongo.Value.{Fields}
use ta2mongo.Cfgsync.Document.{doc_version}
use ta2mongo.Cfgsync.Watcher.{Watcher, new_watcher, accept, observe, read_once}
use ta2mongo.Process.Mode as Mode
use ta2mongo.Process.Mode.{Uploader, new}
use ta2mongo.Role.Daemon.{
  Moment, reading, looking, warning, context_done, Gate, waiting, opened, stopped, wait_for_config,
  Action, report_started, cfgsync_started, ingesting, after_gate, preceded, run,
}

-- The run ingests lines.
abbrev pub Ingests : List Action → Type 0
Ingests [] = ⊥
Ingests (ingesting u ∷ actions) = Unit
Ingests (action ∷ actions) = Ingests actions

module _ (truncate : ℕ → ℤ) {E S : Type 0} (f : Fields → S → Option E × S) where
  accept-ready :
      (doc : Fields) (w : Watcher S)
      → w.ready ≡ false
      → (accept truncate (some f) doc w).1.ready ≡ true
      → (f doc w.live).0 ≡ none
  unfolding accept
  accept-ready doc w h k = elim (Option-cases (f doc w.live).0) [
    | inl e ↦ e
    | inr (cause, e) ↦ absurd (ground (arith, h, k, e))
  ]

  observe-ready :
      (doc : Fields) (w : Watcher S)
      → w.ready ≡ false
      → (observe truncate (some f) (some doc) w).1.ready ≡ true
      → (version : ℤ) × (doc_version truncate doc ≡ some version) × ((f doc w.live).0 ≡ none)
  unfolding observe
  observe-ready doc w h k = elim (Option-cases (doc_version truncate doc)) [
    | inl e ↦ absurd (ground (arith, h, k, e))
    | inr (v, e) ↦ elim (Bool-cases (leb_ℤ v w.last_version)) [
      | inl old ↦ absurd (ground (arith, h, k, e, old))
      | inr new_version ↦ (
        v,
        e,
        accept-ready doc (record w { last_version = v }) h (ground (arith, k, e, new_version)),
      )
    ]
  ]

module _ (truncate : ℕ → ℤ) {E F S : Type 0} (f : Fields → S → Option E × S) where
  -- A read of the watcher has this document.
  abbrev pub IsRead : Fields → List (Moment F) → Type 0
  IsRead doc [] = ⊥
  IsRead doc (reading (ok (some d)) ∷ moments) = (d ≡ doc) ⊎ IsRead doc moments
  IsRead doc (m ∷ moments) = IsRead doc moments

  -- A document with a version was read, and the applier took it over without an error.
  abbrev pub Applied : List (Moment F) → Type 0
  Applied moments =
      (doc : Fields) × (version : ℤ) × (live : S) × IsRead doc moments
      × (doc_version truncate doc ≡ some version)
      × ((f doc live).0 ≡ none)

  wait_for_config-Applied :
      (w : Watcher S) (moments : List (Moment F))
      → w.ready ≡ false
      → (wait_for_config truncate (some f) w moments).0 ≡ opened
      → Applied moments
  unfolding wait_for_config read_once
  wait_for_config-Applied w [] h k = absurd (ground (arith, k))
  wait_for_config-Applied w (reading (err e) ∷ moments) h k = wait_for_config-Applied w moments h k
  wait_for_config-Applied w (reading (ok none) ∷ moments) h k =
      unfold observe in wait_for_config-Applied w moments h k
  wait_for_config-Applied w (reading (ok (some doc)) ∷ moments) h k =
      let w' = (observe truncate (some f) (some doc) w).1 in
      elim (Bool-cases w'.ready) [
        | inl r ↦
            let (v, versioned, applied) = observe-ready truncate f doc w h r in
            (doc, v, w.live, inl refl, versioned, applied)
        | inr r ↦
            let (d, v, live, read, versioned, applied) = wait_for_config-Applied w' moments r k in
            (d, v, live, inr read, versioned, applied)
      ]
  wait_for_config-Applied w (looking ∷ moments) h k =
      wait_for_config-Applied w moments h (ground (arith, h, k))
  wait_for_config-Applied w (warning ∷ moments) h k = wait_for_config-Applied w moments h k
  wait_for_config-Applied w (context_done ∷ moments) h k = absurd (ground (arith, k))

  -- With cfgsync enabled the daemon ingests lines only if a document was read that has a version,
  -- and that the applier took over without an error; as long as none is published, or none
  -- can be applied, it does not.
  pub run-Applied :
      (patterns : List String) (cfg : Mode.Config) (live : S) (moments : List (Moment F))
      → Ingests (run truncate (some f) patterns cfg true live moments).0
      → Applied moments
  unfolding run
  run-Applied [] cfg live moments h = absurd h
  run-Applied (p ∷ ps) cfg live moments h =
      wait_for_config-Applied (new_watcher live) moments refl
        (gate_opened (wait_for_config truncate (some f) (new_watcher live) moments).0 h)
    where
      gate_opened :
          (gate : Gate)
          → Ingests (preceded (report_started ∷ cfgsync_started ∷ []) (after_gate gate cfg)).0
          → gate ≡ opened
      gate_opened waiting i = absurd i
      gate_opened stopped i = absurd i
      gate_opened opened i = refl
