-- ===== src/Cfgsync/Watcher/Guard.antt =====
-- The version guard: documents are applied in the order of their versions, and the newest one stays.
use ta2mongo.Prelude.{
  ℕ, ◌≡◌, refl, Option, none, some, List, [], ◌∷◌, Result, ok, err, arith, All, Option-cases,
  Bool-cases, inl, inr,
}
use ta2mongo.Prelude.Int.{ℤ, pos, ◌≤ℤ◌, ◌<ℤ◌, leb_ℤ}
use ta2mongo.Value.{Fields}
use ta2mongo.Cfgsync.Document.{doc_version}
use ta2mongo.Cfgsync.Watcher.{Watcher, new_watcher, accept, observe, read_once, poll}

module _ (truncate : ℕ → ℤ) {E S : Type 0} (f : Fields → S → Option E × S) where
  -- `f` recording the documents that it is given, newest first.
  abbrev pub recorded : Fields → S × List Fields → Option E × (S × List Fields)
  recorded doc (s, l) = let (e, s') = f doc s in (e, (s', doc ∷ l))

  -- The documents have versions that grow strictly from 0 up to `last`, that of the newest.
  abbrev pub Accepted : ℤ → List Fields → Type 0
  Accepted last [] = last ≡ pos 0
  Accepted last (doc ∷ l) =
      (doc_version truncate doc ≡ some last)
      × ((previous : ℤ) × ((previous <ℤ last) × Accepted previous l))

  abbrev pub watch : Option (Fields → S × List Fields → Option E × (S × List Fields))
  watch = some recorded

  accept_live :
      (doc : Fields) (w : Watcher (S × List Fields))
      → let w' = (accept truncate watch doc w).1 in
        (w'.last_version ≡ w.last_version) × (w'.live.1 ≡ doc ∷ w.live.1)
  unfolding accept
  accept_live doc w = elim (Option-cases (f doc w.live.0).0) [
    | inl h ↦ rw (accept, h) (refl, refl)
    | inr (e, h) ↦ rw (accept, h) (refl, refl)
  ]

  module _ {F : Type 0} where
    -- A read has no document of a version above `v`.
    abbrev pub IsUpTo : ℤ → Result F (Option Fields) → Type 0
    IsUpTo v (err e) = Unit
    IsUpTo v (ok none) = Unit
    IsUpTo v (ok (some doc)) = (u : ℤ) → doc_version truncate doc ≡ some u → u ≤ℤ v

    -- What one document does to the guard.
    record Guarded (w w' : Watcher (S × List Fields)) (read : Result F (Option Fields))
        : Type 0 where
      grown : w.last_version ≤ℤ w'.last_version
      seen : IsUpTo w'.last_version read
      accepted : Accepted w.last_version w.live.1 → Accepted w'.last_version w'.live.1

    read_once-Guarded :
        (read : Result F (Option Fields)) (w : Watcher (S × List Fields))
        → Guarded w (read_once truncate watch read w) read
    unfolding read_once observe
    read_once-Guarded (err e) w = record { grown = omega arith; seen = tt; accepted = λ h. h }
    read_once-Guarded (ok none) w = record { grown = omega arith; seen = tt; accepted = λ h. h }
    read_once-Guarded (ok (some doc)) w = elim (Option-cases (doc_version truncate doc)) [
      | inl h ↦
          rw (read_once, observe, h)
            (record {
              grown = omega arith;
              seen = λ u k. absurd (ground (arith, h, k));
              accepted = λ h. h;
            })
      | inr (v, h) ↦ elim (Bool-cases (leb_ℤ v w.last_version)) [
        | inl old ↦
            rw (read_once, observe, h, old)
              (record {
                grown = omega arith;
                seen = λ u k.
                    let same : v ≡ u = ground (arith, h, k) in rw (← same) (ground (arith, old));
                accepted = λ a. a;
              })
        | inr new ↦
            let (e1, e2) = accept_live doc (record w { last_version = v }) in
            rw (read_once, observe, h, new)
              (record {
                grown = rw e1 (ground (arith, new));
                seen =
                    λ u k. let same : v ≡ u = ground (arith, h, k) in rw (e1, ← same) (omega arith);
                accepted = λ a. rw (e1, e2) (h, (w.last_version, (ground (arith, new), a)));
              })
      ]
    ]

    -- What a watcher that starts anew has applied, by the reads it made.
    pub record Converged (reads : List (Result F (Option Fields))) (w : Watcher (S × List Fields))
        : Type 0 where
      pub accepted : Accepted w.last_version w.live.1
      pub newest : All (IsUpTo w.last_version) reads

    raise : (u v : ℤ) (read : Result F (Option Fields)) → u ≤ℤ v → IsUpTo u read → IsUpTo v read
    raise u v (err e) h k = tt
    raise u v (ok none) h k = tt
    raise u v (ok (some doc)) h k = λ t e. omega (arith, h, k t e)

    poll_lem :
        (reads : List (Result F (Option Fields))) (w : Watcher (S × List Fields))
        → Accepted w.last_version w.live.1
        → (w.last_version ≤ℤ (poll truncate watch reads w).last_version)
          × Converged reads (poll truncate watch reads w)
    unfolding poll
    poll_lem [] w a = (omega arith, record { accepted = a; newest = tt })
    poll_lem (read ∷ reads) w a =
        let w' = read_once truncate watch read w in
        let g = read_once-Guarded read w in
        let (grown, c) = poll_lem reads w' (g.accepted a) in
        (
          omega (arith, g.grown, grown),
          record {
            accepted = c.accepted;
            newest = (
              raise w'.last_version (poll truncate watch reads w').last_version read grown g.seen,
              c.newest,
            );
          },
        )

    -- A watcher that starts anew and makes any reads, whatever they answer: the documents that it
    -- hands to its applier have numeric versions that grow strictly, from above 0 up to the
    -- version that the guard holds at the end; and no document that was read has a version above it.
    pub poll-Converged :
        (reads : List (Result F (Option Fields))) (s : S)
        → Converged reads (poll truncate watch reads (new_watcher (s, [])))
    poll-Converged reads s = (poll_lem reads (new_watcher (s, [])) refl).1
