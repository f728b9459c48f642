-- ===== src/Cfgsync/Watcher/Newest.antt =====
-- What a watcher of the filter has live: that of the newest document.
use ta2mongo.Prelude.{
  ℕ, ◌≡◌, refl, ◌∙◌, true, false, Option, none, some, List, [], ◌∷◌, Result, ok, err, arith, All,
  Option-cases, inl, inr,
}
use ta2mongo.Prelude.Int.{ℤ, ◌≤ℤ◌, ◌<ℤ◌, leb_ℤ}
use ta2mongo.Value.{Fields, IsMap, get, Value}
use ta2mongo.Filter.{ExprLang, Filter}
use ta2mongo.Cfgsync.Document.{subtree_filter, doc_version}
use ta2mongo.Cfgsync.Registry.{Live, apply}
use ta2mongo.Cfgsync.Registry.Filters.{filters, compiled, apply-live}
use ta2mongo.Cfgsync.Watcher.{Watcher, accept, observe, read_once, poll}

module _ (truncate : ℕ → ℤ) {E S : Type 0} (f : Fields → S → Option E × S) where
  accepted :
      (doc : Fields) (w : Watcher S)
      → let w' = (accept truncate (some f) doc w).1 in
        (w'.last_version ≡ w.last_version) × (w'.live ≡ (f doc w.live).1)
  unfolding accept
  accepted doc w = elim (Option-cases (f doc w.live).0) [
    | inl h ↦ rw (accept, h) (refl, refl)
    | inr (e, h) ↦ rw (accept, h) (refl, refl)
  ]

  -- A read has no document of a version above `v`.
  abbrev pub IsStale : {F : Type 0} → ℤ → Result F (Option Fields) → Type 0
  IsStale v (err e) = Unit
  IsStale v (ok none) = Unit
  IsStale v (ok (some doc)) = (u : ℤ) → doc_version truncate doc ≡ some u → u ≤ℤ v

  -- A document of a version above the guard's.
  read_once-new :
      (F : Type 0) (doc : Fields) (v : ℤ) (w : Watcher S)
      → doc_version truncate doc ≡ some v
      → w.last_version <ℤ v
      → let read : Result F (Option Fields) = ok (some doc) in
        let w' = read_once truncate (some f) read w in
        (w'.last_version ≡ v) × (w'.live ≡ (f doc w.live).1)
  unfolding read_once observe
  read_once-new F doc v w e lt =
      let new : leb_ℤ v w.last_version ≡ false = ground (arith, lt) in
      rw (read_once, observe, e, new) (accepted doc (record w { last_version = v }))

  module _ {F : Type 0} where
    read_once-stale :
        (read : Result F (Option Fields)) (w : Watcher S)
        → IsStale w.last_version read
        → read_once truncate (some f) read w ≡ w
    unfolding read_once observe
    read_once-stale (err e) w h = refl
    read_once-stale (ok none) w h = refl
    read_once-stale (ok (some doc)) w h = elim (Option-cases (doc_version truncate doc)) [
      | inl e ↦ rw (read_once, observe, e) refl
      | inr (u, e) ↦
          let k : u ≤ℤ w.last_version = h u e in
          let old : leb_ℤ u w.last_version ≡ true = ground (arith, k) in
          rw (read_once, observe, e, old) refl
    ]

    poll-stale :
        (reads : List (Result F (Option Fields))) (w : Watcher S)
        → All (IsStale w.last_version) reads
        → poll truncate (some f) reads w ≡ w
    unfolding poll
    poll-stale [] w h = refl
    poll-stale (read ∷ reads) w h = rw (read_once-stale read w h.0) (poll-stale reads w h.1)

    poll-new :
        (doc : Fields) (v : ℤ) (reads : List (Result F (Option Fields))) (w : Watcher S)
        → doc_version truncate doc ≡ some v
        → w.last_version <ℤ v
        → All (IsStale v) reads
        → let w' = poll truncate (some f) (ok (some doc) ∷ reads) w in
          (w'.last_version ≡ v) × (w'.live ≡ (f doc w.live).1)
    unfolding poll
    poll-new doc v reads w e lt h =
        let read : Result F (Option Fields) = ok (some doc) in
        let w1 = read_once truncate (some f) read w in
        let (same, live) = read_once-new F doc v w e lt in
        rw (poll-stale reads w1 (rw same h)) (same, live)

-- A watcher of the filter reads a document in which no key stands twice, of a version above that of
-- its guard, and whose filter subtree compiles, and then makes any reads that answer no version
-- above that one, errors, missing documents, replays and older documents among them: the filter of
-- that document is live at the end, whatever filter was live before.
pub poll-newest_live :
    (truncate : ℕ → ℤ) (lang : ExprLang) {F : Type 0} (doc : Fields) (v : ℤ) (val : Value)
    (flt : Filter lang.Program) (reads : List (Result F (Option Fields))) (w : Watcher (Live lang))
    → IsMap doc
    → doc_version truncate doc ≡ some v
    → w.last_version <ℤ v
    → get subtree_filter doc ≡ some val
    → compiled lang val ≡ ok flt
    → All (IsStale truncate (apply (filters lang)) v) reads
    → (poll truncate (some (apply (filters lang))) (ok (some doc) ∷ reads) w).live ≡ some flt
poll-newest_live truncate lang doc v val flt reads w m e lt sub built stale =
    (poll-new truncate (apply (filters lang)) doc v reads w e lt stale).1
    ∙ apply-live lang doc w.live m
    ∙ rw (sub, built) refl
