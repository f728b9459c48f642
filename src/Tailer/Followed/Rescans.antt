-- ===== src/Tailer/Followed/Rescans.antt =====
-- Each path has one goroutine at most, and the files that are followed come to be those found.
use ta2mongo.Prelude.{
  ◌≡◌, refl, String, Bool, true, false, ◌||◌, not, Option, none, some, List, [], ◌∷◌, ◌==◌, eq_iff,
  or_else, arith, Bool-cases, Option-cases, inl, inr, if◌then◌else◌,
}
use ta2mongo.Tailer.Followed.{
  Tailed, lookup, contains, reap_missing, start_file, start_files, scan_and_tail, finish_file, Step,
  rescan, finish, Reach, start, next,
}

-- No path has two entries.
abbrev pub IsDistinct : Tailed → Type 0
IsDistinct [] = Unit
IsDistinct ((p, cancelled) ∷ tailed) = (lookup p tailed ≡ none) × IsDistinct tailed

abbrev reaped : Bool → Option Bool → Option Bool
reaped present none = none
reaped present (some cancelled) = some (cancelled || not present)

lookup-reap_missing :
    (path : String) (found : List String) (tailed : Tailed)
    → lookup path (reap_missing found tailed) ≡ reaped (contains path found) (lookup path tailed)
unfolding lookup reap_missing
lookup-reap_missing path found [] = refl
lookup-reap_missing path found ((p, cancelled) ∷ tailed) =
    ground (arith, eq_iff p path, lookup-reap_missing path found tailed)

lookup-start_file :
    (path q : String) (tailed : Tailed)
    → lookup path (start_file q tailed)
      ≡ (if q == path then or_else (lookup path tailed) (some false) else lookup path tailed)
unfolding lookup start_file
lookup-start_file path q tailed = ground (arith, eq_iff q path)

lookup-start_files :
    (path : String) (found : List String) (tailed : Tailed)
    → lookup path (start_files found tailed) ≡ (
        if contains path found
        then or_else (lookup path tailed) (some false)
        else lookup path tailed)
unfolding start_files contains
lookup-start_files path [] tailed = refl
lookup-start_files path (q ∷ found) tailed =
    ground
      (arith, lookup-start_files path found (start_file q tailed), lookup-start_file path q tailed)

-- After a rescan a path that was found has its entry, new or as before, and any other that has one
-- is cancelled.
pub lookup-scan_and_tail :
    (path : String) (found : List String) (tailed : Tailed)
    → lookup path (scan_and_tail found tailed) ≡ (
        if contains path found
        then or_else (lookup path tailed) (some false)
        else reaped false (lookup path tailed))
unfolding scan_and_tail
lookup-scan_and_tail path found tailed = ground (
  arith,
  lookup-start_files path found (reap_missing found tailed),
  lookup-reap_missing path found tailed,
)

lookup-finish_file :
    (path q : String) (tailed : Tailed)
    → lookup path (finish_file q tailed) ≡ (if q == path then none else lookup path tailed)
unfolding lookup finish_file
lookup-finish_file path q [] = ground arith
lookup-finish_file path q ((p, cancelled) ∷ tailed) =
    ground (arith, eq_iff p path, eq_iff q path, eq_iff p q, lookup-finish_file path q tailed)

reap_missing-IsDistinct :
    (found : List String) (tailed : Tailed)
    → IsDistinct tailed
    → IsDistinct (reap_missing found tailed)
unfolding reap_missing
reap_missing-IsDistinct found [] d = tt
reap_missing-IsDistinct found ((p, cancelled) ∷ tailed) d = (
  ground (arith, lookup-reap_missing p found tailed, d.0),
  reap_missing-IsDistinct found tailed d.1,
)

start_file-IsDistinct :
    (path : String) (tailed : Tailed) → IsDistinct tailed → IsDistinct (start_file path tailed)
unfolding start_file
start_file-IsDistinct path tailed d = elim (Option-cases (lookup path tailed)) [
  | inl e ↦ rw e (e, d)
  | inr (c, e) ↦ rw e d
]

start_files-IsDistinct :
    (found : List String) (tailed : Tailed)
    → IsDistinct tailed
    → IsDistinct (start_files found tailed)
unfolding start_files
start_files-IsDistinct [] tailed d = d
start_files-IsDistinct (path ∷ found) tailed d =
    start_files-IsDistinct found (start_file path tailed) (start_file-IsDistinct path tailed d)

finish_file-IsDistinct :
    (path : String) (tailed : Tailed) → IsDistinct tailed → IsDistinct (finish_file path tailed)
unfolding finish_file
finish_file-IsDistinct path [] d = tt
finish_file-IsDistinct path ((p, cancelled) ∷ tailed) d = elim (Bool-cases (p == path)) [
  | inl e ↦ rw e (finish_file-IsDistinct path tailed d.1)
  | inr e ↦ rw e (
    ground (arith, lookup-finish_file p path tailed, d.0),
    finish_file-IsDistinct path tailed d.1,
  )
]

Step-IsDistinct : {s t : Tailed} → Step s t → IsDistinct s → IsDistinct t
unfolding scan_and_tail
Step-IsDistinct (rescan s found) d =
    start_files-IsDistinct found (reap_missing found s) (reap_missing-IsDistinct found s d)
Step-IsDistinct (finish s path) d = finish_file-IsDistinct path s d

-- Whatever rescans and ends of goroutines came before, no path is tailed twice.
pub Reach-IsDistinct : {tailed : Tailed} → Reach tailed → IsDistinct tailed
Reach-IsDistinct start = tt
Reach-IsDistinct (next r step) = Step-IsDistinct step (Reach-IsDistinct r)

-- The goroutines of the cancelled entries of a map end, in any order, and no other does.
abbrev pub end_cancelled : Tailed → Tailed → Tailed
end_cancelled [] tailed = tailed
end_cancelled ((p, cancelled) ∷ entries) tailed =
    end_cancelled entries (if cancelled then finish_file p tailed else tailed)

abbrev is_cancelled : Option Bool → Bool
is_cancelled none = false
is_cancelled (some cancelled) = cancelled

lookup-end_cancelled :
    (path : String) (entries tailed : Tailed)
    → IsDistinct entries
    → lookup path (end_cancelled entries tailed)
      ≡ (if is_cancelled (lookup path entries) then none else lookup path tailed)
unfolding lookup
lookup-end_cancelled path [] tailed d = refl
lookup-end_cancelled path ((p, true) ∷ entries) tailed d = ground (
  arith,
  eq_iff p path,
  lookup-end_cancelled path entries (finish_file p tailed) d.1,
  lookup-finish_file path p tailed,
  d.0,
)
lookup-end_cancelled path ((p, false) ∷ entries) tailed d =
    ground (arith, eq_iff p path, lookup-end_cancelled path entries tailed d.1)

-- A file that is gone is released within one rescan, and one that is there is followed: from any
-- state that rescans and ends of goroutines lead to, a rescan that finds some files, the end of
-- the goroutines that are cancelled by then, and a second rescan that finds the same files leave
-- an entry for exactly the files found, and none of them is cancelled.
pub scan_and_tail-settles :
    (found : List String) {tailed : Tailed}
    → Reach tailed
    → (path : String)
    → let scanned = scan_and_tail found tailed in
      lookup path (scan_and_tail found (end_cancelled scanned scanned))
      ≡ (if contains path found then some false else none)
scan_and_tail-settles found {tailed} r path =
    let scanned = scan_and_tail found tailed in
    ground (
      arith,
      lookup-scan_and_tail path found (end_cancelled scanned scanned),
      lookup-end_cancelled path scanned scanned (Reach-IsDistinct (next r (rescan tailed found))),
      lookup-scan_and_tail path found tailed,
    )
