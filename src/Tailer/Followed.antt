-- ===== src/Tailer/Followed.antt =====
-- tailer.go: the map of the files that are tailed, `scanAndTail` with `reapMissing` and
-- `startFile`, and the end of a file's goroutine.
pub mod Rescans
use ta2mongo.Prelude.{
  ℕ, String, Bool, true, false, ◌||◌, not, Option, none, some, List, [], ◌∷◌, ◌==◌, is_some, length,
  if◌then◌else◌,
}

-- The map `tailed`: a path has an entry as long as its goroutine runs. The flag says that the cancel
-- function of the entry was called.
abbrev pub Tailed : Type 0
Tailed = List (String × Bool)

unfoldable pub lookup : String → Tailed → Option Bool
lookup path [] = none
lookup path ((p, cancelled) ∷ tailed) = if p == path then some cancelled else lookup path tailed

unfoldable pub contains : String → List String → Bool
contains path [] = false
contains path (p ∷ paths) = p == path || contains path paths

unfoldable pub tailed_count : Tailed → ℕ
tailed_count tailed = length tailed

-- Every path that was not found is cancelled; cancelling again changes nothing.
unfoldable pub reap_missing : List String → Tailed → Tailed
unfolding contains
reap_missing found [] = []
reap_missing found ((p, cancelled) ∷ tailed) =
    (p, cancelled || not (contains p found)) ∷ reap_missing found tailed

-- A path whose goroutine still runs, cancelled or not, is left alone.
unfoldable pub start_file : String → Tailed → Tailed
unfolding lookup
start_file path tailed = if is_some (lookup path tailed) then tailed else (path, false) ∷ tailed

unfoldable pub start_files : List String → Tailed → Tailed
unfolding start_file
start_files [] tailed = tailed
start_files (path ∷ found) tailed = start_files found (start_file path tailed)

-- `scanAndTail`, with the files that `discoverFiles` found
unfoldable pub scan_and_tail : List String → Tailed → Tailed
unfolding reap_missing start_files
scan_and_tail found tailed = start_files found (reap_missing found tailed)

-- The deferred clean-up of a goroutine that ends: delete(t.tailed, path)
unfoldable pub finish_file : String → Tailed → Tailed
finish_file path [] = []
finish_file path ((p, cancelled) ∷ tailed) =
    let rest = finish_file path tailed in if p == path then rest else (p, cancelled) ∷ rest

-- What can happen to the map: a rescan, or the end of the goroutine of some path.
pub data Step : Tailed → Tailed → Type 0 where
  rescan : (tailed : Tailed) (found : List String) → Step tailed (scan_and_tail found tailed)
  finish : (tailed : Tailed) (path : String) → Step tailed (finish_file path tailed)

pub data Reach : Tailed → Type 0 where
  start : Reach []
  next : {s t : Tailed} → Reach s → Step s t → Reach t
