-- ===== src/Tailer/Discover/Found.antt =====
-- `discoverFiles` returns each file that a pattern matches, once.
use ta2mongo.Prelude.{◌≡◌, String, Bool, false, ◌&&◌, not, List, [], ◌∷◌, ◌==◌, any}
use ta2mongo.Tailer.Segment.{Text}
use ta2mongo.Tailer.Followed.{contains}
use ta2mongo.Tailer.Discover.{Entry, nil, glob_base_dir, is_match}

-- No path occurs twice.
abbrev pub IsDistinct : List String → Type 0
IsDistinct [] = Unit
IsDistinct (p ∷ ps) = (contains p ps ≡ false) × IsDistinct ps

module _ (root : Text) where
  -- The walk of a pattern visits an accessible file of this path that the pattern matches.
  abbrev pub has_match : String → Text → List Entry → Bool
  has_match path pattern entries =
      any (λ entry. is_match root pattern entry && entry.path == path) entries

  module _ (walk : Text → List Entry) where
    -- Some pattern that is not empty matches an accessible file of this path below its base.
    abbrev pub is_wanted : String → List Text → Bool
    is_wanted path patterns =
        any (λ p. not (nil p) && has_match path p (walk (glob_base_dir root p))) patterns
