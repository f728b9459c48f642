-- ===== src/Tailer/Glob.antt =====
-- tailer.go: `globMatch` and `doGlobMatch`, the globs whose `**` runs over any number of
-- directories.
pub mod Matching
use ta2mongo.Prelude.{Bool, true, false, ◌&&◌, List, [], ◌∷◌, nat_eq, if◌then◌else◌}
use ta2mongo.Tailer.Segment.{Text, match_segment, split, any_suffix}

-- seg == "**"
unfoldable pub is_deep : Text → Bool
is_deep (c ∷ d ∷ []) = nat_eq c b'*' && nat_eq d b'*'
is_deep _ = false

abbrev pub is_empty : List Text → Bool
is_empty [] = true
is_empty (x ∷ xs) = false

module _ (windows : Bool) where
  -- One round of the loop with a segment that is not `**`; `rest` is what the next rounds do.
  unfoldable pub one_level : Text → (List Text → Bool) → List Text → Bool
  one_level seg rest [] = false
  one_level seg rest (name ∷ names) = match_segment windows seg name && rest names

  -- The loop, and its part after a `**`: more of them are skipped, and what follows is tried at
  -- every depth.
  unfoldable mutual
    unfolding is_deep one_level any_suffix

    pub do_glob_match : List Text → List Text → Bool
    do_glob_match [] names = is_empty names
    do_glob_match (seg ∷ pattern) names =
        let deep = after_deep pattern names in
        if is_deep seg then deep else one_level seg (do_glob_match pattern) names

    pub after_deep : List Text → List Text → Bool
    after_deep [] names = true
    after_deep (seg ∷ pattern) names =
        let deep = after_deep pattern names in
        if is_deep seg
        then deep
        else any_suffix (λ suffix. one_level seg (do_glob_match pattern) suffix) names

  unfoldable pub glob_match : Text → Text → Bool
  unfolding do_glob_match split
  glob_match pattern name = do_glob_match (split pattern) (split name)
