-- ===== src/Tailer/Discover.antt =====
-- tailer.go as built for Linux: `globBaseDir`, which says where to look for the files of a pattern,
-- and `discoverFiles`. What `filepath.WalkDir` visits below a directory is a parameter.
pub mod Found
use ta2mongo.Prelude.{
  ℕ, String, Bool, true, false, ◌&&◌, ◌||◌, not, Option, none, some, List, [], ◌∷◌, ◌++◌, codes,
  nat_eq, drop, if◌then◌else◌,
}
use ta2mongo.Tailer.Segment.{Text, split}
use ta2mongo.Tailer.Glob.{glob_match}
use ta2mongo.Tailer.Followed.{contains}
use ta2mongo.Tailer.Paths.{slash, backslash, to_native_path, normalize_path}

unfoldable pub is_separator : ℕ → Bool
is_separator c = nat_eq c slash || nat_eq c backslash

unfoldable pub is_meta : ℕ → Bool
is_meta c = nat_eq c b'*' || (nat_eq c b'?' || nat_eq c b'[')

-- strings.HasPrefix(s, "./") || strings.HasPrefix(s, `.\\`)
unfoldable pub dot_prefixed : Text → Bool
unfolding is_separator
dot_prefixed (c ∷ d ∷ s) = nat_eq c b'.' && is_separator d
dot_prefixed s = false

abbrev pub in_front : ℕ → Option Text → Option Text
in_front c none = none
in_front c (some p) = some (c ∷ p)

-- scan[:idx] for idx = strings.IndexAny(scan, "*?["), none if there is no such character
unfoldable pub before_meta : Text → Option Text
unfolding is_meta
before_meta [] = none
before_meta (c ∷ s) = let rest = in_front c (before_meta s) in if is_meta c then some [] else rest

-- prefix[:lastSep] for lastSep = strings.LastIndexAny(prefix, `/\\`)
unfoldable pub before_last_separator : Text → Option Text
unfolding is_separator
before_last_separator [] = none
before_last_separator (c ∷ s) = elim (before_last_separator s) [
  | some p ↦ some (c ∷ p)
  | none ↦ if is_separator c then some [] else none
]

abbrev pub nil : Text → Bool
nil [] = true
nil (c ∷ s) = false

-- strings.TrimRight(s, `/\\`)
unfoldable pub trim_right : Text → Text
unfolding is_separator
trim_right [] = []
trim_right (c ∷ s) = let t = trim_right s in if nil t && is_separator c then [] else c ∷ t

-- filepath.Clean on the segments of a path, with those that it keeps so far, the last one first
abbrev pub is_dots : Text → Bool
is_dots (c ∷ d ∷ []) = nat_eq c b'.' && nat_eq d b'.'
is_dots s = false

abbrev pub is_dot : Text → Bool
is_dot (c ∷ []) = nat_eq c b'.'
is_dot s = false

unfoldable pub go_up : Bool → List Text → List Text
go_up rooted [] = if rooted then [] else (b'.' ∷ b'.' ∷ []) ∷ []
go_up rooted (top ∷ kept) = if is_dots top then (b'.' ∷ b'.' ∷ []) ∷ top ∷ kept else kept

unfoldable pub clean_segments : Bool → List Text → List Text → List Text
unfolding go_up
clean_segments rooted kept [] = kept
clean_segments rooted kept (seg ∷ segs) =
    clean_segments rooted
      (if nil seg || is_dot seg
        then kept
        else if is_dots seg
        then go_up rooted kept
        else seg ∷ kept)
      segs

abbrev pub join_reversed : List Text → Text → Text
join_reversed [] tail = tail
join_reversed (seg ∷ segs) [] = join_reversed segs seg
join_reversed (seg ∷ segs) (c ∷ tail) = join_reversed segs (seg ++ slash ∷ c ∷ tail)

abbrev pub is_rooted : Text → Bool
is_rooted [] = false
is_rooted (c ∷ s) = nat_eq c slash

abbrev pub or_dot : Text → Text
or_dot [] = b'.' ∷ []
or_dot (c ∷ s) = c ∷ s

unfoldable pub clean : Text → Text
unfolding clean_segments split
clean path =
    let kept = join_reversed (clean_segments (is_rooted path) [] (split path)) [] in
    if is_rooted path then slash ∷ kept else or_dot kept

-- path[:i+1] for the last separator i, and filepath.Dir
unfoldable pub up_to_slash : Text → Text
up_to_slash [] = []
up_to_slash (c ∷ s) = let t = up_to_slash s in if nil t && not (nat_eq c slash) then [] else c ∷ t

unfoldable pub dir : Text → Text
unfolding clean up_to_slash
dir path = clean (up_to_slash path)

-- A file or directory that the walk visits; it may not be accessible.
pub record Entry : Type 0 where
  pub path : String
  pub accessible : Bool
  pub is_dir : Bool

module _ (root : Text) where
  -- Without a metacharacter the pattern is the path of a file.
  unfoldable pub literal_base : Text → Text
  unfolding trim_right dir to_native_path
  literal_base full =
      let trimmed = trim_right full in
      if nil trimmed || is_dot trimmed then b'.' ∷ [] else dir (to_native_path root false trimmed)

  unfoldable pub base_of : Text → Text → Text
  unfolding before_meta before_last_separator literal_base to_native_path
  base_of dot_prefix scan = elim (before_meta scan) [
    | none ↦ literal_base (dot_prefix ++ scan)
    | some prefix ↦ elim (before_last_separator prefix) [
      | none ↦ b'.' ∷ []
      | some parent ↦
          let dir = dot_prefix ++ parent in
          if nil dir then b'.' ∷ [] else to_native_path root false dir
    ]
  ]

  abbrev pub first_two : Text → Text
  first_two (c ∷ d ∷ s) = c ∷ d ∷ []
  first_two s = s

  unfoldable pub glob_base_dir : Text → Text
  unfolding dot_prefixed base_of
  glob_base_dir pattern =
      if dot_prefixed pattern
      then base_of (first_two pattern) (drop 2 pattern)
      else base_of [] pattern

  unfoldable pub match_pattern : Text → Text
  unfolding dot_prefixed normalize_path
  match_pattern pattern =
      normalize_path root false (if dot_prefixed pattern then drop 2 pattern else pattern)

  -- Whether the walk's callback takes the file.
  unfoldable pub is_match : Text → Entry → Bool
  unfolding match_pattern normalize_path glob_match
  is_match pattern entry =
      entry.accessible
      && (not entry.is_dir
          && glob_match false (match_pattern pattern)
              (normalize_path root false (codes entry.path)))

  -- `seen` holds the paths of `result`.
  unfoldable pub add_match : Text → Entry → List String → List String
  unfolding is_match contains
  add_match pattern entry result =
      if is_match pattern entry && not (contains entry.path result)
      then result ++ entry.path ∷ []
      else result

  unfoldable pub visit : Text → List Entry → List String → List String
  unfolding add_match
  visit pattern [] result = result
  visit pattern (entry ∷ entries) result = visit pattern entries (add_match pattern entry result)

  module _ (walk : Text → List Entry) where
    unfoldable pub discover_from : List Text → List String → List String
    unfolding visit glob_base_dir
    discover_from [] result = result
    discover_from (pattern ∷ patterns) result =
        discover_from patterns
          (if nil pattern then result else visit pattern (walk (glob_base_dir pattern)) result)

    unfoldable pub discover_files : List Text → List String
    unfolding discover_from
    discover_files patterns = discover_from patterns []
