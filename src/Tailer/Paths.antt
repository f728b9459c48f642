-- ===== src/Tailer/Paths.antt =====
-- tailer.go: the conversions between Windows and Linux paths, and `globBaseDir`, on the code points
-- of a path. A colon at the second byte stands behind one byte, which is an ASCII character.
pub mod Conversions
use ta2mongo.Prelude.{
  ℕ, ◌+◌, ◌-◌, Bool, true, false, ◌&&◌, ◌||◌, not, Option, none, some, List, [], ◌∷◌, ◌++◌, codes,
  ltb, leb, nat_eq, if◌then◌else◌,
}
use ta2mongo.Tailer.Segment.{Text, split}

abbrev pub slash : ℕ
slash = 47

abbrev pub backslash : ℕ
backslash = 92

unfoldable pub is_upper : ℕ → Bool
is_upper c = leb b'A' c && leb c b'Z'

unfoldable pub is_lower : ℕ → Bool
is_lower c = leb b'a' c && leb c b'z'

-- strings.ToLower and strings.ToUpper of one ASCII character
unfoldable pub to_lower : ℕ → ℕ
unfolding is_upper
to_lower c = if is_upper c then c + 32 else c

unfoldable pub to_upper : ℕ → ℕ
unfolding is_lower
to_upper c = if is_lower c then c - 32 else c

-- strings.ReplaceAll of one ASCII character by another
unfoldable pub replace_all : ℕ → ℕ → Text → Text
replace_all from to [] = []
replace_all from to (c ∷ s) = (if nat_eq c from then to else c) ∷ replace_all from to s

-- len(path) >= 2 && path[1] == ':'
unfoldable pub has_drive : Text → Bool
has_drive (c ∷ d ∷ rest) = ltb c 128 && nat_eq d b':'
has_drive _ = false

-- driveLetterRe matches
unfoldable pub drive_letter : Text → Bool
unfolding is_lower is_upper
drive_letter (a ∷ c ∷ b ∷ rest) = nat_eq a slash && ((is_lower c || is_upper c) && nat_eq b slash)
drive_letter _ = false

unfoldable pub to_windows_path : Text → Text
unfolding drive_letter to_upper replace_all
to_windows_path (a ∷ c ∷ b ∷ rest) =
    if drive_letter (a ∷ c ∷ b ∷ rest)
    then to_upper c ∷ b':' ∷ backslash ∷ replace_all slash backslash rest
    else a ∷ c ∷ b ∷ rest
to_windows_path path = path

unfoldable pub normalize_windows_path : Text → Text
unfolding has_drive to_lower replace_all
normalize_windows_path (c ∷ d ∷ rest) =
    replace_all backslash slash
      (if has_drive (c ∷ d ∷ rest) then slash ∷ to_lower c ∷ rest else c ∷ d ∷ rest)
normalize_windows_path path = replace_all backslash slash path

-- root == "/"
abbrev pub is_slash : Text → Bool
is_slash (c ∷ []) = nat_eq c slash
is_slash _ = false

-- The directory under which drives are mounted is linuxDriveRoot.
module _ (root : Text) where
  -- From /c/... on, where drives are not mounted at "/".
  unfoldable pub remap_drive : Text → Text
  unfolding drive_letter to_lower replace_all
  remap_drive (a ∷ c ∷ b ∷ rest) =
      if not (is_slash root) && drive_letter (a ∷ c ∷ b ∷ rest)
      then root ++ to_lower c ∷ slash ∷ rest
      else replace_all backslash slash (a ∷ c ∷ b ∷ rest)
  remap_drive path = replace_all backslash slash path

  unfoldable pub to_linux_native_path : Text → Text
  unfolding has_drive to_lower replace_all remap_drive
  to_linux_native_path (c ∷ d ∷ rest) =
      if has_drive (c ∷ d ∷ rest)
      then root ++ to_lower c ∷ replace_all backslash slash rest
      else remap_drive (c ∷ d ∷ rest)
  to_linux_native_path path = remap_drive path

  unfoldable pub to_native_path : Bool → Text → Text
  unfolding to_windows_path to_linux_native_path
  to_native_path windows path = if windows then to_windows_path path else to_linux_native_path path

  unfoldable pub normalize_path : Bool → Text → Text
  unfolding normalize_windows_path to_linux_native_path
  normalize_path windows path =
      if windows then normalize_windows_path path else to_linux_native_path path
