-- ===== src/Tailer/Paths/Conversions.antt =====
-- A path with forward slashes survives the way to Windows and back.
use ta2mongo.Prelude.{
  ℕ, ◌≡◌, refl, sym, true, false, [], ◌∷◌, arith, ltb, nat_eq, Bool-cases, inl, inr,
}
use ta2mongo.Tailer.Segment.{Text}
use ta2mongo.Tailer.Paths.{
  slash, backslash, is_upper, is_lower, to_lower, to_upper, replace_all, has_drive, drive_letter,
  to_windows_path, normalize_windows_path,
}

-- No byte of the path is a backslash.
abbrev pub HasNoBackslash : Text → Type 0
HasNoBackslash [] = Unit
HasNoBackslash (c ∷ s) = (nat_eq c backslash ≡ false) × HasNoBackslash s

replace_back :
    (s : Text) → HasNoBackslash s → replace_all backslash slash (replace_all slash backslash s) ≡ s
unfolding replace_all
replace_back [] h = refl
replace_back (c ∷ s) h = ground (arith, h.0, replace_back s h.1)

replace_none : (s : Text) → HasNoBackslash s → replace_all backslash slash s ≡ s
unfolding replace_all
replace_none [] h = refl
replace_none (c ∷ s) h = ground (arith, h.0, replace_none s h.1)

-- The second character of the path, if it has one, is no capital letter.
abbrev pub DriveIsLower : Text → Type 0
DriveIsLower (a ∷ c ∷ rest) = is_upper c ≡ false
DriveIsLower path = Unit

lower-upper : (c : ℕ) → is_upper c ≡ false → to_lower (to_upper c) ≡ c
unfolding is_upper is_lower to_lower to_upper
lower-upper c h = ground arith

drive_letter-parts :
    (a c b : ℕ) (rest : Text)
    → drive_letter (a ∷ c ∷ b ∷ rest) ≡ true
    → (a ≡ slash) × (b ≡ slash) × (ltb (to_upper c) 128 ≡ true)
unfolding drive_letter is_lower is_upper to_upper
drive_letter-parts a c b rest h = (ground (arith, h), ground (arith, h), ground (arith, h))

-- A forward-slash path that is converted to Windows is found again by the normalisation: it has
-- no backslash, no colon as its second character, and no capital letter there.
pub normalize_windows_path-to_windows_path :
    (path : Text)
    → HasNoBackslash path
    → has_drive path ≡ false
    → DriveIsLower path
    → normalize_windows_path (to_windows_path path) ≡ path
unfolding normalize_windows_path to_windows_path
normalize_windows_path-to_windows_path [] h d l = refl
normalize_windows_path-to_windows_path (a ∷ []) h d l = replace_none (a ∷ []) h
normalize_windows_path-to_windows_path (a ∷ c ∷ []) h d l = rw d (replace_none (a ∷ c ∷ []) h)
normalize_windows_path-to_windows_path (a ∷ c ∷ b ∷ rest) h d l =
    elim (Bool-cases (drive_letter (a ∷ c ∷ b ∷ rest))) [
      | inl drive ↦
          let (pa, pb, below) = drive_letter-parts a c b rest drive in
          rw (drive, below, lower-upper c l, h.1.0, replace_back rest h.1.1.1)
            (λ i. sym pa i ∷ c ∷ sym pb i ∷ rest)
      | inr e ↦ rw (e, d) (replace_none (a ∷ c ∷ b ∷ rest) h)
    ]
