-- ===== src/Tailer/Glob/Matching.antt =====
-- `globMatch` decides what its comment describes.
use ta2mongo.Prelude.{◌≡◌, refl, ◌↔◌, inl, inr, Bool, true, false, List, [], ◌∷◌, arith, Bool-cases}
use ta2mongo.Tailer.Segment.{Text, match_segment, split, any_suffix}
use ta2mongo.Tailer.Glob.{is_deep, one_level, do_glob_match, after_deep, glob_match}

-- A pattern matches a path, both cut into segments: `**` stands for no segment or for one more, and
-- any other segment for one that `filepath.Match` accepts.
pub data Matches (windows : Bool) : List Text → List Text → Type 0 where
  done : Matches windows [] []
  level :
      {seg name : Text} {pattern names : List Text}
      → is_deep seg ≡ false
      → match_segment windows seg name ≡ true
      → Matches windows pattern names
      → Matches windows (seg ∷ pattern) (name ∷ names)
  no_level :
      {seg : Text} {pattern names : List Text}
      → is_deep seg ≡ true
      → Matches windows pattern names
      → Matches windows (seg ∷ pattern) names
  more_levels :
      {seg name : Text} {pattern names : List Text}
      → is_deep seg ≡ true
      → Matches windows (seg ∷ pattern) names
      → Matches windows (seg ∷ pattern) (name ∷ names)

any_suffix_sound {ℓ κ} :
    {A : Type ℓ} (P : List A → Type κ) (f : List A → Bool)
    → ((xs : List A) → f xs ≡ true → P xs)
    → ((x : A) (xs : List A) → P xs → P (x ∷ xs))
    → (xs : List A) → any_suffix f xs ≡ true
    → P xs
unfolding any_suffix
any_suffix_sound P f here there [] h = here [] h
any_suffix_sound P f here there (x ∷ xs) h = elim (Bool-cases (f (x ∷ xs))) [
  | inl e ↦ here (x ∷ xs) e
  | inr e ↦ there x xs (any_suffix_sound P f here there xs (ground (arith, e, h)))
]

any_suffix_here {ℓ} :
    {A : Type ℓ} (f : List A → Bool) (xs : List A) → f xs ≡ true → any_suffix f xs ≡ true
unfolding any_suffix
any_suffix_here f [] h = h
any_suffix_here f (x ∷ xs) h = ground arith

any_suffix_there {ℓ} :
    {A : Type ℓ} (f : List A → Bool) (x : A) (xs : List A)
    → any_suffix f xs ≡ true
    → any_suffix f (x ∷ xs) ≡ true
unfolding any_suffix
any_suffix_there f x xs h = ground arith

module _ (windows : Bool) where
  one_level_sound :
      (seg : Text) (pattern : List Text)
      → is_deep seg ≡ false
      → ((names : List Text)
          → do_glob_match windows pattern names ≡ true
          → Matches windows pattern names)
      → (names : List Text) → one_level windows seg (do_glob_match windows pattern) names ≡ true
      → Matches windows (seg ∷ pattern) names
  unfolding one_level
  one_level_sound seg pattern shallow ih [] h = absurd (ground (arith, h))
  one_level_sound seg pattern shallow ih (name ∷ names) h =
      level shallow (ground (arith, h)) (ih names (ground (arith, h)))

  everything :
      (seg : Text) → is_deep seg ≡ true → (names : List Text) → Matches windows (seg ∷ []) names
  everything seg deep [] = no_level deep done
  everything seg deep (name ∷ names) = more_levels deep (everything seg deep names)

  mutual
    unfolding do_glob_match after_deep

    do_glob_match_sound :
        (pattern names : List Text)
        → do_glob_match windows pattern names ≡ true
        → Matches windows pattern names
    do_glob_match_sound [] [] h = done
    do_glob_match_sound [] (name ∷ names) h = absurd (ground (arith, h))
    do_glob_match_sound (seg ∷ pattern) names h = elim (Bool-cases (is_deep seg)) [
      | inl deep ↦ after_deep_sound seg deep pattern names (ground (arith, deep, h))
      | inr shallow ↦
          one_level_sound seg pattern shallow (do_glob_match_sound pattern) names
            (ground (arith, shallow, h))
    ]

    after_deep_sound :
        (d : Text)
        → is_deep d ≡ true
        → (pattern names : List Text) → after_deep windows pattern names ≡ true
        → Matches windows (d ∷ pattern) names
    after_deep_sound d deep [] names h = everything d deep names
    after_deep_sound d deep (seg ∷ pattern) names h = elim (Bool-cases (is_deep seg)) [
      | inl again ↦
          no_level deep (after_deep_sound seg again pattern names (ground (arith, again, h)))
      | inr shallow ↦
          any_suffix_sound (Matches windows (d ∷ seg ∷ pattern))
            (λ suffix. one_level windows seg (do_glob_match windows pattern) suffix)
            (λ suffix e.
              no_level deep
                (one_level_sound seg pattern shallow (do_glob_match_sound pattern) suffix e))
            (λ name rest m. more_levels deep m) names (ground (arith, shallow, h))
    ]

  after_deep_here :
      (pattern names : List Text)
      → do_glob_match windows pattern names ≡ true
      → after_deep windows pattern names ≡ true
  unfolding do_glob_match after_deep
  after_deep_here [] names h = refl
  after_deep_here (seg ∷ pattern) names h = ground (
    arith,
    h,
    any_suffix_here (λ suffix. one_level windows seg (do_glob_match windows pattern) suffix) names,
  )

  after_deep_more :
      (pattern : List Text) (name : Text) (names : List Text)
      → after_deep windows pattern names ≡ true
      → after_deep windows pattern (name ∷ names) ≡ true
  unfolding after_deep
  after_deep_more [] name names h = refl
  after_deep_more (seg ∷ pattern) name names h = ground (
    arith,
    h,
    after_deep_more pattern name names,
    any_suffix_there (λ suffix. one_level windows seg (do_glob_match windows pattern) suffix) name
        names,
  )

  do_glob_match_complete :
      {pattern names : List Text}
      → Matches windows pattern names
      → do_glob_match windows pattern names ≡ true
  unfolding do_glob_match one_level
  do_glob_match_complete done = refl
  do_glob_match_complete (level shallow accepted m) =
      rw (shallow, accepted) (do_glob_match_complete m)
  do_glob_match_complete (no_level {pattern} {names} deep m) =
      rw deep (after_deep_here pattern names (do_glob_match_complete m))
  do_glob_match_complete (more_levels {seg} {name} {pattern} {names} deep m) =
      let ih : do_glob_match windows (seg ∷ pattern) names ≡ true = do_glob_match_complete m in
      rw deep (after_deep_more pattern name names (ground (arith, deep, ih)))

  -- `globMatch` accepts a name exactly when the segments of the pattern match those of the name,
  -- where `**` stands for any number of segments, none included, and any other segment for one
  -- that `filepath.Match` accepts.
  pub glob_match-Matches :
      (pattern name : Text)
      → (glob_match windows pattern name ≡ true) ↔ Matches windows (split pattern) (split name)
  unfolding glob_match
  glob_match-Matches pattern name =
      (do_glob_match_sound (split pattern) (split name), do_glob_match_complete)
