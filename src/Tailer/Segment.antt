-- ===== src/Tailer/Segment.antt =====
-- What tailer.go uses of the standard library: `filepath.Match` on one segment of a path, and
-- `strings.Split` at the separator. A segment holds no separator, so a star runs over any code
-- points. A text is the list of its code points.
use ta2mongo.Prelude.{
  ℕ, Bool, true, false, ◌&&◌, ◌||◌, not, Option, none, some, List, [], ◌∷◌, leb, nat_eq,
  if◌then◌else◌,
}

abbrev pub Text : Type 0
Text = List ℕ

abbrev pub Ranges : Type 0
Ranges = List (ℕ × ℕ)

pub data Token : Type 0 where
  star : Token
  any_rune : Token
  literal : ℕ → Token
  class : Bool → Ranges → Token

-- Where the scan of a pattern stands: between tokens, after an escape, or in a class, of which it
-- has the negation and the ranges so far.
pub data Scan : Type 0 where
  plain : Scan
  escaped : Scan
  class_start : Scan
  lower : Bool → Ranges → Scan
  lower_escaped : Bool → Ranges → Scan
  after_lower : Bool → Ranges → ℕ → Scan
  upper : Bool → Ranges → ℕ → Scan
  upper_escaped : Bool → Ranges → ℕ → Scan

abbrev pub has_ranges : Ranges → Bool
has_ranges [] = false
has_ranges (r ∷ rs) = true

module _ {ℓ} {A : Type ℓ} where
  abbrev pub push : A → Option (List A) → Option (List A)
  push a none = none
  push a (some l) = some (a ∷ l)

-- What the scan makes of a code point: the next state, and a token if one is complete; none is
-- ErrBadPattern. Backslashes escape, but not on Windows.
module _ (windows : Bool) where
  abbrev pub is_escape : ℕ → Bool
  is_escape c = nat_eq c 92 && not windows

  -- getEsc, where a bound of a range starts
  unfoldable pub lower_bound : Bool → Ranges → ℕ → Option (Scan × Option Token)
  lower_bound negated ranges c =
      if nat_eq c b']' && has_ranges ranges
      then some (plain, some (class negated ranges))
      else if nat_eq c b'-' || nat_eq c b']'
      then none
      else if is_escape c
      then some (lower_escaped negated ranges, none)
      else some (after_lower negated ranges c, none)

  unfoldable pub scan_step : Scan → ℕ → Option (Scan × Option Token)
  unfolding lower_bound
  scan_step plain c =
      if nat_eq c b'*'
      then some (plain, some star)
      else if nat_eq c b'?'
      then some (plain, some any_rune)
      else if nat_eq c b'['
      then some (class_start, none)
      else if is_escape c
      then some (escaped, none)
      else some (plain, some (literal c))
  scan_step escaped c = some (plain, some (literal c))
  scan_step class_start c =
      if nat_eq c b'^' then some (lower true [], none) else lower_bound false [] c
  scan_step (lower negated ranges) c = lower_bound negated ranges c
  scan_step (lower_escaped negated ranges) c = some (after_lower negated ranges c, none)
  scan_step (after_lower negated ranges lo) c =
      if nat_eq c b'-'
      then some (upper negated ranges lo, none)
      else lower_bound negated ((lo, lo) ∷ ranges) c
  scan_step (upper negated ranges lo) c =
      if nat_eq c b'-' || nat_eq c b']'
      then none
      else if is_escape c
      then some (upper_escaped negated ranges lo, none)
      else some (lower negated ((lo, c) ∷ ranges), none)
  scan_step (upper_escaped negated ranges lo) c = some (lower negated ((lo, c) ∷ ranges), none)

  -- The tokens of a pattern. A pattern that ends within a class or an escape is bad.
  unfoldable pub compile : Scan → Text → Option (List Token)
  unfolding scan_step
  compile plain [] = some []
  compile s [] = none
  compile s (c ∷ cs) = elim (scan_step s c) [
    | none ↦ none
    | some (t, none) ↦ compile t cs
    | some (t, some token) ↦ push token (compile t cs)
  ]

unfoldable pub in_ranges : Ranges → ℕ → Bool
in_ranges [] c = false
in_ranges ((lo, hi) ∷ ranges) c = (leb lo c && leb c hi) || in_ranges ranges c

-- Whether a token other than a star takes a code point.
unfoldable pub accepts : Token → ℕ → Bool
unfolding in_ranges
accepts star c = false
accepts any_rune c = true
accepts (literal x) c = nat_eq x c
accepts (class negated ranges) c = if negated then not (in_ranges ranges c) else in_ranges ranges c

-- A star takes some code points, and the rest is matched after them.
unfoldable pub any_suffix {ℓ} : {A : Type ℓ} → (List A → Bool) → List A → Bool
any_suffix f [] = f []
any_suffix f (x ∷ xs) = f (x ∷ xs) || any_suffix f xs

unfoldable pub match_tokens : List Token → Text → Bool
unfolding accepts any_suffix
match_tokens [] [] = true
match_tokens [] (c ∷ cs) = false
match_tokens (star ∷ tokens) cs = any_suffix (match_tokens tokens) cs
match_tokens (token ∷ tokens) [] = false
match_tokens (token ∷ tokens) (c ∷ cs) = accepts token c && match_tokens tokens cs

-- `matched, _ := filepath.Match(seg, name)`: a bad pattern matches nothing.
unfoldable pub match_segment : Bool → Text → Text → Bool
unfolding compile match_tokens
match_segment windows pattern name = elim (compile windows plain pattern) [
  | none ↦ false
  | some tokens ↦ match_tokens tokens name
]

abbrev pub in_front : ℕ → List Text → List Text
in_front c [] = (c ∷ []) ∷ []
in_front c (seg ∷ segs) = (c ∷ seg) ∷ segs

-- strings.Split(s, "/")
unfoldable pub split : Text → List Text
split [] = [] ∷ []
split (c ∷ cs) = if nat_eq c b'/' then [] ∷ split cs else in_front c (split cs)
