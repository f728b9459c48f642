-- ===== src/Role/Daemon/Mask.antt =====
-- role.go: `maskURI`, by which the credentials of a MongoDB URI do not reach the log, on the code
-- points of the URI.
use ta2mongo.Prelude.{
  ℕ, ◌≡◌, refl, ap, ◌∙◌, false, ◌&&◌, Option, none, some, List, [], ◌∷◌, ◌++◌, nat_eq, codes,
  if◌then◌else◌,
}

abbrev pub Text : Type 0
Text = List ℕ

-- The text up to "://" and including it, and the text behind.
abbrev pub in_front : ℕ → Option (Text × Text) → Option (Text × Text)
in_front c none = none
in_front c (some (head, rest)) = some (c ∷ head, rest)

unfoldable pub split_scheme : Text → Option (Text × Text)
split_scheme (c ∷ d ∷ e ∷ s) =
    let later = in_front c (split_scheme (d ∷ e ∷ s)) in
    if nat_eq c b':' && (nat_eq d b'/' && nat_eq e b'/') then some (c ∷ d ∷ e ∷ [], s) else later
split_scheme _ = none

-- The text behind the first '@', if there is one.
unfoldable pub after_at : Text → Option Text
after_at [] = none
after_at (c ∷ s) = let later = after_at s in if nat_eq c b'@' then some s else later

abbrev pub hidden : Text → Text → Option Text → Text
hidden uri head none = uri
hidden uri head (some host) = head ++ (codes "***:***@" ++ host)

abbrev pub masked : Text → Option (Text × Text) → Text
masked uri none = uri
masked uri (some (head, rest)) = hidden uri head (after_at rest)

unfoldable pub mask_uri : Text → Text
unfolding split_scheme after_at
mask_uri uri = masked uri (split_scheme uri)

-- No code point of the text is this one.
abbrev pub Lacks : ℕ → Text → Type 0
Lacks x [] = Unit
Lacks x (c ∷ s) = (nat_eq c x ≡ false) × Lacks x s

after_at-Lacks :
    (credentials host : Text)
    → Lacks b'@' credentials
    → after_at (credentials ++ b'@' ∷ host) ≡ some host
unfolding after_at
after_at-Lacks [] host h = refl
after_at-Lacks (c ∷ s) host h = rw h.0 (after_at-Lacks s host h.1)

split_scheme-Lacks :
    (scheme rest : Text)
    → Lacks b':' scheme
    → split_scheme (scheme ++ (codes "://" ++ rest)) ≡ some (scheme ++ codes "://", rest)
unfolding split_scheme
split_scheme-Lacks [] rest h = refl
split_scheme-Lacks (c ∷ []) rest h = rw h.0
split_scheme-Lacks (c ∷ d ∷ []) rest h = rw (h.0, h.1.0)
split_scheme-Lacks (c ∷ d ∷ e ∷ s) rest h =
    rw h.0 (ap (in_front c) (split_scheme-Lacks (d ∷ e ∷ s) rest h.1))

-- What is logged of a URI with credentials does not depend on them: the scheme and what follows the
-- credentials are kept, and the credentials are replaced by a fixed text. The scheme has no
-- colon, and the credentials have no '@', which a URI has to encode.
pub mask_uri-hides :
    (scheme credentials host : Text)
    → Lacks b':' scheme
    → Lacks b'@' credentials
    → mask_uri (scheme ++ (codes "://" ++ (credentials ++ b'@' ∷ host)))
      ≡ (scheme ++ codes "://") ++ (codes "***:***@" ++ host)
unfolding mask_uri
mask_uri-hides scheme credentials host h k =
    let rest = credentials ++ b'@' ∷ host in
    let uri = scheme ++ (codes "://" ++ rest) in
    ap (masked uri) (split_scheme-Lacks scheme rest h)
    ∙ ap (hidden uri (scheme ++ codes "://")) (after_at-Lacks credentials host k)
