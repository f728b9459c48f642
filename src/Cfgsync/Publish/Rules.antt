-- ===== src/Cfgsync/Publish/Rules.antt =====
-- The union of rules keeps what is stored and adds what is new, once.
use mathlib.Core.List.{append-nil, append_assoc}
use mathlib.Core.Path.{subst}
use ta2mongo.Prelude.{
  ◌≡◌, refl, sym, ◌∙◌, String, Bool, true, false, ◌||◌, List, [], ◌∷◌, ◌++◌, any, All, arith,
  Bool-cases, inl, inr, ◌==◌, eq_refl, eq_iff,
}
use ta2mongo.Cfgsync.Publish.{union_loop, union_rules}

-- A rule is in a list.
abbrev pub has_rule : String → List String → Bool
has_rule r l = any (λ s. s == r) l

-- No rule stands twice.
abbrev pub IsDistinct : List String → Type 0
IsDistinct [] = Unit
IsDistinct (r ∷ rs) = (has_rule r rs ≡ false) × IsDistinct rs

-- What the union of two lists of rules is: the stored rules, and then rules that are fresh and not
-- stored, none of them twice; and every fresh rule is in it.
pub record IsUnion (stored fresh out : List String) : Type 0 where
  pub extra : List String
  pub prefix : out ≡ stored ++ extra
  pub new : All (λ r. (has_rule r fresh ≡ true) × (has_rule r stored ≡ false)) extra
  pub distinct : IsDistinct extra
  pub complete : All (λ r. has_rule r out ≡ true) fresh

-- The extra rules that the loop adds.
extras : List String → List String → List String
extras seen [] = []
extras seen (r ∷ fresh) =
    let skipped = extras seen fresh in
    let added = r ∷ extras (r ∷ seen) fresh in
    elim (has_rule r seen) [ true ↦ skipped | false ↦ added ]

union_loop-extras :
    (seen out fresh : List String) → union_loop seen out fresh ≡ out ++ extras seen fresh
unfolding union_loop extras
union_loop-extras seen out [] = sym (append-nil out)
union_loop-extras seen out (r ∷ fresh) = elim (Bool-cases (has_rule r seen)) [
  | inl h ↦ rw (extras, h) (union_loop-extras seen out fresh)
  | inr h ↦
      rw (extras, h)
        (union_loop-extras (r ∷ seen) (out ++ r ∷ []) fresh
          ∙ append_assoc out (r ∷ []) (extras (r ∷ seen) fresh))
]

has_rule-append :
    (r : String) (xs ys : List String) → has_rule r (xs ++ ys) ≡ has_rule r xs || has_rule r ys
has_rule-append r [] ys = refl
has_rule-append r (x ∷ xs) ys = ground (arith, has_rule-append r xs ys)

New : List String → List String → String → Type 0
New seen fresh r = (has_rule r fresh ≡ true) × (has_rule r seen ≡ false)

module _ {P Q : String → Type 0} (f : (r : String) → P r → Q r) where
  map_All : (l : List String) → All P l → All Q l
  map_All [] h = tt
  map_All (r ∷ l) h = (f r h.0, map_All l h.1)

extras-New : (seen fresh : List String) → All (New seen fresh) (extras seen fresh)
unfolding extras New
extras-New seen [] = tt
extras-New seen (r ∷ fresh) =
    let wider : (e : String) → New seen fresh e → New seen (r ∷ fresh) e = λ e h. ground arith in
    let looser : (e : String) → New (r ∷ seen) fresh e → New seen (r ∷ fresh) e =
      λ e h. ground arith in
    elim (Bool-cases (has_rule r seen)) [
      | inl h ↦ rw (extras, h) (map_All wider (extras seen fresh) (extras-New seen fresh))
      | inr h ↦
          rw (extras, h)
            (
              (ground (arith, eq_refl r), h),
              map_All looser (extras (r ∷ seen) fresh) (extras-New (r ∷ seen) fresh),
            )
    ]

apart :
    (r : String) (seen fresh l : List String) → All (New (r ∷ seen) fresh) l → has_rule r l ≡ false
unfolding New
apart r seen fresh [] h = refl
apart r seen fresh (e ∷ l) h =
    ground (arith, h.0.1, apart r seen fresh l h.1, eq_iff r e, eq_iff e r)

extras-IsDistinct : (seen fresh : List String) → IsDistinct (extras seen fresh)
unfolding extras
extras-IsDistinct seen [] = tt
extras-IsDistinct seen (r ∷ fresh) = elim (Bool-cases (has_rule r seen)) [
  | inl h ↦ rw (extras, h) (extras-IsDistinct seen fresh)
  | inr h ↦
      rw (extras, h)
        (
          apart r seen fresh (extras (r ∷ seen) fresh) (extras-New (r ∷ seen) fresh),
          extras-IsDistinct (r ∷ seen) fresh,
        )
]

extras_old :
    (seen fresh : List String) (r : String)
    → has_rule r seen ≡ true
    → extras seen (r ∷ fresh) ≡ extras seen fresh
unfolding extras
extras_old seen fresh r h = rw (extras, h) refl

extras_new :
    (seen fresh : List String) (r : String)
    → has_rule r seen ≡ false
    → extras seen (r ∷ fresh) ≡ r ∷ extras (r ∷ seen) fresh
unfolding extras
extras_new seen fresh r h = rw (extras, h) refl

covered :
    (seen fresh : List String)
    → All (λ r. has_rule r seen || has_rule r (extras seen fresh) ≡ true) fresh
covered seen [] = tt
covered seen (r ∷ fresh) =
    let move : (e : String)
        → has_rule e (r ∷ seen) || has_rule e (extras (r ∷ seen) fresh) ≡ true
        → has_rule e seen || has_rule e (r ∷ extras (r ∷ seen) fresh) ≡ true =
      λ e h. ground arith in
    let goal : List String → Type 0 =
      λ x. All (λ e. has_rule e seen || has_rule e x ≡ true) (r ∷ fresh) in
    elim (Bool-cases (has_rule r seen)) [
      | inl h ↦ subst goal (sym (extras_old seen fresh r h)) (ground arith, covered seen fresh)
      | inr h ↦
          subst goal (sym (extras_new seen fresh r h))
            (ground (arith, eq_refl r), map_All move fresh (covered (r ∷ seen) fresh))
    ]

-- The union of two lists of rules is the stored rules, in their order, and after them fresh rules
-- that are not stored, none twice; and it has every fresh rule.
pub union_rules-IsUnion :
    (stored fresh : List String) → IsUnion stored fresh (union_rules stored fresh)
unfolding union_rules New
union_rules-IsUnion stored fresh =
    let extra = extras stored fresh in
    let inside : (r : String)
        → has_rule r stored || has_rule r extra ≡ true
        → has_rule r (stored ++ extra) ≡ true =
      λ r h. has_rule-append r stored extra ∙ h in
    rw (union_loop-extras stored stored fresh) (record {
      extra = extra;
      prefix = refl;
      new = extras-New stored fresh;
      distinct = extras-IsDistinct stored fresh;
      complete = map_All inside fresh (covered stored fresh);
    })
