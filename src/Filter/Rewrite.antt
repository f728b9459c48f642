-- ===== src/Filter/Rewrite.antt =====
-- internal/parser/filter/filter.go: `rewriteHashRefs`, which prepares an expression for expr-lang.
pub mod Idempotent
use ta2mongo.Prelude.{
  ℕ, zero, suc, ◌+◌, ◌-◌, Bool, true, false, ◌&&◌, ◌||◌, List, [], ◌∷◌, ◌++◌, codes, take, ltb, leb,
  nat_eq, if◌then◌else◌,
}

-- The bytes of an expression. The loop acts on ASCII bytes alone and copies every other byte, so
-- it does the same on code points.
abbrev pub Text : Type 0
Text = List ℕ

abbrev pub backslash : ℕ
backslash = 92

unfoldable pub is_ident_start : ℕ → Bool
is_ident_start c = (leb b'a' c && leb c b'z') || (leb b'A' c && leb c b'Z') || nat_eq c b'_'

unfoldable pub is_ident_char : ℕ → Bool
unfolding is_ident_start
is_ident_char c = is_ident_start c || (leb b'0' c && leb c b'9')

-- `j - (i + 1)` after the inner loop: how many identifier bytes follow.
unfoldable pub ident_length : Text → ℕ
unfolding is_ident_char
ident_length [] = 0
ident_length (c ∷ s) = let n = ident_length s in if is_ident_char c then suc n else 0

-- isIdentStart(src[i+1])
unfoldable pub starts_ident : Text → Bool
unfolding is_ident_start
starts_ident [] = false
starts_ident (c ∷ s) = is_ident_start c

unfoldable pub is_quote : ℕ → Bool
is_quote c = nat_eq c b'"' || nat_eq c 39 || nat_eq c b'`'

-- Backslash escapes count inside double and single quotes.
unfoldable pub has_escapes : ℕ → Bool
has_escapes q = nat_eq q b'"' || nat_eq q 39

-- `inStr` and `quote`
pub data Mode : Type 0 where
  outside : Mode
  inside : ℕ → Mode

abbrev pub open_ref : Text
open_ref = codes "$env[\""

abbrev pub close_ref : Text
close_ref = codes "\"]"

-- The loop from index `i`, over the bytes from there. `skip` counts the bytes that an earlier
-- round has written already, so `i += 2` and `i = j` are a skip of one and of `j - i - 1`.
rewrite_from : ℕ → Mode → Text → Text
unfolding is_ident_start is_ident_char ident_length starts_ident is_quote has_escapes
rewrite_from skip mode [] = []
rewrite_from (suc skip) mode (c ∷ s) = rewrite_from skip mode s
rewrite_from zero (inside q) (c ∷ []) = c ∷ []
rewrite_from zero (inside q) (c ∷ d ∷ s) =
    let escaped = c ∷ d ∷ rewrite_from 1 (inside q) (d ∷ s) in
    let rest = rewrite_from zero (if nat_eq c q then outside else inside q) (d ∷ s) in
    if has_escapes q && nat_eq c backslash then escaped else c ∷ rest
rewrite_from zero outside (c ∷ s) =
    let n = ident_length s in
    let quoted = c ∷ rewrite_from zero (inside c) s in
    let reference = open_ref ++ ((c ∷ take n s) ++ (close_ref ++ rewrite_from n outside s)) in
    let copied = c ∷ rewrite_from zero outside s in
    if is_quote c
    then quoted
    else if nat_eq c b'#' && (ltb 0 n && starts_ident s)
    then reference
    else copied

unfoldable pub rewrite_hash_refs : Text → Text
unfolding rewrite_from
rewrite_hash_refs src = rewrite_from zero outside src
