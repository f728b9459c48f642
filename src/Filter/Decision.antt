-- ===== src/Filter/Decision.antt =====
-- What `Keep` decides and which error it returns, whatever the order of errors and matches.
use ta2mongo.Prelude.{
  ◌≡◌, refl, Bool, true, not, ◌&&◌, ◌||◌, Option, none, some, List, [], ◌∷◌, arith, any, or_else,
  if◌then◌else◌,
}
use ta2mongo.Value.{Fields}
use ta2mongo.Filter.{ExprLang, Error, Filter, no_rules, eval_bool, match_loop, exclude_stage, keep}

module _ (lang : ExprLang) where
  open lang use {Program}

  -- The expression evaluates to true, with no error.
  abbrev pub holds : Fields → Program → Bool
  holds env p = (eval_bool lang p env).0

  -- The error of the first expression that fails before one matches.
  pub first_error : Fields → List Program → Option Error
  first_error env [] = none
  first_error env (p ∷ ps) =
      if holds env p then none else or_else (eval_bool lang p env).1 (first_error env ps)

  no_error_of_holds :
      (p : Program) (env : Fields) → holds env p ≡ true → (eval_bool lang p env).1 ≡ none
  unfolding eval_bool
  no_error_of_holds p env h = ground arith

  match_loop_lem :
      (ps : List Program) (env : Fields) (first : Option Error)
      → (match_loop lang ps env first).0 ≡ any (holds env) ps
  unfolding match_loop
  match_loop_lem [] env first = refl
  match_loop_lem (p ∷ ps) env first = ground (
    arith,
    no_error_of_holds p env,
    match_loop_lem ps env first,
    match_loop_lem ps env (eval_bool lang p env).1,
  )

  match_loop_error :
      (ps : List Program) (env : Fields) (first : Option Error)
      → (match_loop lang ps env first).1 ≡ or_else first (first_error env ps)
  unfolding match_loop first_error
  match_loop_error [] env first = ground arith
  match_loop_error (p ∷ ps) env first = ground (
    arith,
    no_error_of_holds p env,
    match_loop_error ps env first,
    match_loop_error ps env (eval_bool lang p env).1,
  )

  no_error_of_no_rules :
      (ps : List Program) (env : Fields) → no_rules ps ≡ true → first_error env ps ≡ none
  unfolding first_error
  no_error_of_no_rules [] env h = refl
  no_error_of_no_rules (p ∷ ps) env h = cc

  -- Whether a filter's include list lets a document through.
  abbrev pub included : Filter Program → Fields → Bool
  included f env = no_rules f.include || any (holds env) f.include

  -- A record is kept exactly when the include list is empty or one of its expressions holds, and
  -- no exclude expression holds; an expression that fails to evaluate counts as not holding. The
  -- error returned is that of the first expression that failed before its list matched, the
  -- exclude list being read only when the include list let the record through.
  pub keep-eq :
      (f : Filter Program) (env : Fields)
      → ((keep lang (some f) env).0 ≡ (included f env && not (any (holds env) f.exclude)))
        × ((keep lang (some f) env).1
            ≡ or_else
                (first_error env f.include)
                (if included f env then first_error env f.exclude else none))
  unfolding keep exclude_stage
  keep-eq f env = ground (
    arith,
    no_error_of_no_rules f.include env,
    match_loop_lem f.include env none,
    match_loop_lem f.exclude env none,
    match_loop_lem f.exclude env (match_loop lang f.include env none).1,
    match_loop_error f.include env none,
    match_loop_error f.exclude env none,
    match_loop_error f.exclude env (match_loop lang f.include env none).1,
  )
