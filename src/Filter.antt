-- ===== src/Filter.antt =====
-- internal/parser/filter: include and exclude expressions over a record's document.
-- Rewrite is the preparation of an expression, Decision what `Keep` decides.
pub mod Rewrite
pub mod Decision
mod Tests
use ta2mongo.Prelude.{
  ℕ, zero, suc, String, Bool, true, false, ◌&&◌, Option, none, some, List, [], ◌∷◌, codes, Result,
  ok, err, ◌>>=◌, is_some, if◌then◌else◌,
}
use ta2mongo.Value.{Value, Fields, bool}
use Rewrite.{Text, rewrite_hash_refs}

-- github.com/expr-lang/expr: compiling an expression (with AsBool and AllowUndefinedVariables) and
-- running a program on an environment.
pub record ExprLang : Type 1 where
  pub Program : Type 0
  pub compile : Text → Result String Program
  pub run : Program → Fields → Result String Value

pub data Kind : Type 0 where
  include exclude : Kind

-- The errors of this package. `compile_error kind i src cause` is that of `compileAll`.
pub data Error : Type 0 where
  compile_error : Kind → ℕ → String → String → Error
  run_error : String → Error
  not_bool : Value → Error

-- filter.Config, the rules as text
pub record Config : Type 0 where
  pub include : List String
  pub exclude : List String

-- A filter over compiled programs of type `P`.
pub record Filter (P : Type 0) : Type 0 where
  pub include : List P
  pub exclude : List P

abbrev pub no_rules {ℓ} : {A : Type ℓ} → List A → Bool
no_rules [] = true
no_rules (x ∷ xs) = false

-- err != nil && firstErr == nil
abbrev pub is_new : Option Error → Option Error → Bool
is_new (some e) none = true
is_new _ _ = false

module _ (lang : ExprLang) where
  open lang use {Program, compile, run}

  -- The decision and the error of `evalBool`, which is false beside an error.
  unfoldable pub eval_bool : Program → Fields → Bool × Option Error
  eval_bool p env = elim (run p env) [
    | err e ↦ (false, some (run_error e))
    | ok out ↦ elim out [ bool b ↦ (b, none) | other ↦ (false, some (not_bool other)) ]
  ]

  -- The loop of `Keep` over one list: whether an expression matched, and `firstErr`.
  unfoldable pub match_loop : List Program → Fields → Option Error → Bool × Option Error
  unfolding eval_bool
  match_loop [] env first = (false, first)
  match_loop (p ∷ ps) env first =
      let (matched, e) = eval_bool p env in
      let recorded = match_loop ps env e in
      let rest = match_loop ps env first in
      if is_new e first then recorded else if matched then (true, first) else rest

  -- The exclude stage, after an include stage that let the record through.
  unfoldable pub exclude_stage : Filter Program → Fields → Option Error → Bool × Option Error
  unfolding match_loop
  exclude_stage f env first =
      let (matched, e) = match_loop f.exclude env first in if matched then (false, e) else (true, e)

  unfoldable pub keep : Option (Filter Program) → Fields → Bool × Option Error
  unfolding match_loop exclude_stage
  keep none env = (true, none)
  keep (some f) env =
      if no_rules f.include
      then exclude_stage f env none
      else let (matched, e) = match_loop f.include env none in
        if matched then exclude_stage f env e else (false, e)

  -- `Empty`, on a nil filter too
  unfoldable pub is_empty : Option (Filter Program) → Bool
  is_empty none = true
  is_empty (some f) = no_rules f.include && no_rules f.exclude

  -- The loop of `compileAll`, from index `i`.
  unfoldable pub compile_from : Kind → ℕ → List String → Result Error (List Program)
  unfolding rewrite_hash_refs
  compile_from kind i [] = ok []
  compile_from kind i (src ∷ exprs) = elim (compile (rewrite_hash_refs (codes src))) [
    | err cause ↦ err (compile_error kind i src cause)
    | ok p ↦ elim (compile_from kind (suc i) exprs) [ err e ↦ err e | ok ps ↦ ok (p ∷ ps) ]
  ]

  unfoldable pub compile_all : List String → Kind → Result Error (List Program)
  unfolding compile_from
  compile_all exprs kind = compile_from kind 0 exprs

  unfoldable pub new : List String → List String → Result Error (Filter Program)
  unfolding compile_all
  new includes excludes = do
    inc ← compile_all includes include
    exc ← compile_all excludes exclude
    ok (record { include = inc; exclude = exc })

  -- `Config.Build`, on a nil config too
  unfoldable pub build : Option Config → Result Error (Filter Program)
  unfolding new
  build none = new [] []
  build (some c) = new c.include c.exclude
