-- ===== src/Filter/Tests.antt =====
-- Runs of the filter, and its theorems at concrete inputs.
use ta2mongo.Prelude.{
  ◌≡◌, refl, Bool, true, false, not, ◌&&◌, none, some, [], ◌∷◌, codes, any, or_else, ok, err,
  if◌then◌else◌,
}
use ta2mongo.Value.{Fields, end, field, get_or_null, bool}
use ta2mongo.Filter.{ExprLang, Filter, keep, run_error}
use ta2mongo.Filter.Rewrite.{rewrite_hash_refs}
use ta2mongo.Filter.Decision.{holds, first_error, included, keep-eq}

rewrite_runs :
    rewrite_hash_refs (codes "#type == '#x' && a.#b_1 == \"\\\"#y\" || #1")
    ≡ codes "$env[\"#type\"] == '#x' && a.$env[\"#b_1\"] == \"\\\"#y\" || #1"
unfolding rewrite_hash_refs
rewrite_runs = refl

-- Programs that read one field, and programs that fail.
abbrev fields_lang : ExprLang
fields_lang = record {
  Program = Bool;
  compile = λ text. ok true;
  run = λ p env. elim p [ false ↦ err "no such name" | true ↦ ok (get_or_null "vip" env) ];
}

abbrev vip_filter : Filter Bool
vip_filter = record { include = false ∷ true ∷ []; exclude = false ∷ [] }

abbrev vip : Fields
vip = field "vip" (bool true) end

keep_runs : keep fields_lang (some vip_filter) vip ≡ (true, some (run_error "no such name"))
unfolding keep get_or_null
keep_runs = refl

keep-eq_example :
    ((keep fields_lang (some vip_filter) vip).0
      ≡ (included fields_lang vip_filter vip && not (any (holds fields_lang vip) (false ∷ []))))
    × ((keep fields_lang (some vip_filter) vip).1
        ≡ or_else (first_error fields_lang vip (false ∷ true ∷ [])) (
            if included fields_lang vip_filter vip
            then first_error fields_lang vip (false ∷ [])
            else none))
keep-eq_example = keep-eq fields_lang vip_filter vip
