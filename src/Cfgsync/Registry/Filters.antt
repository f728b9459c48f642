-- ===== src/Cfgsync/Registry/Filters.antt =====
-- What the applier of the filter leaves live.
use ta2mongo.Prelude.{
  ◌≡◌, refl, sym, ap, ◌∙◌, String, inl, inr, false, Option, none, some, [], Result, ok, err, arith,
  ◌==◌, Bool-cases, Option-cases, Result-cases, or_else, wrap, eq_iff, if◌then◌else◌,
}
use mathlib.Core.Path.{subst}
use ta2mongo.Value.{Value, Fields, end, field, get, get_or_null, IsMap}
use ta2mongo.Filter.{ExprLang, Filter, build}
use ta2mongo.Cfgsync.Document.{is_reserved, subtree_filter, to_string_slice, as_sub_document}
use ta2mongo.Cfgsync.Registry.{
  ApplyError, not_allowed, not_a_document, bad_include, bad_exclude, not_compiled, Registry, Live,
  register, applier_of, apply_field, apply_from, apply, swap_filter, apply_filter, register_filter,
}

module _ (lang : ExprLang) where
  open lang use {Program}

  abbrev pub filters : Registry (Live lang)
  filters = register_filter lang []

  -- The filter that a subtree stands for.
  abbrev pub compiled : Value → Result ApplyError (Filter Program)
  compiled val = elim (as_sub_document val) [
    | none ↦ err (not_a_document subtree_filter val)
    | some sub ↦ elim (to_string_slice (get_or_null "include" sub)) [
      | err e ↦ err (bad_include e)
      | ok inc ↦ elim (to_string_slice (get_or_null "exclude" sub)) [
        | err e ↦ err (bad_exclude e)
        | ok exc ↦ wrap not_compiled (build lang (some (record { include = inc; exclude = exc })))
      ]
    ]
  ]

  -- The error of a result, and the live filter after it.
  abbrev pub failure_of : Result ApplyError (Filter Program) → Option ApplyError
  failure_of (ok flt) = none
  failure_of (err e) = some e

  abbrev pub live_after : Option (Result ApplyError (Filter Program)) → Live lang → Live lang
  live_after none live = live
  live_after (some (ok flt)) live = some flt
  live_after (some (err e)) live = live

  map_compiled : Option Value → Option (Result ApplyError (Filter Program))
  map_compiled none = none
  map_compiled (some val) = some (compiled val)

  apply_filter_lem :
      (val : Value) (s : Live lang)
      → apply_field filters "filter" val s
        ≡ (failure_of (compiled val), live_after (some (compiled val)) s)
  unfolding apply_field applier_of register_filter register apply_filter swap_filter
  apply_filter_lem val s = elim (Option-cases (as_sub_document val)) [
    | inl h ↦ rw (apply_field, compiled, h) refl
    | inr (sub, h) ↦ elim (Result-cases (to_string_slice (get_or_null "include" sub))) [
      | inr (e, i) ↦ rw (apply_field, compiled, apply_filter, swap_filter, h, i) refl
      | inl (inc, i) ↦ elim (Result-cases (to_string_slice (get_or_null "exclude" sub))) [
        | inr (e, x) ↦ rw (apply_field, compiled, apply_filter, swap_filter, h, i, x) refl
        | inl (exc, x) ↦
            elim (Result-cases (build lang (some (record { include = inc; exclude = exc })))) [
              | inr (e, b) ↦ rw (apply_field, compiled, apply_filter, swap_filter, h, i, x, b) refl
              | inl (flt, b) ↦
                  rw (apply_field, compiled, apply_filter, swap_filter, h, i, x, b) refl
            ]
      ]
    ]
  ]

  apply_same :
      (key : String) (val : Value) (s : Live lang)
      → key ≡ subtree_filter
      → apply_field filters key val s
        ≡ (failure_of (compiled val), live_after (some (compiled val)) s)
  apply_same key val s e =
      subst
        (λ k.
          apply_field filters k val s
          ≡ (failure_of (compiled val), live_after (some (compiled val)) s))
        (sym e) (apply_filter_lem val s)

  -- A field of another name leaves the filter.
  apply_other :
      (key : String) (val : Value) (s : Live lang)
      → key == subtree_filter ≡ false
      → apply_field filters key val s
        ≡ ((if is_reserved key then none else some (not_allowed key)), s)
  unfolding apply_field applier_of register_filter register
  apply_other key val s other = elim (Bool-cases (subtree_filter == key)) [
    | inl same ↦
        absurd (ground (arith, other, same, eq_iff subtree_filter key, eq_iff key subtree_filter))
    | inr new ↦ elim (Bool-cases (is_reserved key)) [
      | inl r ↦ rw (apply_field, new, r) refl
      | inr r ↦ rw (apply_field, new, r) refl
    ]
  ]

  -- The live filter after a document, by the document's filter subtree.
  apply_from-live :
      (doc : Fields) (first : Option ApplyError) (s : Live lang)
      → IsMap doc
      → (apply_from filters doc first s).1 ≡ live_after (map_compiled (get subtree_filter doc)) s
  unfolding apply_from get map_compiled
  apply_from-live end first s m = refl
  apply_from-live (field key val doc) first s m = elim (Bool-cases (key == subtree_filter)) [
    | inl same ↦
        let e : key ≡ subtree_filter = (eq_iff key subtree_filter).0 same in
        let rest : get subtree_filter doc ≡ none = rw (← e) m.0 in
        rw same (
          apply_from-live doc (or_else first (apply_field filters key val s).0)
            (apply_field filters key val s).1 m.1
          ∙ rw rest (ap (λ p. p.1) (apply_same key val s e)))
    | inr other ↦
        let (e, s') = apply_field filters key val s in
        rw other (
          apply_from-live doc (or_else first e) s' m.1
          ∙ ap (λ p. live_after (map_compiled (get subtree_filter doc)) p.1)
              (apply_other key val s other))
  ]

  live_cases :
      (o : Option Value) (s : Live lang)
      → live_after (map_compiled o) s
        ≡ (elim o [ none ↦ s | some val ↦ elim (compiled val) [ ok flt ↦ some flt | err e ↦ s ] ])
  unfolding map_compiled
  live_cases none s = refl
  live_cases (some val) s = elim (Result-cases (compiled val)) [
    | inl (flt, h) ↦ rw h refl
    | inr (e, h) ↦ rw h refl
  ]

  -- Applying a document in which no key stands twice, whatever else it holds, to a parser with any
  -- filter: the filter is that of the document's filter subtree, where there is one and it is well
  -- formed and compiles, and otherwise it is the one before.
  pub apply-live :
      (doc : Fields) (s : Live lang)
      → IsMap doc
      → (apply filters doc s).1 ≡ (elim (get subtree_filter doc) [
        | none ↦ s
        | some val ↦ elim (compiled val) [ ok flt ↦ some flt | err e ↦ s ]
      ])
  unfolding apply
  apply-live doc s m = apply_from-live doc none s m ∙ live_cases (get subtree_filter doc) s

  apply_field-error :
      (key : String) (val : Value) (s t : Live lang)
      → (apply_field filters key val s).0 ≡ (apply_field filters key val t).0
  apply_field-error key val s t = elim (Bool-cases (key == subtree_filter)) [
    | inl same ↦
        let e : key ≡ subtree_filter = (eq_iff key subtree_filter).0 same in
        ap (λ p. p.0) (apply_same key val s e) ∙ sym (ap (λ p. p.0) (apply_same key val t e))
    | inr other ↦
        ap (λ p. p.0) (apply_other key val s other)
        ∙ sym (ap (λ p. p.0) (apply_other key val t other))
  ]

  -- The errors of an application are the same on every filter.
  pub apply_from-error :
      (doc : Fields) (first : Option ApplyError) (s t : Live lang)
      → (apply_from filters doc first s).0 ≡ (apply_from filters doc first t).0
  unfolding apply_from
  apply_from-error end first s t = refl
  apply_from-error (field key val doc) first s t =
      let (e, s') = apply_field filters key val s in
      let t' = (apply_field filters key val t).1 in
      apply_from-error doc (or_else first e) s' t'
      ∙ ap (λ z. (apply_from filters doc (or_else first z) t').0) (apply_field-error key val s t)
