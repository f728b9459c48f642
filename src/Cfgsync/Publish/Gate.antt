-- ===== src/Cfgsync/Publish/Gate.antt =====
-- What the validation of a publication accepts is what the watchers apply.
use ta2mongo.Prelude.{
  ◌≡◌, ◌↔◌, refl, sym, ap, ◌∙◌, String, true, false, Option, none, some, ok, arith, Bool-cases,
  Option-cases, inl, inr, or_else,
}
use ta2mongo.Value.{Value, Fields, end, field, is_empty}
use ta2mongo.Filter.{ExprLang}
use ta2mongo.Cfgsync.Document.{is_reserved}
use ta2mongo.Cfgsync.Registry.{ApplyError, Live, apply_field, apply_from, apply}
use ta2mongo.Cfgsync.Registry.Filters.{filters, apply_from-error}
use ta2mongo.Cfgsync.Publish.{strip, validate_publish_doc}

module _ (lang : ExprLang) where
  or_else_nil : {A : Type 0} (o : Option A) → or_else o none ≡ o
  or_else_nil none = refl
  or_else_nil (some a) = refl

  apply_field-reserved :
      (k : String) (v : Value) (s : Live lang)
      → is_reserved k ≡ true
      → apply_field (filters lang) k v s ≡ (none, s)
  unfolding apply_field
  apply_field-reserved k v s h = rw (apply_field, h) refl

  strip_old :
      (k : String) (v : Value) (doc : Fields)
      → is_reserved k ≡ true
      → strip (field k v doc) ≡ strip doc
  unfolding strip
  strip_old k v doc h = rw h refl

  strip_new :
      (k : String) (v : Value) (doc : Fields)
      → is_reserved k ≡ false
      → strip (field k v doc) ≡ field k v (strip doc)
  unfolding strip
  strip_new k v doc h = rw h refl

  -- Reserved fields are not applied.
  apply_from-strip :
      (doc : Fields) (first : Option ApplyError) (s : Live lang)
      → apply_from (filters lang) doc first s ≡ apply_from (filters lang) (strip doc) first s
  unfolding apply_from
  apply_from-strip end first s = unfold strip in refl
  apply_from-strip (field k v doc) first s =
      let (e, s') = apply_field (filters lang) k v s in
      elim (Bool-cases (is_reserved k)) [
        | inl h ↦
            ap (λ p. apply_from (filters lang) doc (or_else first p.0) p.1)
              (apply_field-reserved k v s h)
            ∙ ap (λ z. apply_from (filters lang) doc z s) (or_else_nil first)
            ∙ apply_from-strip doc first s
            ∙ ap (λ d. apply_from (filters lang) d first s) (sym (strip_old k v doc h))
        | inr h ↦
            apply_from-strip doc (or_else first e) s'
            ∙ ap (λ d. apply_from (filters lang) d first s) (sym (strip_new k v doc h))
      ]

  strip_empty : (doc : Fields) → is_empty (strip doc) ≡ false → is_empty doc ≡ false
  unfolding strip is_empty
  strip_empty end h = h
  strip_empty (field k v doc) h = refl

  module _ {E : Type 0} where
    checked :
        (doc : Fields)
        → is_empty (strip doc) ≡ false
        → (validate_publish_doc {E = E} lang doc ≡ ok (strip doc))
          ↔ ((apply (filters lang) (strip doc) none).0 ≡ none)
    unfolding validate_publish_doc
    checked doc h = elim (Option-cases (apply (filters lang) (strip doc) none).0) [
      | inl e ↦ rw (validate_publish_doc, strip_empty doc h, h, e) ((λ _. refl), (λ _. refl))
      | inr (c, e) ↦
          rw (validate_publish_doc, strip_empty doc h, h, e)
            ((λ k. absurd (ground arith)), (λ k. absurd (ground arith)))
    ]

    -- A document with a field that is not reserved passes the validation of a publication, which
    -- then writes its fields that are not reserved, exactly when every watcher, whatever filter it
    -- has, applies the document without an error.
    pub validate_publish_doc_iff :
        (doc : Fields) (s : Live lang)
        → is_empty (strip doc) ≡ false
        → (validate_publish_doc {E = E} lang doc ≡ ok (strip doc))
          ↔ ((apply (filters lang) doc s).0 ≡ none)
    unfolding apply
    validate_publish_doc_iff doc s h =
        let same : (apply (filters lang) doc s).0 ≡ (apply (filters lang) (strip doc) none).0 =
          ap (λ p. p.0) (apply_from-strip doc none s)
          ∙ apply_from-error lang (strip doc) none s none in
        let (there, back) = checked doc h in ((λ k. same ∙ there k), (λ k. back (sym same ∙ k)))
