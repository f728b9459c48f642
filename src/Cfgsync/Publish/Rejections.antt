-- ===== src/Cfgsync/Publish/Rejections.antt =====
-- A document that the validation rejects is not written, in either mode.
use ta2mongo.Prelude.{ℕ, String, ◌≡◌, ap, Result, ok, err}
use ta2mongo.Prelude.Int.{ℤ}
use ta2mongo.Value.{Fields}
use ta2mongo.Filter.{ExprLang}
use ta2mongo.Cfgsync.Publish.{
  Collection, PublishError, validate_publish_doc, published, publish, if_valid, append_loop,
  publish_append,
}

module _ {E Db : Type 0} (lang : ExprLang) (truncate : ℕ → ℤ) (document_id : String)
    (io : Collection E Db) (doc : Fields) (e : PublishError E) (db : Db)
    (rejected : validate_publish_doc lang doc ≡ err e) where
  pub publish-rejected : publish lang truncate document_id io doc db ≡ (err e, db)
  unfolding publish
  publish-rejected =
      ap
        (λ (r : Result (PublishError E) Fields). elim r as (λ _. Result (PublishError E) ℤ × Db) [
          | err e' ↦ (err e', db)
          | ok set ↦ published lang truncate document_id io (io.upsert set db)
        ])
        rejected

  pub publish_append-rejected : publish_append lang truncate document_id io doc db ≡ (err e, db)
  unfolding publish_append
  publish_append-rejected =
      ap
        (λ (r : Result (PublishError E) Fields).
          if_valid lang truncate document_id io r db
            (append_loop lang truncate document_id io 8 doc db))
        rejected
