-- ===== src/Role/Gateway/Replies.antt =====
-- Which requests reach the database, and what a rejected configuration is answered.
use ta2mongo.Prelude.{ℕ, ◌≡◌, refl, String, Bool, false, Option, none, some, Result, err, arith}
use ta2mongo.Prelude.Int.{ℤ}
use ta2mongo.Value.{Fields}
use ta2mongo.Filter.{ExprLang}
use ta2mongo.Cfgsync.Publish.{
  Collection, PublishError, validate_publish_doc, publish, publish_append,
}
use ta2mongo.Cfgsync.Publish.Rejections.{publish-rejected, publish_append-rejected}
use ta2mongo.Role.Gateway.{
  Engine, method_get, method_post, method_other, decoded, is_post, decode_body, handle_upload,
  handle_ejson, handle_sql, handle_config, Call, healthz, upload, ejson, sql, config, handler,
  publish_in,
}

abbrev pub is_post_call : {Text Err : Type 0} → Call Text Err → Bool
is_post_call healthz = false
is_post_call (upload method body) = is_post method
is_post_call (ejson method body) = is_post method
is_post_call (sql method body) = is_post method
is_post_call (config method body mode) = is_post method

-- What a route answers without an engine.
abbrev pub unavailable_status : {Text Err : Type 0} → Call Text Err → ℕ
unavailable_status healthz = 200
unavailable_status call = 503

module _ {Db R Req Resp Text Err : Type 0} (decode_request : Text → Result Err Req)
    (marshal : Resp → Result Err Text) where
  reads-some :
      (e : Engine Db R Req Resp Err) (call : Call Text Err) (db : Db)
      → is_post_call call ≡ false
      → (handler decode_request marshal (some e) call db).1 ≡ db
  unfolding handler handle_upload handle_ejson handle_sql handle_config decode_body
  reads-some e healthz db h = refl
  reads-some e (upload method_get body) db h = refl
  reads-some e (upload method_post body) db h = absurd (ground (arith, h))
  reads-some e (upload method_other body) db h = refl
  reads-some e (ejson method_get body) db h = refl
  reads-some e (ejson method_post body) db h = absurd (ground (arith, h))
  reads-some e (ejson method_other body) db h = refl
  reads-some e (sql method_get body) db h = refl
  reads-some e (sql method_post body) db h = absurd (ground (arith, h))
  reads-some e (sql method_other body) db h = refl
  reads-some e (config method_get body mode) db h = refl
  reads-some e (config method_post body mode) db h = absurd (ground (arith, h))
  reads-some e (config method_other body mode) db h = refl

  -- A request that is not a POST leaves the database as it is. Without an engine every request does,
  -- and its status is 200 for the health check and 503 for every other route.
  pub handler-reads :
      (engine : Option (Engine Db R Req Resp Err)) (call : Call Text Err) (db : Db)
      → (is_post_call call ≡ false → (handler decode_request marshal engine call db).1 ≡ db)
        × (engine ≡ none
            → ((handler decode_request marshal engine call db).1 ≡ db)
              × ((handler decode_request marshal engine call db).0.status
                  ≡ unavailable_status call))
  unfolding handler
  handler-reads none healthz db = (λ h. refl, λ e. (refl, refl))
  handler-reads none (upload method body) db = (λ h. refl, λ e. (refl, refl))
  handler-reads none (ejson method body) db = (λ h. refl, λ e. (refl, refl))
  handler-reads none (sql method body) db = (λ h. refl, λ e. (refl, refl))
  handler-reads none (config method body mode) db = (λ h. refl, λ e. (refl, refl))
  handler-reads (some engine) call db = (reads-some engine call db, λ e. absurd (ground (arith, e)))

module _ {E R Req Resp Text Db : Type 0} (decode_request : Text → Result (PublishError E) Req)
    (marshal : Resp → Result (PublishError E) Text) (lang : ExprLang) (truncate : ℕ → ℤ)
    (document_id : String) (io : Collection E Db)
    (base : Engine Db R Req Resp (PublishError E)) where
  -- The engine publishes by `Publish` and appends by `PublishAppend` of internal/cfgsync.
  abbrev pub with_cfgsync : Engine Db R Req Resp (PublishError E)
  with_cfgsync = record base {
    publish_config = publish lang truncate document_id io;
    append_config = publish_append lang truncate document_id io;
  }

  -- A configuration that the validation rejects is never written: whatever mode is asked for, a
  -- POST of it to /config is answered with status 400, and the database stays as it is.
  pub handle_config-rejects :
      (doc : Fields) (e : PublishError E) (mode : String) (db : Db)
      → validate_publish_doc lang doc ≡ err e
      → let (reply, db') =
          handle_config decode_request marshal with_cfgsync method_post (decoded doc) mode db in
        (reply.status ≡ 400) × (db' ≡ db)
  unfolding handle_config publish_in decode_body
  handle_config-rejects doc e mode db h = ground (
    arith,
    publish-rejected lang truncate document_id io doc e db h,
    publish_append-rejected lang truncate document_id io doc e db h,
  )
