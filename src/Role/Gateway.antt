-- ===== src/Role/Gateway.antt =====
-- internal/role/gateway/server.go: the handlers of the routes. The engine (internal/role/api) stands
-- behind an interface; `encoding/json`, and the encoding and decoding of extended JSON by the
-- MongoDB driver, are in what a handler receives.
pub mod Replies
use ta2mongo.Prelude.{
  ℕ, String, Bool, true, false, Option, none, some, List, [], ◌∷◌, ◌++◌, Result, ok, err, ◌==◌,
  if◌then◌else◌,
}
use ta2mongo.Prelude.Int.{ℤ}
use ta2mongo.Value.{Fields, end}

-- The engine over a database, with its results, its requests and its errors.
pub record Engine (Db R Req Resp Err : Type 0) : Type 0 where
  pub upload : List String → Db → Result Err R × Db
  pub ejson : Req → Db → Result Err Resp × Db
  pub sql : String → Db → Result Err Resp × Db
  pub publish_config : Fields → Db → Result Err ℤ × Db
  pub append_config : Fields → Db → Result Err ℤ × Db
  pub fetch_config : Db → Result Err (Option Fields)

pub data Method : Type 0 where
  method_get method_post method_other : Method

-- A request's body under `json.Decoder.Decode`.
pub data Decoded (Err A : Type 0) : Type 0 where
  no_body : Decoded Err A
  end_of_file : Decoded Err A
  malformed : Err → Decoded Err A
  decoded : A → Decoded Err A

-- The errors that a response states.
pub data Failure (Err : Type 0) : Type 0 where
  service_unavailable : Failure Err
  post_required : Failure Err
  get_or_post_required : Failure Err
  sql_is_required : Failure Err
  not_published : Failure Err
  unknown_mode : String → Failure Err
  because : Err → Failure Err

pub data Content (R Text Err : Type 0) : Type 0 where
  empty : Content R Text Err
  failure : Failure Err → Content R Text Err
  result : R → Content R Text Err
  ejson_text : Text → Content R Text Err
  document : Fields → Content R Text Err
  version : ℤ → Content R Text Err

pub record Reply (R Text Err : Type 0) : Type 0 where
  pub status : ℕ
  pub content : Content R Text Err

pub record UploadBody : Type 0 where
  pub one : String
  pub lines : List String

abbrev pub is_post : Method → Bool
is_post method_post = true
is_post method = false

module _ {R Text Err : Type 0} where
  abbrev pub write_err : ℕ → Failure Err → Reply R Text Err
  write_err code e = record { status = code; content = failure e }

  abbrev pub write_json : ℕ → Content R Text Err → Reply R Text Err
  write_json code v = record { status = code; content = v }

  -- `decodeBody` into a variable that holds `zero`: the value, or the response that was written.
  unfoldable pub decode_body :
      {A : Type 0} → Method → Decoded Err A → A → Result (Reply R Text Err) A
  decode_body method body zero =
      let read : Result (Reply R Text Err) _ = elim body [
        | no_body ↦ ok zero
        | end_of_file ↦ ok zero
        | malformed e ↦ err (write_err 400 (because e))
        | decoded a ↦ ok a
      ] in
      if is_post method then read else err (write_err 405 post_required)

module _ {Db R Req Resp Text Err : Type 0} (decode_request : Text → Result Err Req)
    (marshal : Resp → Result Err Text) (engine : Engine Db R Req Resp Err) where
  -- `writeEJSON`
  abbrev pub write_ejson : ℕ → Resp → Reply R Text Err
  write_ejson code resp = elim (marshal resp) [
    | err e ↦ write_err 500 (because e)
    | ok text ↦ write_json code (ejson_text text)
  ]

  abbrev pub executed : Result Err Resp × Db → Reply R Text Err × Db
  executed (err e, db) = (write_err 500 (because e), db)
  executed (ok resp, db) = (write_ejson 200 resp, db)

  abbrev pub uploaded : Result Err R × Db → Reply R Text Err × Db
  uploaded (err e, db) = (write_err 500 (because e), db)
  uploaded (ok r, db) = (write_json 200 (result r), db)

  abbrev pub published : Result Err ℤ × Db → Reply R Text Err × Db
  published (err e, db) = (write_err 400 (because e), db)
  published (ok v, db) = (write_json 200 (version v), db)

  abbrev pub upload_lines : UploadBody → List String
  upload_lines req = if req.one == "" then req.lines else req.lines ++ req.one ∷ []

  abbrev pub if_decoded :
      {A : Type 0}
      → Result (Reply R Text Err) A
      → Db
      → (A → Reply R Text Err × Db)
      → Reply R Text Err × Db
  if_decoded (err reply) db next = (reply, db)
  if_decoded (ok a) db next = next a

  unfoldable pub handle_upload : Method → Decoded Err UploadBody → Db → Reply R Text Err × Db
  unfolding decode_body
  handle_upload method body db =
      if_decoded (decode_body method body (record { one = ""; lines = [] })) db
        (λ req. uploaded (engine.upload (upload_lines req) db))

  -- The body as it was read; the decoding of the request may fail after that.
  abbrev pub executed_request : Result Err Req → Db → Reply R Text Err × Db
  executed_request (err e) db = (write_err 400 (because e), db)
  executed_request (ok req) db = executed (engine.ejson req db)

  unfoldable pub handle_ejson : Method → Result Err Text → Db → Reply R Text Err × Db
  handle_ejson method body db =
      let run = elim body as (λ _. Reply R Text Err × Db) [
        | err e ↦ (write_err 400 (because e), db)
        | ok text ↦ executed_request (decode_request text) db
      ] in
      if is_post method then run else (write_err 405 post_required, db)

  unfoldable pub handle_sql : Method → Decoded Err String → Db → Reply R Text Err × Db
  unfolding decode_body
  handle_sql method body db = if_decoded (decode_body method body "") db (λ query.
      if query == "" then (write_err 400 sql_is_required, db) else executed (engine.sql query db))

  abbrev pub fetched : Result Err (Option Fields) → Reply R Text Err
  fetched (err e) = write_err 500 (because e)
  fetched (ok none) = write_err 404 not_published
  fetched (ok (some doc)) = write_json 200 (document doc)

  -- The publication in a mode.
  unfoldable pub publish_in : String → Fields → Db → Reply R Text Err × Db
  publish_in mode doc db =
      if mode == ""
      then published (engine.publish_config doc db)
      else if mode == "set"
      then published (engine.publish_config doc db)
      else if mode == "append"
      then published (engine.append_config doc db)
      else (write_err 400 (unknown_mode mode), db)

  unfoldable pub handle_config : Method → Decoded Err Fields → String → Db → Reply R Text Err × Db
  unfolding decode_body publish_in
  handle_config method_get body mode db = (fetched (engine.fetch_config db), db)
  handle_config method_post body mode db =
      if_decoded (decode_body method_post body end) db (λ doc. publish_in mode doc db)
  handle_config method_other body mode db = (write_err 405 get_or_post_required, db)

-- A request, by its route.
pub data Call (Text Err : Type 0) : Type 0 where
  healthz : Call Text Err
  upload : Method → Decoded Err UploadBody → Call Text Err
  ejson : Method → Result Err Text → Call Text Err
  sql : Method → Decoded Err String → Call Text Err
  config : Method → Decoded Err Fields → String → Call Text Err

module _ {Db R Req Resp Text Err : Type 0} (decode_request : Text → Result Err Req)
    (marshal : Resp → Result Err Text) where
  -- `Handler`: without an engine every route but the first answers that the service is unavailable.
  unfoldable pub handler :
      Option (Engine Db R Req Resp Err) → Call Text Err → Db → Reply R Text Err × Db
  unfolding handle_upload handle_ejson handle_sql handle_config
  handler engine healthz db = (record { status = 200; content = empty }, db)
  handler none call db = (write_err 503 service_unavailable, db)
  handler (some e) (upload method body) db = handle_upload decode_request marshal e method body db
  handler (some e) (ejson method body) db = handle_ejson decode_request marshal e method body db
  handler (some e) (sql method body) db = handle_sql decode_request marshal e method body db
  handler (some e) (config method body mode) db =
      handle_config decode_request marshal e method body mode db
