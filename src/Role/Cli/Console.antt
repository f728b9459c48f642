-- ===== src/Role/Cli/Console.antt =====
-- The console publishes as the gateway does, and a task that is run has valid settings.
use ta2mongo.Prelude.{◌≡◌, refl, String, Option, Result, ok, err, ◌==◌, Bool-cases, inl, inr}
use ta2mongo.Prelude.Int.{ℤ}
use ta2mongo.Value.{Fields}
use ta2mongo.Role.Gateway as Gateway
use ta2mongo.Role.Gateway.{
  Engine, Reply, Content, version, failure, method_post, decoded, handle_config, published,
}
use ta2mongo.Role.Cli.{CliError, because, unknown_config_mode, if_ran, publish_in, run_config}

module _ {Db R Req Resp Text Err : Type 0} (decode_request : Text → Result Err Req)
    (marshal : Resp → Result Err Text) (write : Text → Option Err)
    (eng : Engine Db R Req Resp Err) where
  -- The gateway's answer to what the console reports.
  abbrev pub reply_of : Result (CliError Err) ℤ → Reply R Text Err
  reply_of (ok v) = record { status = 200; content = version v }
  reply_of (err (because e)) = record { status = 400; content = failure (Gateway.because e) }
  reply_of (err (unknown_config_mode m)) = record {
    status = 400;
    content = failure (Gateway.unknown_mode m);
  }
  reply_of (err e) = record { status = 500; content = Gateway.empty }

  abbrev printed : Result Err ℤ × Db → Result (CliError Err) ℤ × Db
  printed out = if_ran decode_request marshal write (ok eng) out (λ v. (ok v, out.1))

  published-printed :
      (out : Result Err ℤ × Db)
      → published decode_request marshal eng out ≡ (reply_of (printed out).0, (printed out).1)
  published-printed (ok v, db) = refl
  published-printed (err e, db) = refl

  -- Publishing a document from the console, in any mode, does to the database what the gateway's
  -- handler of a POST with that document and mode does, and the gateway answers the version or the
  -- error that the console reports.
  pub run_config-handle_config :
      (doc : Fields) (mode : String) (db : Db)
      → let (r, db') = run_config decode_request marshal write (ok eng) (ok doc) mode db in
        handle_config decode_request marshal eng method_post (decoded doc) mode db
        ≡ (reply_of r, db')
  unfolding run_config publish_in handle_config Gateway.publish_in Gateway.decode_body
  run_config-handle_config doc mode db = elim (Bool-cases (mode == "")) [
    | inl e ↦ rw (publish_in, Gateway.publish_in, e) (published-printed (eng.publish_config doc db))
    | inr e ↦ elim (Bool-cases (mode == "set")) [
      | inl s ↦
          rw (publish_in, Gateway.publish_in, e, s) (published-printed (eng.publish_config doc db))
      | inr s ↦ elim (Bool-cases (mode == "append")) [
        | inl a ↦
            rw (publish_in, Gateway.publish_in, e, s, a)
              (published-printed (eng.append_config doc db))
        | inr a ↦ rw (publish_in, Gateway.publish_in, e, s, a) refl
      ]
    ]
  ]
