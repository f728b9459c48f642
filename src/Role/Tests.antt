-- ===== src/Role/Tests.antt =====
-- Runs of the daemon and the gateway, and the theorems about them at concrete inputs.
mod Uploads
use ta2mongo.Prelude.{
  ℕ, suc, ◌≡◌, refl, String, Bool, true, false, Option, none, some, List, [], ◌∷◌, ◌++◌, ok, err,
  codes,
}
use ta2mongo.Prelude.Int.{ℤ, pos, negsuc}
use ta2mongo.Value.{Fields, end, field, bool, int64, get_or_null, is_empty}
use ta2mongo.Filter.{ExprLang}
use ta2mongo.Cfgsync.Registry.{not_allowed, register_filter}
use ta2mongo.Cfgsync.Publish.{Collection, PublishError, rejected, validate_publish_doc}
use ta2mongo.Process.Mode.{zero_config}
use ta2mongo.Role.Daemon.{Moment, reading, looking, warning, report_stats, run}
use ta2mongo.Role.Daemon.Ingestion.{Applied, Ingests, run-Applied}
use ta2mongo.Role.Daemon.Mask.{mask_uri, mask_uri-hides}
use ta2mongo.Role.Gateway.{Engine, method_post, decoded, handle_config}
use ta2mongo.Role.Gateway.Replies.{with_cfgsync, handle_config-rejects}

watchdog_runs : report_stats (pos 100) (pos 20 ∷ pos 100 ∷ pos 101 ∷ pos 5 ∷ []) ≡ (3, true)
unfolding report_stats
watchdog_runs = refl

watchdog_inert : report_stats (pos 0) (pos 20 ∷ negsuc 0 ∷ []) ≡ (2, false)
unfolding report_stats
watchdog_inert = refl

abbrev truncate : ℕ → ℤ
truncate bits = pos 0

abbrev versioned : Fields
versioned = field "version" (int64 (pos 3)) end

-- An applier that counts the documents.
abbrev counting : Fields → ℕ → Option String × ℕ
counting doc n = (none, suc n)

abbrev until_applied : List (Moment String)
until_applied =
    reading (err "down")
    ∷ looking
    ∷ warning
    ∷ reading (ok none)
    ∷ reading (ok (some versioned))
    ∷ looking
    ∷ []

-- The daemon ingests in this run.
ingests : Ingests (run truncate (some counting) ("*.log" ∷ []) zero_config true 0 until_applied).0
unfolding run get_or_null
ingests = tt

run-Applied_example : Applied truncate counting until_applied
run-Applied_example =
    run-Applied truncate counting ("*.log" ∷ []) zero_config 0 until_applied ingests

mask_uri-hides_example :
    mask_uri (codes "mongodb" ++ (codes "://" ++ (codes "u:p" ++ b'@' ∷ codes "h/db")))
    ≡ (codes "mongodb" ++ codes "://") ++ (codes "***:***@" ++ codes "h/db")
mask_uri-hides_example =
    mask_uri-hides (codes "mongodb") (codes "u:p") (codes "h/db")
      (refl, (refl, (refl, (refl, (refl, (refl, (refl, tt))))))) (refl, (refl, (refl, tt)))

mask_runs : mask_uri (codes "mongodb://u:p@h/db") ≡ codes "mongodb://***:***@h/db"
unfolding mask_uri
mask_runs = refl

abbrev always : ExprLang
always = record { Program = Bool; compile = λ text. ok true; run = λ p env. ok (bool p) }

-- A collection that counts its writes.
abbrev counted : Collection String ℕ
counted = record {
  find_one = λ n. (ok none, n);
  upsert = λ set n. (ok tt, suc n);
  insert_one = λ doc n. (ok tt, suc n);
  update_version = λ v set n. (ok (some 1), suc n);
  is_duplicate_key = λ e. false;
}

abbrev idle : Engine ℕ String String String (PublishError String)
idle = record {
  upload = λ lines n. (ok "done", n);
  ejson = λ req n. (ok "done", n);
  sql = λ query n. (ok "done", n);
  publish_config = λ doc n. (ok (pos 1), n);
  append_config = λ doc n. (ok (pos 1), n);
  fetch_config = λ n. ok none;
}

abbrev foreign : Fields
foreign = field "other" (bool true) end

abbrev foreign_error : PublishError String
foreign_error = rejected (not_allowed "other")

foreign_rejected : validate_publish_doc always foreign ≡ err foreign_error
unfolding validate_publish_doc is_empty register_filter
foreign_rejected = refl

foreign_is_answered :
    let (reply, db') =
      handle_config
        (λ (t : String). ok t)
        (λ (t : String). ok t)
        (with_cfgsync
          (λ (t : String). ok t)
          (λ (t : String). ok t)
          always
          truncate
          "filter"
          counted
          idle)
        method_post
        (decoded foreign)
        "append"
        7 in
    (reply.status ≡ 400) × (db' ≡ 7)
foreign_is_answered =
    handle_config-rejects (λ (t : String). ok t) (λ (t : String). ok t) always truncate "filter"
      counted idle foreign foreign_error "append" 7 foreign_rejected
