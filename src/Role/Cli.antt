-- ===== src/Role/Cli.antt =====
-- internal/role/cli: cli.go, config.go and role.go. The engine is that of Role.Gateway; whether it
-- connects, what the console has, `encoding/json` and the writing of the output are arguments.
pub mod Console
use ta2mongo.Prelude.{
  String, Bool, true, false, ◌||◌, Option, none, some, List, Result, ok, err, ◌==◌, ◌>>=◌, wrap,
  if◌then◌else◌,
}
use ta2mongo.Prelude.Int.{ℤ}
use ta2mongo.Value.{Fields}
use ta2mongo.Role.Gateway.{Engine}

pub record Config : Type 0 where
  pub function : String
  pub config_mode : String

pub data CliError (Err : Type 0) : Type 0 where
  unknown_function : String → CliError Err
  unknown_config_mode : String → CliError Err
  not_published : CliError Err
  because : Err → CliError Err

unfoldable pub apply_defaults : Config → Config
apply_defaults c = record c { function = if c.function == "" then "upload" else c.function }

abbrev pub is_function : String → Bool
is_function f = f == "upload" || f == "ejson" || f == "sql" || f == "config" || f == "configget"

abbrev pub is_config_mode : String → Bool
is_config_mode m = m == "" || m == "set" || m == "append"

unfoldable pub validate : {Err : Type 0} → Config → Result (CliError Err) (Unit {0})
validate c =
    if is_function c.function
    then (if is_config_mode c.config_mode then ok tt else err (unknown_config_mode c.config_mode))
    else err (unknown_function c.function)

-- What `Run` of the role does.
pub data Task : Type 0 where
  upload ejson sql configget : Task
  config : String → Task

-- The settings that `Run` reads from the tree: its own, and whether the others can be read.
pub record Settings (Err : Type 0) : Type 0 where
  pub dao : Result Err (Unit {0})
  pub cli : Result Err Config
  pub cfgsync : Result Err (Unit {0})
  pub process : Result Err (Unit {0})
  pub parser : Result Err (Unit {0})

module _ {Err : Type 0} where
  -- `Run` up to the function that it calls, with the cli's settings.
  unfoldable pub task_of : Settings Err → Config → Result (CliError Err) Task
  task_of s c =
      let with_cfgsync = λ (task : Task). wrap because s.cfgsync >>= λ _. ok task in
      let with_process = wrap because s.process >>= λ _. wrap because s.parser >>= λ _. ok upload in
      if c.function == "ejson"
      then ok ejson
      else if c.function == "sql"
      then ok sql
      else if c.function == "config"
      then with_cfgsync (config c.config_mode)
      else if c.function == "configget"
      then with_cfgsync configget
      else with_process

  unfoldable pub run : Settings Err → Result (CliError Err) Task
  unfolding apply_defaults validate task_of
  run s = wrap because s.dao >>= λ _.
      wrap because s.cli >>= λ cfg. let c = apply_defaults cfg in validate c >>= λ _. task_of s c

module _ {Db R Req Resp Text Err : Type 0} (decode_request : Text → Result Err Req)
    (marshal : Resp → Result Err Text) (write : Text → Option Err)
    (engine : Result Err (Engine Db R Req Resp Err)) where
  -- A result and the database, after a step that may fail.
  abbrev pub if_ok :
      {A B : Type 0}
      → Result Err A
      → Db
      → (A → Result (CliError Err) B × Db)
      → Result (CliError Err) B × Db
  if_ok (err e) db next = (err (because e), db)
  if_ok (ok a) db next = next a

  abbrev pub if_ran :
      {A B : Type 0}
      → Result Err A × Db
      → (A → Result (CliError Err) B × Db)
      → Result (CliError Err) B × Db
  if_ran (answer, db) next = if_ok answer db next

  abbrev pub written : Option Err → Result (CliError Err) (Unit {0})
  written none = ok tt
  written (some e) = err (because e)

  -- The response of the engine, encoded and written.
  unfoldable pub print_response : Resp → Db → Result (CliError Err) (Unit {0}) × Db
  print_response resp db = if_ok (marshal resp) db (λ text. (written (write text), db))

  -- `RunUpload`, after EnsureIndexes
  unfoldable pub run_upload :
      Result Err (Unit {0}) → List String → Db → Result (CliError Err) R × Db
  run_upload indexed lines db = if_ok engine db (λ eng.
      if_ok indexed db (λ _. if_ran (eng.upload lines db) (λ r. (ok r, (eng.upload lines db).1))))

  -- `RunEJSON`
  unfoldable pub run_ejson : Result Err Text → Db → Result (CliError Err) (Unit {0}) × Db
  unfolding print_response
  run_ejson body db = if_ok body db (λ text. if_ok (decode_request text) db (λ req.
      if_ok engine db
        (λ eng. if_ran (eng.ejson req db) (λ resp. print_response resp (eng.ejson req db).1))))

  -- `RunSQL`
  unfoldable pub run_sql : Result Err String → Db → Result (CliError Err) (Unit {0}) × Db
  unfolding print_response
  run_sql body db = if_ok body db (λ query.
      if_ok engine db
        (λ eng. if_ran (eng.sql query db) (λ resp. print_response resp (eng.sql query db).1)))

  -- The publication of `RunConfig`, in a mode; the version is printed.
  unfoldable pub publish_in :
      Engine Db R Req Resp Err → String → Fields → Db → Result (CliError Err) ℤ × Db
  publish_in eng mode doc db =
      if mode == "" || mode == "set"
      then if_ran (eng.publish_config doc db) (λ v. (ok v, (eng.publish_config doc db).1))
      else if mode == "append"
      then if_ran (eng.append_config doc db) (λ v. (ok v, (eng.append_config doc db).1))
      else (err (unknown_config_mode mode), db)

  -- `RunConfig`, with the document as it is decoded
  unfoldable pub run_config : Result Err Fields → String → Db → Result (CliError Err) ℤ × Db
  unfolding publish_in
  run_config body mode db =
      if_ok body db (λ doc. if_ok engine db (λ eng. publish_in eng mode doc db))

  abbrev pub fetched : Option Fields → Db → Result (CliError Err) Fields × Db
  fetched none db = (err not_published, db)
  fetched (some doc) db = (ok doc, db)

  -- `RunConfigGet`
  unfoldable pub run_config_get : Db → Result (CliError Err) Fields × Db
  run_config_get db =
      if_ok engine db (λ eng. if_ok (eng.fetch_config db) db (λ doc. fetched doc db))
