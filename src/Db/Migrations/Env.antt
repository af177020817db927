-- ===== src/Db/Migrations/Env.antt =====
-- backend/app/db/migrations/env.py: how Alembic is given the database, and when it is asked to run
-- the migrations. What `context.run_migrations` does is Alembic's: it keeps its own table of the
-- version, and finds out which statements are pending. Comparing types and the other arguments of
-- `context.configure` serve the generation of migrations alone.
use llm_inference_logger.Prelude.{Bool, true, false, Option, none, some, List, [], ◌∷◌, Text}
use llm_inference_logger.Prelude.Outcome.{Result, err, ok}
use llm_inference_logger.Db.Migrations.{Schema}
use llm_inference_logger.Core.Errors.{Exn}
use llm_inference_logger.Providers.Base.{Ending, finished, raised}
use llm_inference_logger.Core.Config.{Settings, database_url}

-- Alembic's configuration, by its option `sqlalchemy.url`: what setting it and reading it do.
pub record Ini (I : Type 0) : Type 0 where
  pub set_url : Text → I → Result Exn I
  pub get_url : I → Result Exn Text

-- What is done outside the process.
pub data EnvStep : Type 0 where
  emitted : Text → EnvStep
  connected : Text → EnvStep
  disconnected : EnvStep
  disposed : EnvStep

-- The steps, how the script ends, and the schema of the server.
abbrev pub EnvRun : Type 0
EnvRun = List EnvStep × Ending × Schema

-- `reach` is what connecting to an address raises, and `run_migrations` the schema that Alembic
-- leaves in the transaction, or what it raises.
module _ {I : Type 0} (ini : Ini I) (reach : Text → Option Exn)
    (run_migrations : Schema → Result Exn Schema) where
  abbrev pub printed : Result Exn Text → Schema → EnvRun
  printed (err e) schema = ([], raised e, schema)
  printed (ok url) schema = (emitted url ∷ [], finished, schema)

  -- `run_migrations_offline`: Alembic prints the statements.
  unfoldable pub run_migrations_offline : I → Schema → EnvRun
  run_migrations_offline i schema = printed (ini.get_url i) schema

  -- `_do_run_migrations` in its transaction, and the end of the connection. The engine is disposed
  -- of only where nothing was raised.
  abbrev pub migrated : Text → Result Exn Schema → Schema → EnvRun
  migrated url (ok after) schema = (connected url ∷ disconnected ∷ disposed ∷ [], finished, after)
  migrated url (err e) schema = (connected url ∷ disconnected ∷ [], raised e, schema)

  abbrev pub reached : Text → Option Exn → Schema → EnvRun
  reached url (some e) schema = ([], raised e, schema)
  reached url none schema = migrated url (run_migrations schema) schema

  abbrev pub online_at : Result Exn Text → Schema → EnvRun
  online_at (err e) schema = ([], raised e, schema)
  online_at (ok url) schema = reached url (reach url) schema

  -- `run_migrations_online`
  unfoldable pub run_migrations_online : I → Schema → EnvRun
  run_migrations_online i schema = online_at (ini.get_url i) schema

  abbrev pub with_url : Bool → Result Exn I → Schema → EnvRun
  with_url is_offline_mode (err e) schema = ([], raised e, schema)
  with_url true (ok i) schema = run_migrations_offline i schema
  with_url false (ok i) schema = run_migrations_online i schema

  -- The script, from `config.set_main_option` on.
  unfoldable pub run_env : Bool → Settings → I → Schema → EnvRun
  run_env is_offline_mode s i schema =
      with_url is_offline_mode (ini.set_url (database_url s) i) schema
