-- ===== src/Connection.antt =====
-- `validate_backend` and `build_absurd_client` of django_absurd/connection.py.
use django_absurd.Prelude.{String, Bool, Option, none, some, if◌then◌else◌}
use django_absurd.Exceptions.{Exception, improperly_configured}
use django_absurd.Effect.{Run, throw, pure, try_except, try_finally, ◌>>=◌, ◌>>◌}

-- Django's connections: `ensure_connection` opens the one of an alias, and `is_psycopg` tells whether
-- the driver's connection under it is a `psycopg.Connection`.
pub record Connections (W : Type 0) : Type 0 where
  pub ensure_connection : String → Run W (Unit {0})
  pub is_psycopg : String → Run W Bool

module _ {W : Type 0} (connections : Connections W) where
  open connections use {ensure_connection, is_psycopg}

  unfoldable pub validate_backend : String → Run W (Unit {0})
  validate_backend using = do
    ensure_connection using
    psycopg ← is_psycopg using
    if psycopg then pure tt else throw improperly_configured

-- The central pg_cron database: `cron_database_name` is Postgres's `current_setting`, `connect` a
-- connection of its own to a database of an alias's server, `wrap_database_errors` Django's translation
-- of the driver's exceptions.
pub record Central (W : Type 0) : Type 0 where
  pub cron_database_name : String → Run W (Option String)
  pub connect : String → String → Run W (Unit {0})
  pub close : Run W (Unit {0})
  pub wrap_database_errors : Exception → Exception

module _ {W : Type 0} (central : Central W) where
  open central use {cron_database_name, connect, close, wrap_database_errors}

  unfoldable pub resolve_cron_database : String → Run W String
  resolve_cron_database alias = do
    dbname ← cron_database_name alias
    elim dbname [ some name ↦ pure name | none ↦ throw improperly_configured ]

  -- A body that runs on the central connection, which is closed whatever the body does.
  unfoldable pub open_central_connection : {A : Type 0} → String → Run W A → Run W A
  open_central_connection alias body = do
    dbname ← resolve_cron_database alias
    connect alias dbname
    try_finally (try_except body (λ e. throw (wrap_database_errors e))) close
