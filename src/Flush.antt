-- ===== src/Flush.antt =====
-- django_absurd/flush.py.
use django_absurd.Prelude.{
  ℕ, String, Bool, true, false, ◌||◌, List, [], ◌∷◌, ◌++◌, ◌<>◌, map, if◌then◌else◌,
}
use django_absurd.Exceptions.{
  Exception, operational_error, programming_error, improperly_configured, schema_not_installed,
}
use django_absurd.Effect.{Run, pure, throw, try_except, try_finally, ◌>>=◌, ◌>>◌}
use django_absurd.Settings.{resolve_absurd_database}
use django_absurd.Queues.Tables.{queue_table_prefixes, table_name}
use django_absurd.PgCron.Detection.{Environment}
use django_absurd.PgCron.Catalog.{PgCron, flush_database_jobs}
use django_absurd.PgCron.Rows.{Orm}
use django_absurd.PgCron.Reconcile.{teardown_crons}

-- What a flush calls: a connection of its own for the reset of the clock with Django's translation of
-- its errors, the SDK's `list_queues` behind `list_provisioned_queues`, and its `drop_queue`, and the
-- statements that it executes.
pub record Flusher (W : Type 0) : Type 0 where
  pub connect : String → Run W (Unit {0})
  pub reset_clock : String → Run W (Unit {0})
  pub close : Run W (Unit {0})
  pub wrap_database_errors : Exception → Exception
  pub list_provisioned_queues : Run W (List String)
  pub drop_queue : String → Run W (Unit {0})
  pub has_table : String → Run W Bool
  pub truncate : List String → Run W (Unit {0})

-- `(OperationalError, ProgrammingError, ImproperlyConfigured)`
abbrev is_tolerated : Exception → Bool
is_tolerated operational_error = true
is_tolerated (programming_error _) = true
is_tolerated improperly_configured = true
is_tolerated _ = false

abbrev is_schema_absence : Exception → Bool
is_schema_absence schema_not_installed = true
is_schema_absence _ = false

module _ {W : Type 0} (flusher : Flusher W) (env : Environment) (cron : PgCron W)
    (orm : Orm W) where
  open flusher use {
    connect, reset_clock, close, wrap_database_errors, list_provisioned_queues, drop_queue,
    has_table, truncate,
  }

  -- `contextlib.suppress(…)`
  abbrev suppress : (Exception → Bool) → Run W (Unit {0}) → Run W (Unit {0})
  suppress test body = try_except body (λ e. if test e then pure tt else throw e)

  unfoldable pub reset_fake_now : String → Run W (Unit {0})
  reset_fake_now alias =
      try_except (do connect alias; try_finally (reset_clock alias) close)
        (λ e. throw (wrap_database_errors e))

  unfoldable pub truncate_queue_tables : String → Run W (Unit {0})
  truncate_queue_tables queue = do
    present ← has_table ("absurd.i_" <> queue)
    truncate (
        map (table_name queue) queue_table_prefixes
        ++ (if present then ("i_" <> queue) ∷ [] else []))

  unfoldable pub clear_each : (drop_schema : Bool) → List String → Run W (Unit {0})
  clear_each drop_schema [] = pure tt
  clear_each drop_schema (name ∷ names) = do
    if drop_schema then drop_queue name else truncate_queue_tables name
    clear_each drop_schema names

  unfoldable pub clear_provisioned_queues : (drop_schema : Bool) → Run W (List String)
  clear_provisioned_queues drop_schema = do
    names ← list_provisioned_queues
    clear_each drop_schema names
    pure names

  unfoldable pub clear_queues : (drop_schema : Bool) → Run W (Unit {0})
  clear_queues drop_schema =
      suppress (λ e. is_tolerated e || is_schema_absence e)
        (do clear_provisioned_queues drop_schema; pure tt)

  unfoldable pub teardown_owned_pg_cron_jobs : Run W ℕ
  teardown_owned_pg_cron_jobs = teardown_crons env cron orm true

  unfoldable pub drop_pg_cron_state : Run W (Unit {0})
  drop_pg_cron_state = do
    flush_database_jobs env cron (resolve_absurd_database env.backends)
    truncate ("django_absurd_scheduledtask" ∷ [])

  unfoldable pub flush_pg_cron : (drop_schema : Bool) → Run W (Unit {0})
  flush_pg_cron drop_schema =
      if drop_schema then drop_pg_cron_state else (do teardown_owned_pg_cron_jobs; pure tt)

  unfoldable pub flush_absurd_state : (is_installed drop_schema : Bool) → Run W (Unit {0})
  flush_absurd_state is_installed drop_schema = do
    suppress is_tolerated (reset_fake_now (resolve_absurd_database env.backends))
    clear_queues drop_schema
    if is_installed then suppress is_tolerated (flush_pg_cron drop_schema) else pure tt
