-- ===== src/PgCron/Rows.antt =====
-- The `ScheduledTask` rows of django_absurd/pg_cron/models.py, and django_absurd/pg_cron/signals.py:
-- every write of a row is followed, after its commit, by the write of its job.
use django_absurd.Prelude.{
  ℕ, String, Bool, true, false, ◌||◌, not, Option, none, some, List, [], ◌∷◌, Dict, keep, length,
  ◌==◌, if◌then◌else◌,
}
use django_absurd.Exceptions.{
  Exception, is_psycopg_error, is_database_error, improperly_configured, not_implemented,
}
use django_absurd.Effect.{Run, pure, throw, try_except, ◌>>=◌, ◌>>◌}
use django_absurd.Json.{Json}
use django_absurd.Settings.{resolve_absurd_database, get_absurd_backend}
use django_absurd.PgCron.Detection.{Environment}
use django_absurd.PgCron.Catalog.{PgCron, schedule_job, unschedule_job}

-- A row; `columns` are the nine of the spawn options beside the queue.
pub record ScheduledTask : Type 0 where
  pub name : String
  pub source : String
  pub task : String
  pub queue : String
  pub args : List Json
  pub kwargs : Dict Json
  pub columns : Dict Json
  pub cron : String
  pub enabled : Bool

-- Django's ORM on the table, outside any transaction of a caller: `save` inserts the row of a source
-- and a name or updates it, and tells whether it inserted; `delete_where` deletes rows. Both commit.
-- `format_command` is Postgres's `format` of the stored command.
pub record Orm (W : Type 0) : Type 0 where
  pub rows : W → List ScheduledTask
  pub save : ScheduledTask → Run W Bool
  pub delete_where : (ScheduledTask → Bool) → Run W (Unit {0})
  pub format_command : (alias source name : String) → Run W String
  pub log_warning : Run W (Unit {0})

module _ {W : Type 0} (env : Environment) (cron : PgCron W) (orm : Orm W) where
  open orm use {rows, save, delete_where, format_command, log_warning}

  unfoldable pub schedule_pg_cron_job : ScheduledTask → Run W (Unit {0})
  schedule_pg_cron_job row = elim (get_absurd_backend env.backends) [
    | none ↦ log_warning
    | some backend ↦ (do
      command ← format_command (resolve_absurd_database env.backends) row.source row.name
      schedule_job env cron (resolve_absurd_database env.backends) row.name row.source row.cron
          command row.enabled)
  ]

  unfoldable pub unschedule_pg_cron_job : ScheduledTask → Run W (Unit {0})
  unschedule_pg_cron_job row = elim (get_absurd_backend env.backends) [
    | none ↦ log_warning
    | some backend ↦
        unschedule_job env cron (resolve_absurd_database env.backends) row.name row.source
  ]

  abbrev pub is_improperly_configured : Exception → Bool
  is_improperly_configured improperly_configured = true
  is_improperly_configured _ = false

  -- `(DatabaseError, ImproperlyConfigured, psycopg.Error)`
  abbrev pub is_emission_failure : Exception → Bool
  is_emission_failure e = is_database_error e || is_improperly_configured e || is_psycopg_error e

  unfoldable pub emit_schedule_change : Run W (Unit {0}) → Run W (Unit {0})
  emit_schedule_change catalog_op =
      try_except catalog_op (λ e. if is_emission_failure e then log_warning else throw e)

  unfoldable pub is_foreign_database : Option String → Bool
  is_foreign_database none = false
  is_foreign_database (some using) = not (using == resolve_absurd_database env.backends)

  unfoldable pub reject_cross_database_save : Option String → Run W (Unit {0})
  reject_cross_database_save using =
      if is_foreign_database using then throw not_implemented else pure tt

  -- `row.save(using=…)`: the receiver of `pre_save`, the write, and after its commit that of
  -- `post_save`.
  unfoldable pub save_row : Option String → ScheduledTask → Run W Bool
  save_row using row = do
    reject_cross_database_save using
    created ← save row
    emit_schedule_change (schedule_pg_cron_job row)
    pure created

  -- The receivers of `post_delete`, after the commit of a deletion.
  unfoldable pub unschedule_deleted : Option String → List ScheduledTask → Run W (Unit {0})
  unschedule_deleted using [] = pure tt
  unschedule_deleted using (row ∷ deleted) = do
    if is_foreign_database using then pure tt else emit_schedule_change (unschedule_pg_cron_job row)
    unschedule_deleted using deleted

  -- `filter(…).delete()`, with the number of the rows that it deleted
  unfoldable pub delete_rows : Option String → (ScheduledTask → Bool) → Run W ℕ
  delete_rows using test w =
      let deleted = keep test (rows w) in
      (do delete_where test; unschedule_deleted using deleted; pure (length deleted)) w
