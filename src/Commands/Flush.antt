-- ===== src/Commands/Flush.antt =====
-- absurd_flush of django_absurd/management/commands.
use django_absurd.Prelude.{
  ℕ, String, Bool, true, false, ◌&&◌, not, List, ◌==◌, if◌then◌else◌, is_empty,
}
use django_absurd.Exceptions.{Exception, backend_not_configured, eof_error}
use django_absurd.Effect.{Run, pure, throw, try_except, ◌>>=◌, ◌>>◌}
use django_absurd.Backend.{Backend}
use django_absurd.PgCron.Detection.{Environment}
use django_absurd.PgCron.Catalog.{PgCron}
use django_absurd.PgCron.Rows.{Orm}
use django_absurd.Flush.{Flusher, clear_provisioned_queues, teardown_owned_pg_cron_jobs}

pub data Said : Type 0 where
  no_queues_to_flush flush_cancelled pg_cron_warning : Said
  will_drop dropped : List String → Said
  unscheduled : (schedule_rows : ℕ) → Said
  -- whether the pg_cron jobs are to be synced again as well
  provision_again : Bool → Said

abbrev pub is_eof : Exception → Bool
is_eof eof_error = true
is_eof _ = false

-- `say` writes a line, and `input` asks for the confirmation.
module _ {W : Type 0} (flusher : Flusher W) (env : Environment) (cron : PgCron W) (orm : Orm W)
    (is_installed : Bool) (say : Said → Run W (Unit {0})) (input : Run W String) where
  open flusher use {list_provisioned_queues}

  unfoldable pub confirmation : (interactive : Bool) → List String → Run W String
  confirmation false queues = pure "yes"
  confirmation true queues = do
    if is_empty queues then pure tt else say (will_drop queues)
    if is_installed then say pg_cron_warning else pure tt
    try_except input (λ e. if is_eof e then pure "no" else throw e)

  unfoldable pub unschedule_all : Run W (Unit {0})
  unschedule_all = do
    removed ← teardown_owned_pg_cron_jobs flusher env cron orm
    say (unscheduled removed)

  unfoldable pub drop_all : Run W (Unit {0})
  drop_all = do names ← clear_provisioned_queues flusher env cron orm true; say (dropped names)

  unfoldable pub flush_confirmed : List String → Run W (Unit {0})
  flush_confirmed queues = do
    if is_installed then unschedule_all else pure tt
    if is_empty queues then pure tt else drop_all
    say (provision_again is_installed)

  unfoldable pub flush_queues : (interactive : Bool) → List String → Run W (Unit {0})
  flush_queues interactive queues = do
    confirm ← confirmation interactive queues
    if confirm == "yes" then flush_confirmed queues else say flush_cancelled

  unfoldable pub handle : List Backend → (interactive : Bool) → Run W (Unit {0})
  handle backends interactive = do
    if is_empty backends then throw backend_not_configured else pure tt
    queues ← list_provisioned_queues
    if is_empty queues && not is_installed
        then say no_queues_to_flush
        else flush_queues interactive queues
