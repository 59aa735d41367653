-- ===== src/Commands/Crons.antt =====
-- absurd_sync_crons of django_absurd/pg_cron/management/commands.
use django_absurd.Prelude.{ℕ, String, Bool, true, false, ◌||◌, List, ◌==◌, if◌then◌else◌}
use django_absurd.Exceptions.{Exception, key_error, refusal}
use django_absurd.Effect.{Run, pure, throw, lift, try_except, ◌>>=◌, ◌>>◌}
use django_absurd.Backend.{Backend}
use django_absurd.Commands.{resolve_backend}
use django_absurd.PgCron.Detection.{Environment, is_pg_cron_inert}
use django_absurd.PgCron.Catalog.{PgCron}
use django_absurd.PgCron.Rows.{Orm}
use django_absurd.PgCron.Reconcile.{sync_crons, sync_admin_crons, teardown_crons}
use django_absurd.Deferred.{Imported}
use django_absurd.Effect.{Result}
use django_absurd.Task.{SpawnKwargs}
use django_absurd.Json.{Json}
use django_absurd.Prelude.{Dict}
use django_absurd.Commands.Flush.{is_eof}

pub data Said : Type 0 where
  aborted : Said
  torn_down : (removed : ℕ) → Said
  synced : (created pruned : ℕ) → Said

abbrev pub is_key_error : Exception → Bool
is_key_error key_error = true
is_key_error _ = false

-- `normalized` is `answer.strip().lower()`.
module _ {W : Type 0} (import_string : String → Result Imported)
    (normalize : SpawnKwargs → Result (Dict Json)) (env : Environment) (cron : PgCron W)
    (orm : Orm W) (say : Said → Run W (Unit {0})) (input : Run W String)
    (normalized : String → String) where
  unfoldable pub confirm_teardown : Run W Bool
  confirm_teardown =
      try_except (do answer ← input; pure (normalized answer == "y" || normalized answer == "yes"))
        (λ e. if is_eof e then pure false else throw e)

  unfoldable pub tear_down : Run W (Unit {0})
  tear_down = do removed ← teardown_crons env cron orm true; say (torn_down removed)

  unfoldable pub sync : Backend → Run W (Unit {0})
  sync backend = do
    (created, pruned) ←
        try_except
          (do
            counts ← sync_crons import_string normalize env cron orm backend
            sync_admin_crons env cron orm
            pure counts)
          (λ e. if is_key_error e then throw (refusal "MISSING_KEY") else throw e)
    say (synced created pruned)

  unfoldable pub handle : List Backend → (teardown no_input : Bool) → Run W (Unit {0})
  handle backends teardown no_input = do
    backend ← lift (resolve_backend backends)
    if is_pg_cron_inert env backend.database then throw (refusal "INERT") else pure tt
    if teardown
        then (do
          confirmed ← if no_input then pure true else confirm_teardown
          if confirmed then tear_down else say aborted)
        else sync backend
