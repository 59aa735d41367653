-- ===== src/Commands.antt =====
-- The management commands: django_absurd/management/base.py, and absurd_beat, absurd_worker and
-- absurd_cleanup of django_absurd/management/commands.
pub mod Sync
pub mod Flush
pub mod Confirm
pub mod InSync
pub mod Crons
use django_absurd.Prelude.{
  ℕ, String, Bool, true, false, ◌&&◌, Option, none, some, List, [], ◌∷◌, contains, length, is_empty,
  if◌then◌else◌,
}
use django_absurd.Prelude.Dicts
use django_absurd.Exceptions.{
  Exception, improperly_configured, backend_not_configured, multiple_backends_configured,
  schema_not_installed, queue_not_declared, queue_not_provisioned, command_error, refusal,
  key_error, bad_shape,
}
use django_absurd.Effect.{
  Result, ok, raised, bind_result, Run, pure, throw, lift, try_except, ◌>>=◌, ◌>>◌,
}
use django_absurd.Json.{Json, as_dict}
use django_absurd.Connection.{Connections}
use django_absurd.Backend.{Backend}
use django_absurd.Logging.{PackageLogger, attach_console_handler}
use django_absurd.Cleanup.{QueueCleanup, cleanup_queues}
use django_absurd.Scheduler.{Clockwork, BeatEntry, run_beat}
use django_absurd.Scheduler.Entries.{get_settings_schedules, get_cleanup_schedule}
use django_absurd.Worker.Runs.{run_worker}

-- `CONFIGURATION_ERRORS`
abbrev pub is_configuration_error : Exception → Bool
is_configuration_error improperly_configured = true
is_configuration_error backend_not_configured = true
is_configuration_error multiple_backends_configured = true
is_configuration_error schema_not_installed = true
is_configuration_error (queue_not_declared _ _ _) = true
is_configuration_error (queue_not_provisioned _) = true
is_configuration_error _ = false

-- `resolve_backend`, of the values of `get_absurd_backends()`.
unfoldable pub resolve_backend : List Backend → Result Backend
resolve_backend [] = raised backend_not_configured
resolve_backend (backend ∷ []) = ok backend
resolve_backend (_ ∷ _ ∷ _) = raised multiple_backends_configured

-- `AbsurdCommand.execute`, round a command's `handle`.
unfoldable pub execute : {W A : Type 0} → Run W A → Run W A
execute handle =
    try_except handle (λ e. if is_configuration_error e then throw (command_error e) else throw e)

-- What a command writes to its output, without its wording and glyphs.
pub data Said : Type 0 where
  -- the number of schedules, and the cron of the cleanup
  started_beat : ℕ → Option Json → Said
  started_worker stop_requested stopped_worker : String → Said
  cleaned : QueueCleanup → Said

-- A command's surroundings: `settings.LOGGING`, the package's logger, the output, Python's `bool`,
-- and the registration of the handlers that a stop signal reaches.
pub record Console (W : Type 0) : Type 0 where
  pub logging_config : Option Json
  pub bool : Json → Bool
  pub logger : W → PackageLogger
  pub set_logger : PackageLogger → W → W
  pub say : Said → Run W (Unit {0})
  pub handle_stop_signals : Run W (Unit {0})

-- `cleanup['schedule']` of a `CLEANUP` option that is set.
unfoldable pub cleanup_cron : (Json → Bool) → Option Json → Result (Option Json)
cleanup_cron bool none = ok none
cleanup_cron bool (some cleanup) =
    if bool cleanup
    then elim (as_dict cleanup) [
      | none ↦ raised bad_shape
      | some d ↦ elim (Dicts.get "schedule" d) [ none ↦ raised key_error | some s ↦ ok (some s) ]
    ]
    else ok none

module _ {W : Type 0} (console : Console W) (backends : List Backend) (is_installed : Bool) where
  open console use {logging_config, bool, logger, set_logger, say, handle_stop_signals}

  unfoldable pub attach : Run W (Unit {0})
  attach w = (ok tt, set_logger (attach_console_handler bool logging_config (logger w)) w)

  -- absurd_beat; the backend's scheduler is pg_cron where the pg_cron app is installed.
  unfoldable pub beat : Clockwork W → (rounds : ℕ) → Run W (Option (List BeatEntry))
  beat clockwork rounds = do
    attach
    backend ← lift (resolve_backend backends)
    if is_installed then throw (refusal "BEAT_DISABLED_UNDER_PG_CRON") else pure tt
    handle_stop_signals
    schedules ← lift (get_settings_schedules backend)
    cron ← lift (cleanup_cron bool (Dicts.get "CLEANUP" backend.options))
    say (started_beat (length schedules) cron)
    cleanup ← lift (get_cleanup_schedule backend)
    run_beat clockwork rounds backend.database schedules cleanup

  -- absurd_worker, with its `--queue` and `--beat`; `arun_worker` is the worker's run, which says that
  -- it started and that a stop was requested.
  unfoldable pub worker :
      {A : Type 0}
      → Connections W
      → (is_word : ℕ → Bool) → (queue : String) → (with_beat : Bool)
      → (arun_worker : Backend → Bool → (on_started on_stop_requested : Run W (Unit {0})) → Run W A)
      → Run W (Unit {0})
  worker connections is_word queue with_beat arun_worker = do
    attach
    backend ← lift (resolve_backend backends)
    if with_beat && is_installed then throw (refusal "BEAT_DISABLED_UNDER_PG_CRON") else pure tt
    if contains backend.queues queue
        then pure tt
        else throw (queue_not_declared queue backend.alias backend.queues)
    run_worker connections is_word backend queue
        (arun_worker backend with_beat (say (started_worker queue)) (say (stop_requested queue)))
    say (stopped_worker queue)

  unfoldable pub say_each : List QueueCleanup → Run W (Unit {0})
  say_each [] = pure tt
  say_each (row ∷ rows) = do say (cleaned row); say_each rows

  -- absurd_cleanup: no name stands for every queue.
  unfoldable pub cleanup :
      (database : Result String)
      → (statement : String → Option String → Run W (List QueueCleanup))
      → (log_cleanup_result : List QueueCleanup → Run W (Unit {0})) → (queues : List String)
      → Run W (Unit {0})
  cleanup database statement log_cleanup_result queues = do
    if is_empty backends then throw backend_not_configured else pure tt
    rows ←
        cleanup_queues database statement log_cleanup_result
          (if is_empty queues then none else some queues)
    say_each rows
