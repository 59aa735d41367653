-- ===== src/Tests/Hooks.antt =====
-- Tests of hooks.py, with a logger that raises at every line.
use django_absurd.Prelude.{String, ◌≡◌}
use django_absurd.Exceptions.{import_error, failed_task}
use django_absurd.Effect.{raised, throw}
use django_absurd.Hooks.{Logger, log_task_execution, log_task_execution_transparent}

abbrev broken : Logger (Unit {0})
broken = record {
  debug_spawn = throw import_error;
  spawn_log_failed = throw import_error;
  log_event = λ _. throw import_error;
  event_log_failed = λ _. throw import_error;
}

log_task_execution_transparent_example :
    (log_task_execution broken (throw {A = String} failed_task) tt).0 ≡ raised failed_task
log_task_execution_transparent_example =
    log_task_execution_transparent broken (throw failed_task) tt ((λ _ _ h. cc), λ _ _ h. cc)
