-- ===== src/Backend/Enqueue.antt =====
-- `AbsurdBackend.enqueue` of django_absurd/backends.py: the request that it makes of Absurd, what it
-- makes of a failed one, and the result that it returns.
use django_absurd.Prelude.{ℕ, String, Bool, none, some, List, [], ◌∷◌, Dict, ◌<>◌, if◌then◌else◌}
use django_absurd.Prelude.Dicts
use django_absurd.Exceptions.{
  Exception, undefined_table, undefined_function, invalid_schema_name, queue_not_declared,
  queue_not_provisioned, schema_not_installed,
}
use django_absurd.Effect.{Run, pure, throw, try_except, ◌>>=◌, ◌>>◌}
use django_absurd.Json.{Json, text, object, array}
use django_absurd.Task.{
  Moment, naive, aware, Task, SpawnKwargs, build_merged_spawn_options, carried,
}
use django_absurd.Backend.{Backend, TaskResult, ready, get_declared_queues}
use django_absurd.Connection.{Connections, validate_backend}
use django_absurd.Deferred.{defer_name_suffix}
use django_absurd.Dispatch.{send_task_signal}
use django_absurd.Queues.Tables.{names_a_queue_table}

-- The arguments of `client.spawn`.
pub record Request : Type 0 where
  pub name : String
  pub params : Json
  pub queue : String
  pub options : SpawnKwargs

-- Django's, Python's and the SDK's code that `enqueue` calls.
pub record Services (W : Type 0) : Type 0 where
  pub connections : Connections W
  -- `BaseTaskBackend.validate_task`
  pub validate_task : Backend → Task → Run W (Unit {0})
  -- `transaction.atomic(savepoint=True)` round the spawn, and the spawn, which returns the task's id
  pub atomic : Run W String → Run W String
  pub spawn : Request → Run W String
  pub now : Run W ℕ
  pub send_enqueued : TaskResult → Run W (Unit {0})
  pub log_exception : Exception → Run W (Unit {0})
  -- `timezone.make_aware(moment).astimezone(dt.UTC)` of a local reading, `isoformat`, and the text of
  -- a value in an f-string
  pub local_to_utc : ℕ → ℕ
  pub isoformat : ℕ → String
  pub str_of : Json → String
  pub is_word : ℕ → Bool

module _ {W : Type 0} (services : Services W) where
  open services use {
    connections, validate_task, atomic, spawn, now, send_enqueued, log_exception, local_to_utc,
    isoformat, str_of, is_word,
  }

  unfoldable pub normalize_to_utc : Moment → ℕ
  normalize_to_utc (naive local) = local_to_utc local
  normalize_to_utc (aware instant) = instant

  -- The caller's options: the task's own, and the backend's ceiling where the task has none.
  unfoldable pub spawn_options : Backend → Task → SpawnKwargs
  spawn_options backend task =
      Dicts.setdefault "max_attempts" backend.default_max_attempts
        (build_merged_spawn_options (carried task.func_params task.class) none)

  -- The wrapper gets its own `max_attempts`, and a key derived from the caller's, if there is one.
  unfoldable pub wrapper_options : Backend → SpawnKwargs → SpawnKwargs
  wrapper_options backend merged =
      let options : SpawnKwargs = ("max_attempts", backend.default_max_attempts) ∷ [] in
      elim (Dicts.get "idempotency_key" merged) [
        | some key ↦ Dicts.put "idempotency_key" (text (str_of key <> defer_name_suffix)) options
        | none ↦ options
      ]

  unfoldable pub wrapper_spec : Task → List Json → Dict Json → SpawnKwargs → Moment → Dict Json
  unfolding normalize_to_utc
  wrapper_spec task args kwargs merged moment =
      ("args", array args)
      ∷ ("kwargs", object kwargs)
      ∷ ("queue", text task.queue_name)
      ∷ ("options", object merged)
      ∷ ("due", text (isoformat (normalize_to_utc moment)))
      ∷ []

  unfoldable pub build_request : Backend → Task → List Json → Dict Json → Request
  build_request backend task args kwargs =
      let merged = spawn_options backend task in
      elim task.run_after [
        | some moment ↦ record {
          name = task.module_path <> defer_name_suffix;
          params = object (
              ("args", array [])
              ∷ ("kwargs", object (wrapper_spec task args kwargs merged moment))
              ∷ []);
          queue = task.queue_name;
          options = wrapper_options backend merged;
        }
        | none ↦ record {
          name = task.module_path;
          params = object (("args", array args) ∷ ("kwargs", object kwargs) ∷ []);
          queue = task.queue_name;
          options = merged;
        }
      ]

  -- What the `except` clause raises in the place of an exception of the spawn.
  unfoldable pub classify_spawn_error : Backend → String → Exception → Exception
  classify_spawn_error backend queue (undefined_table message) =
      if Dicts.has_key queue (get_declared_queues backend)
      then (if names_a_queue_table is_word message queue
          then queue_not_provisioned queue
          else undefined_table message)
      else queue_not_declared queue backend.alias backend.queues
  classify_spawn_error backend queue undefined_function =
      if Dicts.has_key queue (get_declared_queues backend)
      then schema_not_installed
      else queue_not_declared queue backend.alias backend.queues
  classify_spawn_error backend queue invalid_schema_name =
      if Dicts.has_key queue (get_declared_queues backend)
      then schema_not_installed
      else queue_not_declared queue backend.alias backend.queues
  classify_spawn_error backend queue e = e

  unfoldable pub ready_result : Backend → Task → List Json → Dict Json → String → ℕ → TaskResult
  ready_result backend task args kwargs task_id moment = record {
    task = task;
    id = task.queue_name <> ":" <> task_id;
    status = ready;
    enqueued_at = some moment;
    started_at = none;
    finished_at = none;
    last_attempted_at = none;
    args = args;
    kwargs = kwargs;
    backend = backend.alias;
    errors = [];
    worker_ids = [];
    return_value = none;
  }

  unfoldable pub enqueue : Backend → Task → List Json → Dict Json → Run W TaskResult
  enqueue backend task args kwargs = do
    validate_task backend task
    validate_backend connections backend.database
    task_id ←
        try_except (atomic (spawn (build_request backend task args kwargs)))
          (λ e. throw (classify_spawn_error backend task.queue_name e))
    moment ← now
    let result = ready_result backend task args kwargs task_id moment
    send_task_signal log_exception (send_enqueued result)
    pure result
