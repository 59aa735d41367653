-- ===== src/Worker/Handler.antt =====
-- The handler that the worker runs for a claimed task, of django_absurd/worker.py: Django's signals
-- round the task's function.
pub mod Signals
use django_absurd.Prelude.{
  ℕ, zero, suc, String, Bool, true, false, ◌&&◌, not, Option, none, some, List, [], ◌∷◌, ◌++◌, Dict,
  ◌<>◌, ◌==◌, if◌then◌else◌, leb, is_some, ◌≡◌,
}
use django_absurd.Exceptions.{Exception, is_exception, is_sdk_control}
use django_absurd.Effect.{
  Result, ok, raised, Run, pure, throw, lift, try_except, try_finally, ◌>>=◌, ◌>>◌,
}
use django_absurd.Json.{Json}
use django_absurd.Task.{Task, using}
use django_absurd.Backend.{Backend, TaskResult, TaskError, running, successful, failed}
use django_absurd.Dispatch.{send_task_signal}

-- The claimed row of the running task, as far as the handler reads it.
pub record Claimed : Type 0 where
  pub task_id : String
  pub attempt : ℕ
  pub max_attempts : Option ℕ

pub data Signal : Type 0 where
  task_started task_finished : Signal

-- `["absurd"] * attempt`
abbrev pub repeat : ℕ → List String
repeat zero = []
repeat (suc n) = "absurd" ∷ repeat n

-- Django's and Python's code that the handler calls.
pub record Host (W : Type 0) : Type 0 where
  pub validate : Task → Result (Unit {0})
  pub now : W → ℕ
  pub is_coroutine : Task → Bool
  -- the task's function, with the context's result where it takes one, and its arguments
  pub func : Task → Option TaskResult → List Json → Dict Json → Run W Json
  pub close_old_connections : Run W (Unit {0})
  pub normalize_json : Json → Result Json
  pub task_error : Exception → TaskError
  -- the receivers of a signal, and `logger.exception`
  pub send : Signal → TaskResult → Run W (Unit {0})
  pub log_exception : Exception → Run W (Unit {0})

unfoldable pub is_terminal_attempt : ℕ → Option ℕ → Bool
is_terminal_attempt attempt none = false
is_terminal_attempt attempt (some max_attempts) = leb max_attempts attempt

module _ {W : Type 0} (host : Host W) (backend : Backend) (queue : String) where
  open host use {
    validate, now, is_coroutine, func, close_old_connections, normalize_json, task_error, send,
    log_exception,
  }

  -- The task on the worker's own queue and backend.
  on_worker : Task → Result Task
  on_worker task =
      if (task.queue_name == queue) && (task.backend == backend.alias)
      then ok task
      else using validate (some queue) (some backend.alias) task

  abbrev pub running_result : Task → Claimed → List Json → Dict Json → (moment : ℕ) → TaskResult
  running_result own claimed args kwargs moment = record {
    task = own;
    id = queue <> ":" <> claimed.task_id;
    status = running;
    enqueued_at = none;
    started_at = some moment;
    finished_at = none;
    last_attempted_at = some moment;
    args = args;
    kwargs = kwargs;
    backend = backend.alias;
    errors = [];
    worker_ids = repeat claimed.attempt;
    return_value = none;
  }

  unfoldable pub build_running_task_result :
      Task → Claimed → List Json → Dict Json → Run W TaskResult
  unfolding on_worker
  build_running_task_result task claimed args kwargs w =
      (do own ← lift (on_worker task); pure (running_result own claimed args kwargs (now w))) w

  abbrev emit : Signal → TaskResult → Run W (Unit {0})
  emit signal result = send_task_signal log_exception (send signal result)

  unfoldable pub mark_task_result_failed : Exception → TaskResult → W → TaskResult
  mark_task_result_failed e result w = record result {
    status = failed;
    finished_at = some (now w);
    errors = result.errors ++ task_error e ∷ [];
  }

  unfoldable pub send_finished_if_terminal : Claimed → Exception → TaskResult → Run W (Unit {0})
  unfolding mark_task_result_failed
  send_finished_if_terminal claimed e result w =
      if is_terminal_attempt claimed.attempt claimed.max_attempts
      then emit task_finished (mark_task_result_failed e result w) w
      else pure tt w

  -- A coroutine function runs on the loop; any other between two closings of stale connections.
  unfoldable pub run_task : Task → TaskResult → List Json → Dict Json → Run W Json
  run_task task result args kwargs =
      let context = if task.takes_context then some result else none in
      if is_coroutine task then func task context args kwargs else (do
        close_old_connections
        try_finally (func task context args kwargs) close_old_connections)

  -- The clauses of the `try`: what Absurd itself decided is only passed on, and any other
  -- `Exception` is reported if the attempt was the last.
  unfoldable pub finish : Claimed → TaskResult → Result Json → Run W Json
  unfolding send_finished_if_terminal
  finish claimed result (raised e) =
      if is_sdk_control e
      then throw e
      else if is_exception e
      then (do send_finished_if_terminal claimed e result; throw e)
      else throw e
  finish claimed result (ok value) = λ w.
      (do
        stored ← lift (normalize_json value)
        emit task_finished (record result {
          status = successful;
          finished_at = some (now w);
          return_value = some stored;
        })
        pure value)
        w

  unfoldable pub handle : Task → Claimed → List Json → Dict Json → Run W Json
  unfolding build_running_task_result run_task finish
  handle task claimed args kwargs = do
    result ← build_running_task_result task claimed args kwargs
    emit task_started result
    λ w. let (outcome, w') = run_task task result args kwargs w in finish claimed result outcome w'
