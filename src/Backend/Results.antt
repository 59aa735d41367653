-- ===== src/Backend/Results.antt =====
-- Reading a result back, of django_absurd/backends.py: `decode_result_id`, the rows that are read,
-- `build_task_result` and `get_result`.
pub mod Laws
use django_absurd.Prelude.{
  ℕ, zero, suc, String, Bool, true, false, ◌&&◌, not, Option, none, some, List, [], ◌∷◌, Dict, ◌<>◌,
  ◌==◌, if◌then◌else◌, or_else, with_default, contains, nat_beq,
}
use django_absurd.Prelude.Dicts
use django_absurd.Prelude.Texts.{ends_with, remove_suffix, rsplit}
use django_absurd.Exceptions.{
  Exception, result_does_not_exist, programming_error, improperly_configured, is_import_error,
  attribute_error,
}
use django_absurd.Effect.{
  Result, ok, raised, bind_result, Run, pure, throw, lift, try_except, ◌>>=◌, ◌>>◌,
}
use django_absurd.Json.{
  Json, null, flag, number, opaque_value, text, arr, obj, nil, cons, end, field, as_list, as_dict,
}
use django_absurd.Task.{Task, using}
use django_absurd.Backend.{
  Backend, TaskResult, TaskError, Status, ready, running, successful, failed,
}
use django_absurd.Deferred.{defer_name_suffix, Imported, imported_task, imported_value, item}

-- `TaskModel` and `RunModel`: the columns that are read of a task and of a run. A nullable column is
-- an option, a moment a number of seconds.
pub record TaskRow : Type 0 where
  pub task_name : String
  pub params : Dict Json
  pub enqueue_at : ℕ
  pub first_started_at : Option ℕ
  pub state : String
  pub completed_payload : Json
  pub cancelled_at : Option ℕ
  pub last_attempt_run : Option String

pub record RunRow : Type 0 where
  pub started_at : Option ℕ
  pub completed_at : Option ℕ
  pub failed_at : Option ℕ
  pub failure_reason : Option (Dict Json)

unfoldable pub decode_result_id : String → Result (String × String)
decode_result_id result_id = elim (rsplit b':' result_id) [
  | some parts ↦ ok parts
  | none ↦ raised (result_does_not_exist result_id)
]

state_to_status : Dict Status
state_to_status =
    ("pending", ready)
    ∷ ("running", running)
    ∷ ("sleeping", running)
    ∷ ("completed", successful)
    ∷ ("failed", failed)
    ∷ ("cancelled", failed)
    ∷ []

unfoldable pub map_state_to_status : String → Status
unfolding state_to_status
map_state_to_status state = with_default ready (Dicts.get state state_to_status)

-- What is false where Python tests it; of the values that the model does not look into, none.
is_falsy : Json → Bool
is_falsy null = true
is_falsy (flag b) = not b
is_falsy (number n) = nat_beq n 0
is_falsy (opaque_value _) = false
is_falsy (text s) = s == ""
is_falsy (arr nil) = true
is_falsy (arr (cons _ _)) = false
is_falsy (obj end) = true
is_falsy (obj (field _ _ _)) = false

-- `reason.get("traceback") or reason.get("message", "")`
traceback_of : Dict Json → Json
unfolding is_falsy
traceback_of reason =
    let message = with_default (text "") (Dicts.get "message" reason) in
    elim (Dicts.get "traceback" reason) [
      | none ↦ message
      | some traceback ↦ if is_falsy traceback then message else traceback
    ]

-- `[TaskError(…)]` for a failed run with a reason (an empty reason is falsy), else no errors
unfoldable pub errors_of : String → Option (Dict Json) → List TaskError
unfolding traceback_of
errors_of state none = []
errors_of state (some []) = []
errors_of state (some (entry ∷ more)) =
    let reason = entry ∷ more in
    if state == "failed"
    then record {
      exception_class_path = with_default (text "") (Dicts.get "name" reason);
      traceback = traceback_of reason;
    }
      ∷ []
    else []

-- `args` and `kwargs` of the caller's call: a wrapper holds them in its own `kwargs`.
unfoldable pub call_of : Bool → Dict Json → Result (List Json × Dict Json)
call_of is_deferred_wrapper params =
    let spec : Result (Dict Json) =
      if is_deferred_wrapper then item "kwargs" as_dict params else ok params in
    bind_result spec λ call.
      bind_result (item "args" as_list call)
        λ args. bind_result (item "kwargs" as_dict call) λ kwargs. ok (args, kwargs)

unfoldable pub status_of : Bool → String → Status
status_of is_deferred_wrapper state =
    if is_deferred_wrapper && (state == "sleeping") then ready else map_state_to_status state

abbrev run_field {ℓ} : {A : Type ℓ} → (RunRow → Option A) → Option RunRow → Option A
run_field column none = none
run_field column (some run) = column run

module _ (import_string : String → Result Imported) (validate : Task → Result (Unit {0})) where
  -- The task of this name, on the queue and the backend that it ran on.
  unfoldable pub task_of : Backend → String → String → Result Task
  task_of backend queue task_name = elim (import_string task_name) [
    | raised e ↦ if is_import_error e then raised improperly_configured else raised e
    | ok imported_value ↦ raised attribute_error
    | ok (imported_task task) ↦
        if (task.queue_name == queue) && (task.backend == backend.alias)
        then ok task
        else using validate (some queue) (some backend.alias) task
  ]

  unfoldable pub build_task_result :
      Backend → String → TaskRow → Option RunRow → List String → Result TaskResult
  build_task_result backend result_id row run worker_ids =
      let is_deferred_wrapper = ends_with defer_name_suffix row.task_name in
      let task_name =
        if is_deferred_wrapper
        then remove_suffix defer_name_suffix row.task_name
        else row.task_name in
      bind_result (decode_result_id result_id) λ id.
        bind_result (call_of is_deferred_wrapper row.params) λ call.
          bind_result (task_of backend id.0 task_name) λ task. ok (record {
            task = task;
            id = result_id;
            status = status_of is_deferred_wrapper row.state;
            enqueued_at = some row.enqueue_at;
            started_at = if is_deferred_wrapper then none else row.first_started_at;
            finished_at =
                or_else (run_field (λ r. r.completed_at) run)
                  (or_else (run_field (λ r. r.failed_at) run) row.cancelled_at);
            last_attempted_at =
                if is_deferred_wrapper then none else run_field (λ r. r.started_at) run;
            args = call.0;
            kwargs = call.1;
            backend = backend.alias;
            errors = errors_of row.state (run_field (λ r. r.failure_reason) run);
            worker_ids = worker_ids;
            return_value = if row.state == "completed" then some row.completed_payload else none;
          })

-- The reads of a queue's tables, each in a savepoint, and the code that they rest on.
pub record Reads (W : Type 0) : Type 0 where
  pub import_string : String → Result Imported
  pub validate : Task → Result (Unit {0})
  pub str_of : Json → String
  -- by database, queue and key: the task, one of its runs, and the workers that claimed a run of it
  pub task_row : String → String → String → Run W (Option TaskRow)
  pub run_row : String → String → String → Run W (Option RunRow)
  pub claimed_by : String → String → String → Run W (List String)

module _ {W : Type 0} (reads : Reads W) where
  open reads use {import_string, validate, str_of, task_row, run_row, claimed_by}

  -- Only the read of the task translates a `ProgrammingError`.
  absent : String → Exception → Exception
  absent result_id (programming_error cause) = result_does_not_exist result_id
  absent result_id e = e

  read_run : String → String → Option String → Run W (Option RunRow)
  read_run database queue none = pure none
  read_run database queue (some run_id) = run_row database queue run_id

  unfoldable pub fetch_task_and_run :
      String → String → String → String → Run W (TaskRow × Option RunRow × List String)
  unfolding absent read_run
  fetch_task_and_run database queue task_id result_id = do
    found ← try_except (task_row database queue task_id) (λ e. throw (absent result_id e))
    row ← lift (elim found [ some r ↦ ok r | none ↦ raised (result_does_not_exist result_id) ])
    run ← read_run database queue row.last_attempt_run
    worker_ids ← claimed_by database queue task_id
    pure (row, run, worker_ids)

  -- `get_result` follows a completed wrapper to the task that it enqueued; `fuel` bounds how many
  -- wrappers are followed, and `none` says that it ran out.
  unfoldable pub get_result : ℕ → Backend → String → Run W (Option TaskResult)
  get_result zero backend result_id = pure none
  get_result (suc fuel) backend result_id = do
    id ← lift (decode_result_id result_id)
    found ←
        (if contains backend.queues id.0
          then fetch_task_and_run backend.database id.0 id.1 result_id
          else throw (result_does_not_exist result_id))
    elim (ends_with defer_name_suffix (found.0).task_name && ((found.0).state == "completed")) [
      | true ↦ get_result fuel backend (str_of (found.0).completed_payload)
      | false ↦ do
        result ←
            lift
              (build_task_result import_string validate backend result_id found.0 found.1 found.2)
        pure (some result)
    ]
