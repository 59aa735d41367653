-- ===== src/Deferred.antt =====
-- django_absurd/deferred.py: the name of a deferred enqueue's wrapper, and the handler that runs it.
pub mod Options
pub mod Target
use django_absurd.Prelude.{
  ℕ, String, Bool, true, false, not, Option, none, some, List, [], ◌∷◌, Dict, if◌then◌else◌, ◌==◌,
  ◌<>◌, keep, contains,
}
use django_absurd.Prelude.Dicts
use django_absurd.Exceptions.{key_error, attribute_error, bad_shape}
use django_absurd.Effect.{
  Result, ok, raised, bind_result, Run, lift, pure, try_finally, ◌>>=◌, ◌>>◌,
}
use django_absurd.Json.{Json, text, as_list, as_dict}
use django_absurd.Task.{SpawnKwargs, Task, using}
use django_absurd.Params.{Keywords, field_names, absurd_params, bind, task_object}

abbrev pub defer_name_suffix : String
defer_name_suffix = ":run_after"

-- What `import_string` finds under a path: a task, or some other object.
pub data Imported : Type 0 where
  imported_task : Task → Imported
  imported_value : Imported

-- `spec[key]`, and the conversions that the handler makes of it
abbrev pub item {ℓ} : {A : Type ℓ} → String → (Json → Option A) → Dict Json → Result A
item key convert spec = elim (Dicts.get key spec) [
  | none ↦ raised key_error
  | some value ↦ elim (convert value) [ some a ↦ ok a | none ↦ raised bad_shape ]
]

abbrev pub as_text : Json → Option String
as_text (text s) = some s
as_text _ = none

-- The call that a wrapper makes once it is due.
pub record Call : Type 0 where
  pub args : List Json
  pub kwargs : Dict Json
  pub queue : String
  pub options : SpawnKwargs

unfoldable pub read_call : Dict Json → Result Call
read_call spec = bind_result (item "args" as_list spec) λ args.
    bind_result (item "kwargs" as_dict spec) λ kwargs.
      bind_result (item "queue" as_text spec) λ queue.
        bind_result (item "options" as_dict spec)
          λ options. ok (record { args = args; kwargs = kwargs; queue = queue; options = options })

-- `absurd_params(**options)`: the keywords of a call that is given a dict.
abbrev pub keys_of : Dict Json → List String
keys_of [] = []
keys_of ((k, v) ∷ d) = k ∷ keys_of d

unfoldable pub keywords_of : SpawnKwargs → Keywords
keywords_of options = record {
  max_attempts = Dicts.get "max_attempts" options;
  retry_strategy = Dicts.get "retry_strategy" options;
  cancellation = Dicts.get "cancellation" options;
  headers = Dicts.get "headers" options;
  idempotency_key = Dicts.get "idempotency_key" options;
  unsupported = keep (λ k. not (contains field_names k)) (keys_of options);
}

abbrev pub is_empty : SpawnKwargs → Bool
is_empty [] = true
is_empty (_ ∷ _) = false

-- Django's and Python's code that the handler calls. `validate` is the check of a task that is
-- rebuilt, `enqueue_task` is `Task.enqueue`, for the id of its result.
pub record Runtime (W : Type 0) : Type 0 where
  pub import_string : String → Result Imported
  pub validate : Task → Result (Unit {0})
  pub enqueue_task : Task → List Json → Dict Json → Run W String
  pub close_old_connections : Run W (Unit {0})
  pub fromisoformat : String → Result ℕ
  -- the task context of the SDK
  pub sleep_until : String → ℕ → Run W (Unit {0})
  pub step : String → Run W Json → Run W Json

module _ {W : Type 0} (runtime : Runtime W) where
  open runtime use {
    import_string, validate, enqueue_task, close_old_connections, fromisoformat, sleep_until, step,
  }

  -- The two conditional rebindings of `enqueue_deferred_target`.
  on_queue : String → Task → Result Task
  on_queue queue task =
      if task.queue_name == queue then ok task else using validate (some queue) none task

  with_options : SpawnKwargs → Task → Result Task
  with_options options task =
      if is_empty options
      then ok task
      else bind_result (absurd_params (keywords_of options))
          (λ params. bind validate params (task_object task))

  -- A value that is no task has no `queue_name`.
  unfoldable pub prepare_target : String → Call → Result Task
  unfolding on_queue with_options
  prepare_target target call = bind_result (import_string target) λ found. elim found [
    | imported_task task ↦ bind_result (on_queue call.queue task) (with_options call.options)
    | imported_value ↦ raised attribute_error
  ]

  unfoldable pub enqueue_deferred_target : String → Call → Run W String
  enqueue_deferred_target target call = do
    close_old_connections
    try_finally
        (do task ← lift (prepare_target target call); enqueue_task task call.args call.kwargs)
        close_old_connections

  unfoldable pub deferred_handler : String → Dict Json → Run W Json
  deferred_handler target params = do
    spec ← lift (item "kwargs" as_dict params)
    due_text ← lift (item "due" as_text spec)
    due ← lift (fromisoformat due_text)
    sleep_until "wait-until-due" due
    step ("enqueue:" <> target)
        (do call ← lift (read_call spec); id ← enqueue_deferred_target target call; pure (text id))
