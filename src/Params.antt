-- ===== src/Params.antt =====
-- django_absurd/params.py: `absurd_params`, its two results, and what each may be applied to.
pub mod Laws
use django_absurd.Prelude.{
  String, Bool, true, false, ◌||◌, Option, none, some, List, [], ◌∷◌, Dict, is_some, if◌then◌else◌,
  contains, keep, map, ◌==◌,
}
use django_absurd.Prelude.Dicts
use django_absurd.Exceptions.{
  Complaint, routing_keyword, invalid_argument, bind_takes_task, decorator_above_task,
  per_invocation_only, type_error,
}
use django_absurd.Effect.{Result, ok, raised}
use django_absurd.Json.{Json}
use django_absurd.Task.{
  SpawnKwargs, Task, TaskClass, django_task, absurd_task, build_merged_spawn_options, post_init,
}

-- The keyword arguments of a call; `none` is `NOT_SET`.
pub record Keywords : Type 0 where
  pub max_attempts : Option Json
  pub retry_strategy : Option Json
  pub cancellation : Option Json
  pub headers : Option Json
  pub idempotency_key : Option Json
  pub unsupported : List String

-- `AbsurdParams(kwargs)` and `PerCallParams(kwargs)`
pub data Params : Type 0 where
  absurd_params_of per_call_params : SpawnKwargs → Params

abbrev pub per_invocation_field_names : List String
per_invocation_field_names = "headers" ∷ "idempotency_key" ∷ []

abbrev pub field_names : List String
field_names = "max_attempts" ∷ "retry_strategy" ∷ "cancellation" ∷ per_invocation_field_names

abbrev pub routing_keywords : List String
routing_keywords = "queue" ∷ "queue_name" ∷ []

build_unsupported_keyword_message : String → Complaint
build_unsupported_keyword_message name =
    if contains routing_keywords name then routing_keyword name else invalid_argument name

-- `{k: v for k, v in values.items() if v is not NOT_SET}`
unfoldable pub set_values : List (String × Option Json) → SpawnKwargs
set_values [] = []
set_values ((k, none) ∷ values) = set_values values
set_values ((k, some v) ∷ values) = (k, v) ∷ set_values values

-- The five fields under their names.
abbrev pub values_of : Keywords → List (String × Option Json)
values_of given =
    ("max_attempts", given.max_attempts)
    ∷ ("retry_strategy", given.retry_strategy)
    ∷ ("cancellation", given.cancellation)
    ∷ ("headers", given.headers)
    ∷ ("idempotency_key", given.idempotency_key)
    ∷ []

unfoldable pub absurd_params : Keywords → Result Params
unfolding build_unsupported_keyword_message
absurd_params given = elim given.unsupported [
  | name ∷ _ ↦ raised (type_error (build_unsupported_keyword_message name))
  | [] ↦
      let kwargs = set_values (values_of given) in
      if is_some given.headers || is_some given.idempotency_key
      then ok (per_call_params kwargs)
      else ok (absurd_params_of kwargs)
]

abbrev pub kwargs_of : Params → SpawnKwargs
kwargs_of (absurd_params_of kwargs) = kwargs
kwargs_of (per_call_params kwargs) = kwargs

-- What params are applied to: a task, or a function with its attribute `absurd_params`.
pub data Target : Type 0 where
  task_object : Task → Target
  function : Option SpawnKwargs → Target

abbrev pub own_layer : TaskClass → Option SpawnKwargs
own_layer django_task = none
own_layer (absurd_task own) = own

module _ (validate : Task → Result (Unit {0})) where
  -- `ParamsBase.bind`, on a task: every field of Django's `Task` is copied into an `AbsurdTask`.
  unfoldable pub bind_task : SpawnKwargs → Task → Result Task
  bind_task kwargs task = post_init validate (record task {
    class = absurd_task (some (build_merged_spawn_options (own_layer task.class) (some kwargs)));
  })

  unfoldable pub bind : Params → Target → Result Task
  bind params (task_object task) = bind_task (kwargs_of params) task
  bind params (function own) = raised (type_error bind_takes_task)

-- `AbsurdParams.__call__` and `PerCallParams.__call__`, the decorators. The second names the
-- per-invocation fields that are there, in order.
unfoldable pub decorate : Params → Target → Result Target
decorate (absurd_params_of kwargs) (task_object task) = raised (type_error decorator_above_task)
decorate (absurd_params_of kwargs) (function own) =
    ok (function (some (build_merged_spawn_options own (some kwargs))))
decorate (per_call_params kwargs) target = raised (
    type_error
      (per_invocation_only (keep (λ name. Dicts.has_key name kwargs) per_invocation_field_names)))
