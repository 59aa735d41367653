-- ===== src/Task.antt =====
-- django_absurd/tasks.py: a task, the spawn params that it carries, and the warning about params
-- that no backend will read. `copy.deepcopy` is the identity on values that nothing mutates.
pub mod Merge
pub mod Warnings
use django_absurd.Prelude.{
  ℕ, String, Bool, true, false, ◌||◌, Option, none, some, List, [], ◌∷◌, Dict, is_some,
  if◌then◌else◌, ◌≡◌,
}
use django_absurd.Prelude.Dicts
use django_absurd.Effect.{Result, ok, bind_result}
use django_absurd.Json.{Json}

-- A datetime: a naive one by its local reading, an aware one by its instant in UTC, in seconds.
pub data Moment : Type 0 where
  naive aware : ℕ → Moment

-- Any subset of `max_attempts`, `retry_strategy`, `cancellation`, `headers`, `idempotency_key`.
abbrev pub SpawnKwargs : Type 0
SpawnKwargs = Dict Json

-- The class of a task object: Django's `Task`, or `AbsurdTask` with its field `absurd_params`.
pub data TaskClass : Type 0 where
  django_task : TaskClass
  absurd_task : Option SpawnKwargs → TaskClass

pub record Task : Type 0 where
  pub module_path : String
  pub queue_name : String
  pub backend : String
  pub run_after : Option Moment
  pub takes_context : Bool
  -- `getattr(func, "absurd_params", None)`
  pub func_params : Option SpawnKwargs
  pub class : TaskClass

add_layer : SpawnKwargs → Option SpawnKwargs → SpawnKwargs
add_layer merged none = merged
add_layer merged (some layer) = Dicts.update merged layer

unfoldable pub build_merged_spawn_options : Option SpawnKwargs → Option SpawnKwargs → SpawnKwargs
unfolding add_layer
build_merged_spawn_options defaults per_call = add_layer (add_layer [] defaults) per_call

-- The params that `AbsurdTask.__post_init__` leaves in the field.
unfoldable pub fold_params : Option SpawnKwargs → Option SpawnKwargs → Option SpawnKwargs
fold_params defaults own =
    if is_some defaults || is_some own then some (build_merged_spawn_options defaults own) else own

unfoldable pub fold_class : Option SpawnKwargs → TaskClass → TaskClass
fold_class defaults django_task = django_task
fold_class defaults (absurd_task own) = absurd_task (fold_params defaults own)

-- `__post_init__`; `validate` is the `super().__post_init__()` of Django's `Task`, which may refuse.
unfoldable pub post_init : (Task → Result (Unit {0})) → Task → Result Task
unfolding fold_class
post_init validate task =
    let built = record task { class = fold_class task.func_params task.class } in
    bind_result (validate built) (λ _. ok built)

-- `task.using(queue_name=…, backend=…)`, which is `dataclasses.replace`: the fields are copied, then
-- `__post_init__` runs. `none` leaves the field as it is.
abbrev pub or_field : Option String → String → String
or_field none old = old
or_field (some new) old = new

unfoldable pub using_fields : Option String → Option String → Task → Task
using_fields queue backend task = record task {
  queue_name = or_field queue task.queue_name;
  backend = or_field backend task.backend;
}

unfoldable pub using :
    (Task → Result (Unit {0})) → Option String → Option String → Task → Result Task
using validate queue backend task = post_init validate (using_fields queue backend task)

-- The value of a field in a layer that may be absent.
abbrev pub field_of : String → Option SpawnKwargs → Option Json
field_of k none = none
field_of k (some layer) = Dicts.get k layer

-- The params that a task of either class spawns with: an `AbsurdTask` its own, a plain one its
-- function's.
abbrev pub carried : Option SpawnKwargs → TaskClass → Option SpawnKwargs
carried defaults django_task = defaults
carried defaults (absurd_task own) = own
