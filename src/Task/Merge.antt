-- ===== src/Task/Merge.antt =====
-- Which layer of spawn params wins, and that rebuilding a task does not change them.
use django_absurd.Prelude.{String, ◌≡◌, refl, Option, none, some, [], or_else, arith}
use django_absurd.Prelude.Dicts
use django_absurd.Prelude.Dicts.{get-update}
use django_absurd.Effect.{Result, ok}
use django_absurd.Task.{
  SpawnKwargs, TaskClass, django_task, absurd_task, Task, build_merged_spawn_options, fold_params,
  field_of, carried, post_init, using, using_fields, fold_class,
}

-- At every field the later layer wins, and the earlier one supplies what the later leaves out.
pub get-build_merged_spawn_options :
    (k : String) (defaults per_call : Option SpawnKwargs)
    → Dicts.get k (build_merged_spawn_options defaults per_call)
      ≡ or_else (field_of k per_call) (field_of k defaults)
unfolding build_merged_spawn_options Dicts.get
get-build_merged_spawn_options k none none = refl
get-build_merged_spawn_options k none (some q) = ground (arith, get-update k [] q)
get-build_merged_spawn_options k (some d) none = ground (arith, get-update k [] d)
get-build_merged_spawn_options k (some d) (some q) =
    ground (arith, get-update k (Dicts.update [] d) q, get-update k [] d)

pub field_of-fold_params :
    (k : String) (defaults own : Option SpawnKwargs)
    → field_of k (fold_params defaults own) ≡ or_else (field_of k own) (field_of k defaults)
unfolding fold_params
field_of-fold_params k none none = refl
field_of-fold_params k none (some q) = get-build_merged_spawn_options k none (some q)
field_of-fold_params k (some d) own = get-build_merged_spawn_options k (some d) own

pub post_init-eq-ok :
    (validate : Task → Result (Unit {0})) (task : Task) {built : Task}
    → post_init validate task ≡ ok built
    → built ≡ record task { class = fold_class task.func_params task.class }
unfolding post_init
post_init-eq-ok validate task e = ground (arith, validate task)

-- Folding the function's params in again changes nothing.
fold_class_twice :
    (k : String) (defaults : Option SpawnKwargs) (c : TaskClass)
    → field_of k (carried defaults (fold_class defaults (fold_class defaults c)))
      ≡ field_of k (carried defaults (fold_class defaults c))
unfolding fold_class
fold_class_twice k defaults django_task = refl
fold_class_twice k defaults (absurd_task own) = ground (
  arith,
  field_of-fold_params k defaults (fold_params defaults own),
  field_of-fold_params k defaults own,
)

-- A task that was built keeps every spawn param when it is routed to another queue or backend.
pub using-keeps_params :
    (validate : Task → Result (Unit {0})) (queue backend : Option String) (k : String) (task : Task)
    {built moved : Task}
    → post_init validate task ≡ ok built
    → using validate queue backend built ≡ ok moved
    → field_of k (carried moved.func_params moved.class)
      ≡ field_of k (carried built.func_params built.class)
unfolding using using_fields
using-keeps_params validate queue backend k task {built} p q =
    let e = post_init-eq-ok validate task p in
    rw (post_init-eq-ok validate (using_fields queue backend built) q, e)
      (fold_class_twice k task.func_params task.class)

-- Where Django accepts every task, a task can be routed anywhere.
pub using-ok :
    (validate : Task → Result (Unit {0})) (queue backend : Option String) (task : Task)
    → ((t : Task) → validate t ≡ ok tt)
    → (moved : Task) × (using validate queue backend task ≡ ok moved)
unfolding using post_init
using-ok validate queue backend task accepts =
    let fields = using_fields queue backend task in
    (record fields { class = fold_class fields.func_params fields.class }, rw (accepts _))
