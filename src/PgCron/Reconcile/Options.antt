-- ===== src/PgCron/Reconcile/Options.antt =====
-- A schedule's options are those of an enqueue, for a task as its definition left it.
use django_absurd.Prelude.{String, ◌≡◌, Option, none, some, arith, or_else, ◌==◌, if◌then◌else◌}
use django_absurd.Prelude.Dicts
use django_absurd.Prelude.Dicts.{get-setdefault}
use django_absurd.Task.{Task, SpawnKwargs, field_of, build_merged_spawn_options}
use django_absurd.Task.Merge.{get-build_merged_spawn_options}
use django_absurd.Backend.{Backend}
use django_absurd.Backend.Enqueue.{Services, spawn_options}
use django_absurd.Backend.Deferral.{IsAbsurdTask, get-spawn_options_of_absurd}
use django_absurd.PgCron.Reconcile.{scheduled_options}

get-scheduled_options :
    (backend : Backend) (task : Task) (k : String)
    → Dicts.get k (scheduled_options backend task)
      ≡ or_else
          (field_of k task.func_params)
          (if "max_attempts" == k then some backend.default_max_attempts else none)
unfolding scheduled_options
get-scheduled_options backend task k = ground (
  arith,
  get-setdefault "max_attempts" k backend.default_max_attempts
      (build_merged_spawn_options task.func_params none),
  get-build_merged_spawn_options k task.func_params none,
)

-- For a task of this app's class, built from its function's params and `own` ones that were bound to
-- it, the options of an enqueue are those of its schedule at each field that `own` does not set; the
-- schedule does not read `own`.
pub spawn_options-scheduled_options :
    {W : Type 0} (services : Services W) (backend : Backend) (task : Task)
    (own : Option SpawnKwargs) (k : String)
    → IsAbsurdTask task own
    → Dicts.get k (spawn_options services backend task)
      ≡ or_else (field_of k own) (Dicts.get k (scheduled_options backend task))
spawn_options-scheduled_options services backend task own k built = ground (
  arith,
  get-spawn_options_of_absurd services backend task own k built,
  get-scheduled_options backend task k,
)
