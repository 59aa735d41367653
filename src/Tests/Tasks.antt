-- ===== src/Tests/Tasks.antt =====
-- Tests of tasks.py and params.py.
use django_absurd.Prelude.{String, ◌≡◌, refl, Bool, true, false, none, some, [], ◌∷◌, ◌==◌}
use django_absurd.Prelude.Dicts
use django_absurd.Exceptions.{type_error, routing_keyword, invalid_argument}
use django_absurd.Effect.{Result, ok, raised}
use django_absurd.Json.{number, text}
use django_absurd.Task.{
  Task, SpawnKwargs, absurd_task, build_merged_spawn_options, fold_params, post_init, using,
  using_fields, field_of, carried,
}
use django_absurd.Task.Merge.{get-build_merged_spawn_options, using-keeps_params}
use django_absurd.Task.Warnings.{enqueue_all, enqueue_all-warns_once, count}
use django_absurd.Params.{Keywords, Params, absurd_params, kwargs_of, bind_task}
use django_absurd.Params.Laws.{absurd_params-fields, given_field, is_per_call, bind_task-carries}

abbrev pub accept : Task → Result (Unit {0})
accept _ = ok tt

abbrev three_attempts : SpawnKwargs
three_attempts = ("max_attempts", number 3) ∷ ("headers", text "h") ∷ []

abbrev two_attempts : SpawnKwargs
two_attempts = ("max_attempts", number 2) ∷ []

merged_test :
    build_merged_spawn_options (some three_attempts) (some two_attempts)
    ≡ ("max_attempts", number 2) ∷ ("headers", text "h") ∷ []
unfolding build_merged_spawn_options Dicts.update Dicts.put Dicts.get
merged_test = refl

get-build_merged_spawn_options_example :
    Dicts.get "max_attempts" (build_merged_spawn_options (some three_attempts) (some two_attempts))
    ≡ some (number 2)
unfolding Dicts.get
get-build_merged_spawn_options_example =
    get-build_merged_spawn_options "max_attempts" (some three_attempts) (some two_attempts)

abbrev report : Task
report = record {
  module_path = "app.report";
  queue_name = "default";
  backend = "default";
  run_after = none;
  takes_context = false;
  func_params = some three_attempts;
  class = absurd_task (some two_attempts);
}

abbrev built : Task
built = record report { class = absurd_task (fold_params report.func_params (some two_attempts)) }

abbrev moved : Task
moved = record built {
  queue_name = "reports";
  class =
      absurd_task
        (fold_params report.func_params (fold_params report.func_params (some two_attempts)));
}

using-keeps_params_example :
    field_of "headers" (carried moved.func_params moved.class)
    ≡ field_of "headers" (carried built.func_params built.class)
unfolding post_init using using_fields
using-keeps_params_example =
    using-keeps_params accept (some "reports") none "headers" report {built = built} {moved = moved}
      refl refl

bind_task-carries_example :
    field_of "max_attempts" (
      carried
        (record report {
          class = absurd_task (
              fold_params report.func_params
                (some (build_merged_spawn_options (some two_attempts) (some three_attempts))));
        }).func_params
        (absurd_task (
          fold_params report.func_params
            (some (build_merged_spawn_options (some two_attempts) (some three_attempts))))))
    ≡ some (number 3)
unfolding bind_task post_init Dicts.get
bind_task-carries_example =
    bind_task-carries accept three_attempts report
      (record report {
        class = absurd_task (
            fold_params report.func_params
              (some (build_merged_spawn_options (some two_attempts) (some three_attempts))));
      })
      "max_attempts" refl

-- A backend alias other than "default" is not Absurd's.
abbrev is_absurd : String → Bool
is_absurd alias = alias == "default"

abbrev stray : Task
stray = record report { backend = "other" }

enqueue_all-warns_once_example :
    count "app.report"
      (enqueue_all is_absurd
        (report ∷ stray ∷ stray ∷ [])
        (record { paths = []; logged = [] })).logged
    ≡ 1
enqueue_all-warns_once_example =
    enqueue_all-warns_once is_absurd "app.report" (report ∷ stray ∷ stray ∷ [])

abbrev keyed : Keywords
keyed = record {
  max_attempts = some (number 3);
  retry_strategy = none;
  cancellation = none;
  headers = none;
  idempotency_key = some (text "k");
  unsupported = [];
}

absurd_params-fields_example :
    (params : Params) × (absurd_params keyed ≡ ok params)
    × ((k : String) → Dicts.get k (kwargs_of params) ≡ given_field k keyed)
    × (is_per_call params ≡ true)
absurd_params-fields_example = absurd_params-fields keyed refl

unsupported_test :
    (absurd_params (record keyed { unsupported = "queue" ∷ [] })
      ≡ raised (type_error (routing_keyword "queue")))
    × (absurd_params (record keyed { unsupported = "priority" ∷ [] })
        ≡ raised (type_error (invalid_argument "priority")))
unfolding absurd_params
unsupported_test = (refl, refl)
