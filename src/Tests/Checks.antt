-- ===== src/Tests/Checks.antt =====
-- Tests of the system checks.
use django_absurd.Prelude.{
  ◌≡◌, ◌≢◌, refl, subst, true, some, [], ◌∷◌, All, Dict, ◌==◌, if◌then◌else◌,
}
use django_absurd.Prelude.{contains, List, String}
use django_absurd.Json.{as_dict}
use django_absurd.Queues.{mutable_options}
use django_absurd.Checks.Settings.{validate_queue_policy, storage_mode_errors}
use django_absurd.Checks.Policies.{cleanup_keys, validate_queue_policy-mutable_options}
use django_absurd.Tests.Databases.{held}
use django_absurd.Prelude.Dicts
use django_absurd.Exceptions.{import_error}
use django_absurd.Effect.{ok, raised}
use django_absurd.Json.{Json, null, text, number, array, object}
use django_absurd.Deferred.{imported_task}
use django_absurd.Backend.{get_declared_queues}
use django_absurd.Tests.Backends.{report}
use django_absurd.Checks.{
  Configured, Tools, beat, check_absurd_schedule_config, backend_schedule_errors,
  validate_schedules, validate_schedule, validate_spec, reported, cron_errors, value_errors,
  queue_errors, key_errors, is_valid_beat_cron,
}
use django_absurd.Validators.{
  validate_task_path, validate_serializable, validate_args_is_list, validate_kwargs_is_dict,
}
use django_absurd.Checks.Entries.{RefusesEmpty, some-injective}
use django_absurd.Checks.Schedules.{Filled, AllFilled, Loads, check_absurd_schedule_config-Loads}

abbrev tools : Tools
tools = record {
  import_string =
      λ path. if path == "app.report" then ok (imported_task report) else raised import_error;
  is_valid_cron = λ cron. cron == "0 3 * * *";
  strip = λ s. s;
  is_serializable = λ _. true;
}

abbrev nightly : Dict Json
nightly =
    ("task", text "app.report") ∷ ("cron", text "0 3 * * *") ∷ ("args", array (number 1 ∷ [])) ∷ []

abbrev configured : Configured
configured = record {
  backend = record {
    alias = "default";
    options = ("SCHEDULE", object (("nightly", object nightly) ∷ [])) ∷ [];
    queues = "reports" ∷ [];
    database = "default";
    default_max_attempts = number 5;
  };
  has_top_level_queues = true;
  scheduler = beat;
}

accepted : check_absurd_schedule_config tools (configured ∷ []) ≡ ok []
unfolding check_absurd_schedule_config backend_schedule_errors validate_schedules validate_schedule
    validate_spec reported cron_errors value_errors queue_errors key_errors is_valid_beat_cron
    validate_task_path validate_serializable validate_args_is_list validate_kwargs_is_dict Dicts.get
    get_declared_queues
accepted = refl

tools-RefusesEmpty : RefusesEmpty tools
tools-RefusesEmpty = record { no_task = λ task h. cc; no_cron = refl; blank = refl }

filled : Filled (object nightly)
unfolding Dicts.get
filled d h =
    subst (λ d. (Dicts.get "args" d ≢ some null) × (Dicts.get "kwargs" d ≢ some null))
      (some-injective h) ((λ e. cc), λ e. cc)

all_filled : AllFilled configured
unfolding Dicts.get
all_filled specs h = subst (All (λ entry. Filled entry.1)) (some-injective h) (filled, tt)

check_absurd_schedule_config-Loads_example : All (Loads) (configured ∷ [])
check_absurd_schedule_config-Loads_example =
    check_absurd_schedule_config-Loads tools tools-RefusesEmpty (configured ∷ []) accepted
      (all_filled, tt)

abbrev option_keys : List String
option_keys = "storage_mode" ∷ "cleanup_ttl" ∷ "cleanup_limit" ∷ "partition_lookahead" ∷ []

abbrev policy : Dict Json
policy = ("storage_mode", text "unpartitioned") ∷ ("cleanup_limit", number 5) ∷ []

validate_queue_policy-mutable_options_example :
    (opts : Dict Json) × (as_dict (object policy) ≡ some opts)
    × All (λ o. contains cleanup_keys o.0 ≡ true) (mutable_options held opts)
unfolding validate_queue_policy storage_mode_errors Dicts.get
validate_queue_policy-mutable_options_example =
    validate_queue_policy-mutable_options held option_keys ("unpartitioned" ∷ "partitioned" ∷ [])
      "reports" (object policy) refl
