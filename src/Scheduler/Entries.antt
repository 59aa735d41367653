-- ===== src/Scheduler/Entries.antt =====
-- `get_settings_schedules` and `get_cleanup_schedule` of django_absurd/scheduler.py: the schedules that
-- the settings declare.
use django_absurd.Prelude.{String, Option, none, some, List, [], ◌∷◌, Dict, ◌==◌, if◌then◌else◌}
use django_absurd.Prelude.Dicts
use django_absurd.Exceptions.{key_error, attribute_error, bad_shape}
use django_absurd.Effect.{Result, ok, raised, bind_result}
use django_absurd.Json.{Json, null, text, as_dict, as_list}
use django_absurd.Backend.{Backend}
use django_absurd.Scheduler.{Schedule}

-- `spec[name]` or `spec.get(name, …)` of a text, a list and a dict. A value of another shape makes a
-- `Schedule` that no later call takes, and is a `bad_shape` here.
abbrev pub text_item : String → Dict Json → Result String
text_item name spec = elim (Dicts.get name spec) [
  | none ↦ raised key_error
  | some (text s) ↦ ok s
  | some _ ↦ raised bad_shape
]

-- `spec.get("queue") or None`
abbrev pub queue_item : Dict Json → Result (Option String)
queue_item spec = elim (Dicts.get "queue" spec) [
  | none ↦ ok none
  | some null ↦ ok none
  | some (text s) ↦ ok (if s == "" then none else some s)
  | some _ ↦ raised bad_shape
]

abbrev pub list_item : Dict Json → Result (List Json)
list_item spec = elim (Dicts.get "args" spec) [
  | none ↦ ok []
  | some value ↦ elim (as_list value) [ none ↦ raised bad_shape | some xs ↦ ok xs ]
]

abbrev pub dict_item : Dict Json → Result (Dict Json)
dict_item spec = elim (Dicts.get "kwargs" spec) [
  | none ↦ ok []
  | some value ↦ elim (as_dict value) [ none ↦ raised bad_shape | some d ↦ ok d ]
]

unfoldable pub schedule_of : String → String → Dict Json → Result Schedule
schedule_of alias name spec = bind_result (text_item "task" spec) λ task.
    bind_result (text_item "cron" spec) λ cron. bind_result (queue_item spec) λ queue.
      bind_result (list_item spec) λ args. bind_result (dict_item spec) λ kwargs. ok (record {
        name = name;
        task = task;
        cron = cron;
        queue = queue;
        args = args;
        kwargs = kwargs;
        backend = alias;
      })

unfoldable pub schedules_of : String → Dict Json → Result (List Schedule)
schedules_of alias [] = ok []
schedules_of alias ((name, spec) ∷ specs) =
    let rest = schedules_of alias specs in
    elim (as_dict spec) [
      | none ↦ raised bad_shape
      | some d ↦ bind_result (schedule_of alias name d) (λ s. bind_result rest (λ ss. ok (s ∷ ss)))
    ]

unfoldable pub get_settings_schedules : Backend → Result (List Schedule)
get_settings_schedules backend = elim (Dicts.get "SCHEDULE" backend.options) [
  | none ↦ ok []
  | some schedule_map ↦ elim (as_dict schedule_map) [
    | none ↦ raised attribute_error
    | some specs ↦ schedules_of backend.alias specs
  ]
]

-- `options.get("CLEANUP") or {}`, and `cleanup.get("schedule") or None` of that
unfoldable pub get_cleanup_schedule : Backend → Result (Option String)
get_cleanup_schedule backend = elim (Dicts.get "CLEANUP" backend.options) [
  | none ↦ ok none
  | some null ↦ ok none
  | some cleanup ↦ elim (as_dict cleanup) [
    | none ↦ raised attribute_error
    | some d ↦ elim (Dicts.get "schedule" d) [
      | none ↦ ok none
      | some null ↦ ok none
      | some (text s) ↦ ok (if s == "" then none else some s)
      | some _ ↦ raised bad_shape
    ]
  ]
]
