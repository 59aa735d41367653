-- ===== src/Checks.antt =====
-- django_absurd/checks.py: the system checks of the TASKS setting, and what they report.
pub mod Entries
pub mod Schedules
pub mod Settings
pub mod Policies
use django_absurd.Prelude.{
  String, Bool, true, false, ◌&&◌, not, Option, none, some, List, [], ◌∷◌, ◌++◌, Dict, map, keep,
  contains, ◌==◌, if◌then◌else◌, with_default,
}
use django_absurd.Prelude.Dicts
use django_absurd.Exceptions.{Exception, validation_error}
use django_absurd.Effect.{Result, ok, raised, bind_result}
use django_absurd.Json.{Json, null, text, object, as_dict}
use django_absurd.Deferred.{Imported}
use django_absurd.Backend.{Backend, get_declared_queues}
use django_absurd.Validators.{
  validate_task_path, validate_serializable, validate_args_is_list, validate_kwargs_is_dict,
}

-- The messages, by their ids and by what they name.
pub data CheckMessage : Type 0 where
  e001 e002 e004 e005 e009 e010 e014 w003 : CheckMessage
  e003_mapping : (queue : String) → CheckMessage
  e003_key : (queue key : String) → CheckMessage
  e003_storage_mode : (queue : String) → CheckMessage
  e015_storage_mode : (queue : String) → CheckMessage
  e015_key : (queue key : String) → CheckMessage
  e006_enable_admin e006_admin_site_type : CheckMessage
  e006_import e006_admin_site : (path : String) → CheckMessage
  e007_schedules : CheckMessage
  e007_mapping : (name : String) → CheckMessage
  e007_key : (name key : String) → CheckMessage
  e007_task : (name code : String) → CheckMessage
  e007_cron e007_cron_present : (name : String) → CheckMessage
  e007_value : (name field : String) → CheckMessage
  e007_queue : (name : String) → CheckMessage

-- `AbsurdBackend.scheduler`
pub data SchedulerKind : Type 0 where
  beat pg_cron : SchedulerKind

-- A backend with the two attributes that only the checks read.
pub record Configured : Type 0 where
  pub backend : Backend
  pub has_top_level_queues : Bool
  pub scheduler : SchedulerKind

abbrev pub valid_schedule_keys : List String
valid_schedule_keys = "task" ∷ "cron" ∷ "queue" ∷ "args" ∷ "kwargs" ∷ []

abbrev pub keys : Dict Json → List String
keys = map (λ entry. entry.0)

-- What the checks call outside the package: `import_string`, `croniter.is_valid`, `str.strip`, and
-- whether `json.dumps` returns.
pub record Tools : Type 0 where
  pub import_string : String → Result Imported
  pub is_valid_cron : String → Bool
  pub strip : String → String
  pub is_serializable : Json → Bool

module _ (tools : Tools) where
  open tools use {import_string, is_valid_cron, strip, is_serializable}

  unfoldable pub is_valid_beat_cron : Json → Bool
  is_valid_beat_cron (text cron) = is_valid_cron cron
  is_valid_beat_cron _ = false

  -- `isinstance(cron, str) and cron.strip()`
  abbrev pub is_cron_present : Json → Bool
  is_cron_present (text cron) = not (strip cron == "")
  is_cron_present _ = false

  -- `except ValidationError`
  unfoldable pub reported : (String → CheckMessage) → Result (Unit {0}) → Result (List CheckMessage)
  reported message (ok _) = ok []
  reported message (raised (validation_error code)) = ok (message code ∷ [])
  reported message (raised e) = raised e

  unfoldable pub cron_errors : String → SchedulerKind → Json → List CheckMessage
  cron_errors name beat cron = if is_valid_beat_cron cron then [] else e007_cron name ∷ []
  cron_errors name pg_cron cron = if is_cron_present cron then [] else e007_cron_present name ∷ []

  -- One turn of the loop over the fields.
  unfoldable pub value_errors :
      (name field : String) → (Json → Result (Unit {0})) → Dict Json → Result (List CheckMessage)
  value_errors name field validate spec = elim (Dicts.get field spec) [
    | none ↦ ok []
    | some null ↦ ok []
    | some value ↦ reported (λ _. e007_value name field) (validate value)
  ]

  unfoldable pub queue_errors : String → List String → Option Json → List CheckMessage
  queue_errors name declared_queues none = []
  queue_errors name declared_queues (some null) = []
  queue_errors name declared_queues (some (text queue)) =
      if contains declared_queues queue then [] else e007_queue name ∷ []
  queue_errors name declared_queues (some _) = e007_queue name ∷ []

  unfoldable pub key_errors : String → Dict Json → List CheckMessage
  key_errors name spec =
      map (e007_key name) (keep (λ key. not (contains valid_schedule_keys key)) (keys spec))

  abbrev and_also :
      Result (List CheckMessage) → Result (List CheckMessage) → Result (List CheckMessage)
  and_also m n = bind_result m λ errors. bind_result n λ more. ok (errors ++ more)

  unfoldable pub validate_spec :
      String → Dict Json → List String → SchedulerKind → Result (List CheckMessage)
  validate_spec name spec declared_queues scheduler = and_also (ok (key_errors name spec)) (
      and_also
        (reported (e007_task name)
          (validate_task_path import_string (with_default (text "") (Dicts.get "task" spec))))
        (and_also (ok (cron_errors name scheduler (with_default (text "") (Dicts.get "cron" spec))))
          (and_also (value_errors name "args" (validate_serializable is_serializable) spec) (
            and_also (value_errors name "args" validate_args_is_list spec) (
              and_also (value_errors name "kwargs" (validate_serializable is_serializable) spec) (
                and_also (value_errors name "kwargs" validate_kwargs_is_dict spec)
                  (ok (queue_errors name declared_queues (Dicts.get "queue" spec)))))))))

  unfoldable pub validate_schedule :
      String → Json → List String → SchedulerKind → Result (List CheckMessage)
  validate_schedule name spec declared_queues scheduler = elim (as_dict spec) [
    | none ↦ ok (e007_mapping name ∷ [])
    | some d ↦ validate_spec name d declared_queues scheduler
  ]

  -- The loop over the entries of one SCHEDULE.
  unfoldable pub validate_schedules :
      Dict Json → List String → SchedulerKind → Result (List CheckMessage)
  validate_schedules [] declared_queues scheduler = ok []
  validate_schedules ((name, spec) ∷ specs) declared_queues scheduler =
      and_also (validate_schedule name spec declared_queues scheduler)
        (validate_schedules specs declared_queues scheduler)

  -- One backend's part of the check of the schedules.
  unfoldable pub backend_schedule_errors : Configured → Result (List CheckMessage)
  backend_schedule_errors configured =
      let raw_schedule =
        with_default (object []) (Dicts.get "SCHEDULE" configured.backend.options) in
      elim (as_dict raw_schedule) [
        | none ↦ ok (e007_schedules ∷ [])
        | some specs ↦
            validate_schedules specs (keys (get_declared_queues configured.backend))
              configured.scheduler
      ]

  unfoldable pub check_absurd_schedule_config : List Configured → Result (List CheckMessage)
  check_absurd_schedule_config [] = ok []
  check_absurd_schedule_config (configured ∷ backends) =
      and_also (backend_schedule_errors configured) (check_absurd_schedule_config backends)
