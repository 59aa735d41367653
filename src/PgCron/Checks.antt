-- ===== src/PgCron/Checks.antt =====
-- django_absurd/pg_cron/checks.py, and `clean` of django_absurd/pg_cron/models.py.
use django_absurd.Prelude.{
  ℕ, String, Bool, true, false, ◌&&◌, ◌||◌, not, Option, none, some, List, [], ◌∷◌, ◌++◌, Dict, any,
  contains, ◌==◌, if◌then◌else◌, with_default,
}
use django_absurd.Prelude.Dicts
use django_absurd.Exceptions.{Exception, validation_error, improperly_configured, operational_error}
use django_absurd.Effect.{Result, ok, raised, bind_result, Run, pure, throw, try_except, ◌>>=◌}
use django_absurd.Json.{Json, null, text, object, as_dict}
use django_absurd.Deferred.{Imported}
use django_absurd.Backend.{Backend, get_declared_queues}
use django_absurd.Connection.{Central, open_central_connection}
use django_absurd.Settings.{get_absurd_backend}
use django_absurd.Checks.{Configured, beat, pg_cron, keys}
use django_absurd.PgCron.Detection.{Environment, is_pg_cron_inert}
use django_absurd.PgCron.Rows.{ScheduledTask}
use django_absurd.PgCron.Validators.{
  validate_name_charset, validate_declared_queue, validate_pg_cron_schedule, strip,
}

-- The messages of this app beside those of core's.
pub data CronMessage : Type 0 where
  bad_name bad_cron bad_queue : (name : String) → CronMessage
  bad_cleanup e011 e012 e013 : CronMessage

-- `except ValidationError`
abbrev pub invalid : CronMessage → Result (Unit {0}) → Result (List CronMessage)
invalid message (ok _) = ok []
invalid message (raised (validation_error _)) = ok (message ∷ [])
invalid message (raised e) = raised e

-- `not self.retry_kind`
abbrev is_blank : Option Json → Bool
is_blank none = true
is_blank (some null) = true
is_blank (some (text s)) = s == ""
is_blank (some _) = false

-- `is not None`
abbrev is_set : Option Json → Bool
is_set none = false
is_set (some null) = false
is_set (some _) = true

abbrev and_also : Result (List CronMessage) → Result (List CronMessage) → Result (List CronMessage)
and_also m n = bind_result m λ errors. bind_result n λ more. ok (errors ++ more)

-- `bool` is Python's, of a value of the settings.
module _ (import_string : String → Result Imported) (is_space : ℕ → Bool)
    (is_valid_cron : String → Bool) (bool : Json → Bool) where
  unfoldable pub check_pg_cron_name : String → Result (List CronMessage)
  check_pg_cron_name name = invalid (bad_name name) (validate_name_charset (text name))

  -- What core reports is not reported again.
  abbrev grammar_errors : CronMessage → Json → Result (List CronMessage)
  grammar_errors message (text cron) =
      if strip is_space is_valid_cron cron == ""
      then ok []
      else invalid message (validate_pg_cron_schedule is_space is_valid_cron cron)
  grammar_errors message _ = ok []

  unfoldable pub check_pg_cron_grammar : String → Json → Result (List CronMessage)
  check_pg_cron_grammar name cron = grammar_errors (bad_cron name) cron

  unfoldable pub check_pg_cron_effective_queue :
      String → (task_path queue_override : Json) → List String → Result (List CronMessage)
  check_pg_cron_effective_queue name task_path queue_override declared_queues =
      if bool queue_override
      then ok []
      else invalid (bad_queue name)
          (validate_declared_queue import_string "" task_path declared_queues)

  unfoldable pub check_pg_cron_schedule : String → Json → List String → Result (List CronMessage)
  check_pg_cron_schedule name spec declared_queues = elim (as_dict spec) [
    | none ↦ ok []
    | some d ↦ and_also (check_pg_cron_name name) (
        and_also (check_pg_cron_grammar name (with_default (text "") (Dicts.get "cron" d))) (
          check_pg_cron_effective_queue name (with_default (text "") (Dicts.get "task" d))
            (with_default null (Dicts.get "queue" d)) declared_queues))
  ]

  unfoldable pub schedule_map_errors : Dict Json → List String → Result (List CronMessage)
  schedule_map_errors [] declared_queues = ok []
  schedule_map_errors ((name, spec) ∷ specs) declared_queues =
      and_also (check_pg_cron_schedule name spec declared_queues)
        (schedule_map_errors specs declared_queues)

  unfoldable pub check_pg_cron_schedules : List Backend → Result (List CronMessage)
  check_pg_cron_schedules [] = ok []
  check_pg_cron_schedules (backend ∷ backends) =
      let rest = check_pg_cron_schedules backends in
      elim (as_dict (with_default (object []) (Dicts.get "SCHEDULE" backend.options))) [
        | none ↦ rest
        | some specs ↦
            and_also (schedule_map_errors specs (keys (get_declared_queues backend))) rest
      ]

  unfoldable pub check_pg_cron_cleanup_schedule : List Backend → Result (List CronMessage)
  check_pg_cron_cleanup_schedule [] = ok []
  check_pg_cron_cleanup_schedule (backend ∷ backends) =
      let rest = check_pg_cron_cleanup_schedule backends in
      elim (as_dict (with_default null (Dicts.get "CLEANUP" backend.options))) [
        | none ↦ rest
        | some cleanup ↦
            and_also (grammar_errors bad_cleanup (with_default null (Dicts.get "schedule" cleanup)))
              rest
      ]

  -- The fields that `clean` reports.
  unfoldable pub clean : List Backend → ScheduledTask → Result (List String)
  clean backends row =
      bind_result (field_errors "cron" (validate_pg_cron_schedule is_space is_valid_cron row.cron))
        λ cron_errors.
          bind_result
            (elim (get_absurd_backend backends) [
              | none ↦ ok []
              | some backend ↦ field_errors "queue" (
                  validate_declared_queue import_string row.queue (text row.task)
                    (keys (get_declared_queues backend)))
            ])
            λ queue_errors. ok (
              cron_errors
              ++ ((if row.queue == "" || not (is_empty_list queue_errors) then "queue" ∷ [] else [])
                  ++ (if is_blank (Dicts.get "retry_kind" row.columns)
                        && any (λ field. is_set (Dicts.get field row.columns))
                            ("retry_base_seconds" ∷ "retry_factor" ∷ "retry_max_seconds" ∷ [])
                      then "retry_kind" ∷ []
                      else [])))
    where
      is_empty_list : List String → Bool
      is_empty_list [] = true
      is_empty_list (_ ∷ _) = false

      field_errors : String → Result (Unit {0}) → Result (List String)
      field_errors field (ok _) = ok []
      field_errors field (raised (validation_error _)) = ok (field ∷ [])
      field_errors field (raised e) = raised e

unfoldable pub check_pg_cron_has_a_backend : List Backend → List CronMessage
check_pg_cron_has_a_backend [] = e013 ∷ []
check_pg_cron_has_a_backend (_ ∷ _) = []

module _ (bool : Json → Bool) where
  -- `bool(options.get(name, False))`
  abbrev option_set : String → Dict Json → Bool
  option_set name options = elim (Dicts.get name options) [ none ↦ false | some value ↦ bool value ]

  unfoldable pub check_pg_cron_test_db_composition : List Backend → List CronMessage
  check_pg_cron_test_db_composition [] = []
  check_pg_cron_test_db_composition (backend ∷ backends) =
      let rest = check_pg_cron_test_db_composition backends in
      if option_set "SYNC_SCHEDULES_ON_TEST_DB" backend.options
        && not (option_set "PG_CRON_ON_TEST_DB" backend.options)
      then e011 ∷ rest
      else rest

-- `present` is the answer of `to_regproc`, `is_psycopg_operational` tells `psycopg.OperationalError`.
module _ {W : Type 0} (env : Environment) (central : Central W) (present : Run W Bool)
    (is_psycopg_operational : Exception → Bool) where
  abbrev is_probe_failure : Exception → Bool
  is_probe_failure improperly_configured = true
  is_probe_failure operational_error = true
  is_probe_failure e = is_psycopg_operational e

  unfoldable pub probe_central_extension : String → Run W Bool
  probe_central_extension alias =
      try_except (open_central_connection central alias present)
        (λ e. if is_probe_failure e then pure false else throw e)

  -- Whether a backend's database is probed.
  abbrev is_probed : List String → Configured → Bool
  is_probed databases configured =
      contains databases configured.backend.database
      && elim configured.scheduler [ beat ↦ false | pg_cron ↦ true ]
      && not (is_pg_cron_inert env configured.backend.database)

  unfoldable pub check_pg_cron_central_extension :
      (databases : List String) → List Configured → Run W (List CronMessage)
  check_pg_cron_central_extension databases [] = pure []
  check_pg_cron_central_extension databases (configured ∷ backends) = do
    found ←
        if is_probed databases configured
        then probe_central_extension configured.backend.database
        else pure true
    errors ← check_pg_cron_central_extension databases backends
    pure (if found then errors else e012 ∷ errors)
