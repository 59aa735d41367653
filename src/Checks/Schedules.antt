-- ===== src/Checks/Schedules.antt =====
-- A SCHEDULE that the checks accept is one that `get_settings_schedules` reads.
use django_absurd.Prelude.{
  String, ◌≡◌, ◌≢◌, refl, sym, Option, none, some, List, [], ◌∷◌, Dict, map, All, with_default,
}
use django_absurd.Json.{flag, number, opaque_value}
use django_absurd.Prelude.{ap₂}
use django_absurd.Json.{object}
use django_absurd.Backend.{Backend, get_declared_queues}
use django_absurd.Checks.{Configured, backend_schedule_errors, check_absurd_schedule_config}
use django_absurd.Prelude.Dicts
use django_absurd.Checks.Entries.{RefusesEmpty, and_also-eq-nil, some-injective, spec_loads}
use django_absurd.Prelude.{subst}
use django_absurd.Exceptions.{attribute_error}
use django_absurd.Checks.{e007_schedules}
use django_absurd.Json.{dict_of}
use django_absurd.Effect.{Result, ok, raised}
use django_absurd.Json.{Json, null, text, arr, obj, as_dict}
use django_absurd.Scheduler.{Schedule}
use django_absurd.Scheduler.Entries.{schedule_of, schedules_of, get_settings_schedules}
use django_absurd.Checks.{
  CheckMessage, SchedulerKind, Tools, validate_schedule, validate_schedules, keys,
}

-- An entry that sets neither its arguments nor its keywords to null.
abbrev pub Filled : Json → Type 0
Filled spec =
    (d : Dict Json)
    → as_dict spec ≡ some d
    → (Dicts.get "args" d ≢ some null) × (Dicts.get "kwargs" d ≢ some null)

abbrev pub name_of : Schedule → String
name_of s = s.name

-- The entries of a backend's SCHEDULE, if that is a dict.
abbrev pub entries_of : Backend → Option (Dict Json)
entries_of backend = as_dict (with_default (object []) (Dicts.get "SCHEDULE" backend.options))

abbrev pub AllFilled : Configured → Type 0
AllFilled configured =
    (specs : Dict Json)
    → entries_of configured.backend ≡ some specs
    → All (λ entry. Filled entry.1) specs

-- A schedule for each entry, under its name and in its place.
abbrev pub Loads : Configured → Type 0
Loads configured =
    (specs : Dict Json) × (schedules : List Schedule) × (entries_of configured.backend ≡ some specs)
    × (get_settings_schedules configured.backend ≡ ok schedules)
    × (map name_of schedules ≡ keys specs)

module _ (tools : Tools) where
  entry_loads :
      RefusesEmpty tools
      → (alias name : String) (spec : Json) (declared_queues : List String)
        (scheduler : SchedulerKind)
      → validate_schedule tools name spec declared_queues scheduler ≡ ok []
      → Filled spec
      → (d : Dict Json) × (s : Schedule) × (as_dict spec ≡ some d)
        × (schedule_of alias name d ≡ ok s)
        × (s.name ≡ name)
  unfolding validate_schedule
  entry_loads refuses alias name (obj fields) declared_queues scheduler h filled =
      let (args_filled, kwargs_filled) = filled (dict_of fields) refl in
      let (s, loaded, named) =
        spec_loads tools refuses alias name (dict_of fields) declared_queues scheduler h args_filled
          kwargs_filled in
      (dict_of fields, s, refl, loaded, named)
  entry_loads refuses alias name null declared_queues scheduler h filled = cc
  entry_loads refuses alias name (flag _) declared_queues scheduler h filled = cc
  entry_loads refuses alias name (number _) declared_queues scheduler h filled = cc
  entry_loads refuses alias name (opaque_value _) declared_queues scheduler h filled = cc
  entry_loads refuses alias name (text _) declared_queues scheduler h filled = cc
  entry_loads refuses alias name (arr _) declared_queues scheduler h filled = cc

  schedules_of-cons :
      (alias name : String) (spec : Json) (specs : Dict Json) (d : Dict Json) (s : Schedule)
      (schedules : List Schedule)
      → as_dict spec ≡ some d
      → schedule_of alias name d ≡ ok s
      → schedules_of alias specs ≡ ok schedules
      → schedules_of alias ((name, spec) ∷ specs) ≡ ok (s ∷ schedules)
  unfolding schedules_of
  schedules_of-cons alias name (obj fields) specs d s schedules is_dict loaded more =
      rw (subst (λ d. schedule_of alias name d ≡ ok s) (sym (some-injective is_dict)) loaded, more)
        refl
  schedules_of-cons alias name null specs d s schedules is_dict loaded more = cc
  schedules_of-cons alias name (flag _) specs d s schedules is_dict loaded more = cc
  schedules_of-cons alias name (number _) specs d s schedules is_dict loaded more = cc
  schedules_of-cons alias name (opaque_value _) specs d s schedules is_dict loaded more = cc
  schedules_of-cons alias name (text _) specs d s schedules is_dict loaded more = cc
  schedules_of-cons alias name (arr _) specs d s schedules is_dict loaded more = cc

  specs_load :
      RefusesEmpty tools
      → (alias : String) (specs : Dict Json) (declared_queues : List String)
        (scheduler : SchedulerKind)
      → validate_schedules tools specs declared_queues scheduler ≡ ok []
      → All (λ entry. Filled entry.1) specs
      → (schedules : List Schedule) × (schedules_of alias specs ≡ ok schedules)
        × (map name_of schedules ≡ keys specs)
  unfolding validate_schedules schedules_of
  specs_load refuses alias [] declared_queues scheduler h filled = ([], refl, refl)
  specs_load refuses alias ((name, spec) ∷ specs) declared_queues scheduler h (first, others) =
      let (one, rest) =
        and_also-eq-nil (validate_schedule tools name spec declared_queues scheduler)
          (validate_schedules tools specs declared_queues scheduler) h in
      let (d, s, is_dict, loaded, named) =
        entry_loads refuses alias name spec declared_queues scheduler one first in
      let (schedules, more, names) =
        specs_load refuses alias specs declared_queues scheduler rest others in
      (
        s ∷ schedules,
        schedules_of-cons alias name spec specs d s schedules is_dict loaded more,
        ap₂ (λ x xs. x ∷ xs) named names,
      )

  backend-Loads :
      RefusesEmpty tools
      → (configured : Configured) → backend_schedule_errors tools configured ≡ ok []
      → AllFilled configured
      → Loads configured
  unfolding backend_schedule_errors get_settings_schedules
  backend-Loads refuses configured = by_value (Dicts.get "SCHEDULE" configured.backend.options)
    where
      declared_queues : List String
      declared_queues = keys (get_declared_queues configured.backend)

      by_value :
          (o : Option Json)
          → let errors : Result (List CheckMessage) = elim (as_dict (with_default (object []) o)) [
            | none ↦ ok (e007_schedules ∷ [])
            | some specs ↦ validate_schedules tools specs declared_queues configured.scheduler
          ] in
            let loaded : Result (List Schedule) = elim o [
              | none ↦ ok []
              | some schedule_map ↦ elim (as_dict schedule_map) [
                | none ↦ raised attribute_error
                | some specs ↦ schedules_of configured.backend.alias specs
              ]
            ] in
            errors ≡ ok []
            → ((specs : Dict Json)
                → as_dict (with_default (object []) o) ≡ some specs
                → All (λ entry. Filled entry.1) specs)
            → (specs : Dict Json) × (schedules : List Schedule) × (as_dict
                  (with_default (object []) o)
                ≡ some specs)
              × (loaded ≡ ok schedules)
              × (map name_of schedules ≡ keys specs)
      by_value none h filled = ([], [], refl, refl, refl)
      by_value (some (obj fields)) h filled =
          let (schedules, loaded, names) =
            specs_load refuses configured.backend.alias (dict_of fields) declared_queues
              configured.scheduler h (filled (dict_of fields) refl) in
          (dict_of fields, schedules, refl, loaded, names)
      by_value (some null) h filled = cc
      by_value (some (flag _)) h filled = cc
      by_value (some (number _)) h filled = cc
      by_value (some (opaque_value _)) h filled = cc
      by_value (some (text _)) h filled = cc
      by_value (some (arr _)) h filled = cc

  -- Where the empty text is no task, no cron and blank, and no entry sets its arguments or its keywords
  -- to null: if the check of the schedules reports nothing, then `get_settings_schedules` returns, for
  -- every backend, a schedule for each entry, under its name and in its place.
  pub check_absurd_schedule_config-Loads :
      RefusesEmpty tools
      → (backends : List Configured) → check_absurd_schedule_config tools backends ≡ ok []
      → All AllFilled backends
      → All Loads backends
  unfolding check_absurd_schedule_config
  check_absurd_schedule_config-Loads refuses [] h filled = tt
  check_absurd_schedule_config-Loads refuses (configured ∷ backends) h (first, others) =
      let (one, rest) =
        and_also-eq-nil (backend_schedule_errors tools configured)
          (check_absurd_schedule_config tools backends) h in
      (
        backend-Loads refuses configured one first,
        check_absurd_schedule_config-Loads refuses backends rest others,
      )
