-- ===== src/Checks/Settings.antt =====
-- The checks of django_absurd/checks.py on the rest of the TASKS setting: the admin's options, the
-- attempts, the cleanup, the order of the apps, the queues and the database.
use django_absurd.Prelude.{
  ℕ, suc, String, Bool, true, false, ◌&&◌, ◌||◌, not, Option, none, some, List, [], ◌∷◌, ◌++◌, Dict,
  map, keep, contains, ◌==◌, if◌then◌else◌, ltb, all,
}
use django_absurd.Prelude.Dicts
use django_absurd.Exceptions.{Exception, improperly_configured, operational_error}
use django_absurd.Effect.{Run, pure, throw, try_except, ◌>>=◌, ◌>>◌}
use django_absurd.Json.{Json, flag, number, text, arr, obj, list_of, as_dict}
use django_absurd.Backend.{Backend, get_declared_queues}
use django_absurd.Connection.{Connections, validate_backend}
use django_absurd.Checks.{
  CheckMessage, Configured, SchedulerKind, Tools, beat, pg_cron, keys, is_valid_beat_cron,
  is_cron_present, e001, e002, e003_mapping, e003_key, e003_storage_mode, e004, e005,
  e006_enable_admin, e006_admin_site_type, e006_import, e006_admin_site, e009, e010, e014,
  e015_storage_mode, e015_key, w003,
}

-- `isinstance(value, int) and not isinstance(value, bool) and value >= 1`
abbrev is_attempt_count : Json → Bool
is_attempt_count (number (suc _)) = true
is_attempt_count _ = false

unfoldable pub check_absurd_default_max_attempts : List Configured → List CheckMessage
check_absurd_default_max_attempts [] = []
check_absurd_default_max_attempts (configured ∷ backends) =
    let rest = check_absurd_default_max_attempts backends in
    elim (Dicts.get "DEFAULT_MAX_ATTEMPTS" configured.backend.options) [
      | none ↦ rest
      | some value ↦ if is_attempt_count value then rest else e009 ∷ rest
    ]

-- A dict whose only key is `schedule`.
abbrev only_schedule : Dict Json → Bool
only_schedule d = Dicts.has_key "schedule" d && all (λ key. key == "schedule") (keys d)

module _ (tools : Tools) where
  unfoldable pub is_valid_cleanup : Json → SchedulerKind → Bool
  is_valid_cleanup cleanup scheduler = elim (as_dict cleanup) [
    | none ↦ false
    | some d ↦ elim (Dicts.get "schedule" d) [
      | none ↦ false
      | some schedule ↦ only_schedule d && elim scheduler [
        | beat ↦ is_valid_beat_cron tools schedule
        | pg_cron ↦ is_cron_present tools schedule
      ]
    ]
  ]

  unfoldable pub check_absurd_cleanup_config : List Configured → List CheckMessage
  check_absurd_cleanup_config [] = []
  check_absurd_cleanup_config (configured ∷ backends) =
      let rest = check_absurd_cleanup_config backends in
      elim (Dicts.get "CLEANUP" configured.backend.options) [
        | none ↦ rest
        | some cleanup ↦ if is_valid_cleanup cleanup configured.scheduler then rest else e010 ∷ rest
      ]

-- `app_names.index(name)`, past the end where there is none
abbrev index : String → List String → ℕ
index name [] = 0
index name (n ∷ names) = let rest = index name names in if n == name then 0 else suc rest

-- `is_installed` of the app of pg_cron; `app_names` is what `resolve_installed_app_names` returns.
unfoldable pub check_pg_cron_app_ordering : Bool → List String → List CheckMessage
check_pg_cron_app_ordering is_installed app_names =
    if is_installed
      && contains app_names "django_absurd.pg_cron"
      && contains app_names "django_absurd"
      && ltb (index "django_absurd.pg_cron" app_names) (index "django_absurd" app_names)
    then w003 ∷ []
    else []

abbrev pub partition_only_keys : List String
partition_only_keys =
    "partition_lookahead" ∷ "partition_lookback" ∷ "detach_mode" ∷ "detach_min_age" ∷ []

-- A value among texts.
abbrev is_among : List String → Json → Bool
is_among names (text s) = contains names s
is_among names _ = false

-- The keys and the modes are those of the SDK's `CreateQueueOptions` and `QueueStorageMode`.
module _ (valid_queue_option_keys valid_storage_modes : List String) where
  unfoldable pub storage_mode_errors : String → Option Json → List CheckMessage
  storage_mode_errors queue_name none = []
  storage_mode_errors queue_name (some mode) =
      (if is_among valid_storage_modes mode then [] else e003_storage_mode queue_name ∷ [])
      ++ (if is_among ("partitioned" ∷ []) mode then e015_storage_mode queue_name ∷ [] else [])

  unfoldable pub validate_queue_policy : String → Json → List CheckMessage
  validate_queue_policy queue_name policy = elim (as_dict policy) [
    | none ↦ e003_mapping queue_name ∷ []
    | some d ↦
        map (e003_key queue_name)
          (keep (λ key. not (contains valid_queue_option_keys key)) (keys d))
        ++ (storage_mode_errors queue_name (Dicts.get "storage_mode" d)
            ++ map (e015_key queue_name) (keep (λ key. Dicts.has_key key d) partition_only_keys))
  ]

  unfoldable pub policy_errors : Dict Json → List CheckMessage
  policy_errors [] = []
  policy_errors ((queue_name, policy) ∷ declared) =
      validate_queue_policy queue_name policy ++ policy_errors declared

  unfoldable pub declares_queues_as_a_mapping : Backend → Bool
  declares_queues_as_a_mapping backend = elim (Dicts.get "QUEUES" backend.options) [
    | none ↦ true
    | some (obj _) ↦ true
    | some _ ↦ false
  ]

  abbrev is_unreachable : Exception → Bool
  is_unreachable operational_error = true
  is_unreachable _ = false

  -- `is_missing` is whether Django raised `ConnectionDoesNotExist`.
  module _ {W : Type 0} (connections : Connections W) (is_missing : Exception → Bool) where
    abbrev on_failure : Exception → Run W (List CheckMessage)
    on_failure improperly_configured = pure (e001 ∷ [])
    on_failure e = if is_unreachable e || is_missing e then pure [] else throw e

    unfoldable pub database_errors : String → Run W (List CheckMessage)
    database_errors db = try_except (do validate_backend connections db; pure []) on_failure

    -- The body of `check_absurd_config` for its one backend.
    unfoldable pub backend_errors :
        (router_installed : Bool) → Configured → Run W (List CheckMessage)
    backend_errors router_installed configured = do
      unreachable ← database_errors configured.backend.database
      pure (
          (if configured.has_top_level_queues && Dicts.has_key "QUEUES" configured.backend.options
            then e002 ∷ []
            else [])
          ++ ((if declares_queues_as_a_mapping configured.backend then [] else e014 ∷ [])
              ++ (policy_errors (get_declared_queues configured.backend)
                  ++ ((if not (configured.backend.database == "default") && not router_installed
                        then e005 ∷ []
                        else [])
                      ++ unreachable))))

    unfoldable pub check_absurd_config :
        (router_installed : Bool) → List Configured → Run W (List CheckMessage)
    check_absurd_config router_installed [] = pure []
    check_absurd_config router_installed (configured ∷ []) =
        backend_errors router_installed configured
    check_absurd_config router_installed (configured ∷ other ∷ more) = pure (e004 ∷ [])

-- What the entry of an ADMIN_SITE is: an admin site, something else, or an `ImportError`; an import
-- that raises anything else ends the check, which has no model.
pub data AdminEntry : Type 0 where
  admin_site other_object not_found : AdminEntry

abbrev is_text : Json → Bool
is_text (text _) = true
is_text _ = false

module _ (import_site : String → AdminEntry) where
  unfoldable pub site_errors : List Json → List CheckMessage
  site_errors [] = []
  site_errors (text path ∷ entries) =
      let rest = site_errors entries in
      elim (import_site path) [
        | admin_site ↦ rest
        | other_object ↦ e006_admin_site path ∷ rest
        | not_found ↦ e006_import path ∷ rest
      ]
  site_errors (_ ∷ entries) = site_errors entries

  unfoldable pub validate_admin_site_option : Json → List CheckMessage
  validate_admin_site_option (arr entries) =
      if all is_text (list_of entries)
      then site_errors (list_of entries)
      else e006_admin_site_type ∷ []
  validate_admin_site_option _ = e006_admin_site_type ∷ []

  abbrev enable_admin_errors : Option Json → List CheckMessage
  enable_admin_errors none = []
  enable_admin_errors (some (flag _)) = []
  enable_admin_errors (some _) = e006_enable_admin ∷ []

  abbrev admin_site_errors : Option Json → List CheckMessage
  admin_site_errors none = []
  admin_site_errors (some value) = validate_admin_site_option value

  unfoldable pub check_absurd_admin_config : Option Backend → List CheckMessage
  check_absurd_admin_config none = []
  check_absurd_admin_config (some backend) =
      enable_admin_errors (Dicts.get "ENABLE_ADMIN" backend.options)
      ++ admin_site_errors (Dicts.get "ADMIN_SITE" backend.options)
