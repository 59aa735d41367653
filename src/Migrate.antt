-- ===== src/Migrate.antt =====
-- What follows a `migrate`: django_absurd/apps.py, and django_absurd/pg_cron/apps.py.
pub mod Backends
use django_absurd.Prelude.{
  ℕ, String, Bool, true, false, ◌&&◌, ◌||◌, not, ◌≡◌, refl, ap, Option, none, some, List, [], ◌∷◌,
  ◌++◌, map, keep, if◌then◌else◌, ◌==◌, is_empty, nat_beq, Dict, Bool-cases, inl, inr, with_default,
  fun_ext,
}
use django_absurd.Prelude.Dicts
use django_absurd.Exceptions.{
  Exception, schema_not_installed, connection_does_not_exist, improperly_configured,
  operational_error, programming_error, internal_error, import_error, type_error, key_error,
  attribute_error, value_error, bad_shape,
}
use django_absurd.Effect.{Result, Run, pure, throw, try_except, ◌>>=◌, ◌>>◌}
use django_absurd.Json.{Json}
use django_absurd.Task.{SpawnKwargs}
use django_absurd.Deferred.{Imported}
use django_absurd.Backend.{Backend}
use django_absurd.Queues.{Database, SyncResult}
use django_absurd.Queues.Boot.{provision_backend}
use django_absurd.PgCron.Detection.{Environment, is_test_database}
use django_absurd.PgCron.Catalog.{PgCron}
use django_absurd.PgCron.Rows.{Orm}
use django_absurd.PgCron.Reconcile.{sync_crons, sync_admin_crons}

-- A line of the output, below the heading of a backend.
pub data Line : Type 0 where
  not_provisioned : Line
  created reconciled repaired : String → Line
  scheduled pruned : ℕ → Line

abbrev pub result_lines : SyncResult → List Line
result_lines result =
    map created result.created ++ (map reconciled result.reconciled ++ map repaired result.repaired)

-- `except SchemaNotInstalledError`
abbrev pub or_not_provisioned : {W : Type 0} → Exception → Run W (List Line)
or_not_provisioned schema_not_installed = pure (not_provisioned ∷ [])
or_not_provisioned e = throw e

-- `write` writes an alias's heading and the lines below it; `shows` is whether there is an output, at a
-- verbosity of one or more.
module _ {W : Type 0} (write : String → List Line → Run W (Unit {0})) (shows : Bool) where
  abbrev pub written : String → List Line → Run W (Unit {0})
  written alias lines = if not (is_empty lines) && shows then write alias lines else pure tt

  module _ (db : Database W) (atomic : String → Run W SyncResult → Run W SyncResult)
      (take_lock : Run W (Unit {0})) (rebuild_views : String → Run W (Unit {0})) where
    unfoldable pub provision_one : Backend → Run W (Unit {0})
    provision_one backend = do
      lines ←
          try_except
            (do
              result ← provision_backend db atomic take_lock rebuild_views backend
              pure (result_lines result))
            or_not_provisioned
      written backend.alias lines

    unfoldable pub provision_queues_after_migrate :
        (using : String) → List Backend → Run W (Unit {0})
    provision_queues_after_migrate using [] = pure tt
    provision_queues_after_migrate using (backend ∷ backends) = do
      if not (backend.database == using) then pure tt else provision_one backend
      provision_queues_after_migrate using backends

  -- The exceptions that a reconciliation after a migrate passes over.
  abbrev pub is_skipped : Exception → Bool
  is_skipped connection_does_not_exist = true
  is_skipped improperly_configured = true
  is_skipped operational_error = true
  is_skipped (programming_error _) = true
  is_skipped internal_error = true
  is_skipped import_error = true
  is_skipped (type_error _) = true
  is_skipped key_error = true
  is_skipped attribute_error = true
  is_skipped value_error = true
  -- a `TypeError` or a `ValueError` of a conversion
  is_skipped bad_shape = true
  is_skipped _ = false

  abbrev counted : (ℕ → Line) → ℕ → List Line
  counted line n = if nat_beq n 0 then [] else line n ∷ []

  module _ (import_string : String → Result Imported) (normalize : SpawnKwargs → Result (Dict Json))
      (env : Environment) (cron : PgCron W) (orm : Orm W)
      (log_warning : String → Run W (Unit {0})) where
    abbrev flag : String → Bool → Backend → Bool
    flag name default backend = elim (Dicts.get name backend.options) [
      | none ↦ default
      | some value ↦ env.bool value
    ]

    unfoldable pub should_sync_schedules : Backend → Bool
    should_sync_schedules backend =
        if is_test_database env backend.database
        then flag "SYNC_SCHEDULES_ON_TEST_DB" false backend
        else flag "SYNC_SCHEDULES_ON_MIGRATE" true backend

    unfoldable pub sync_both : Backend → Run W (Unit {0})
    sync_both backend = do
      (made, gone) ← sync_crons import_string normalize env cron orm backend
      sync_admin_crons env cron orm
      written backend.alias (counted scheduled made ++ counted pruned gone)

    unfoldable pub reconcile_backend : Backend → Run W (Unit {0})
    reconcile_backend backend =
        try_except (if should_sync_schedules backend then sync_both backend else pure tt)
          (λ e. if is_skipped e then log_warning backend.alias else throw e)

    -- The first backend's schedules; without a backend there are none.
    unfoldable pub reconcile_crons_after_migrate : List Backend → Run W (Unit {0})
    reconcile_crons_after_migrate [] = pure tt
    reconcile_crons_after_migrate (backend ∷ _) = reconcile_backend backend
