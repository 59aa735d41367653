-- ===== src/PgCron/Detection.antt =====
-- django_absurd/pg_cron/detection.py: where pg_cron scheduling does nothing.
use django_absurd.Prelude.{String, Bool, true, false, ◌&&◌, ◌||◌, not, none, some, List, Dict, ◌==◌}
use django_absurd.Prelude.Dicts
use django_absurd.Json.{Json}
use django_absurd.Backend.{Backend}
use django_absurd.Settings.{backend_on}

-- What the predicates read: the backends of the settings, the live name of an alias's database, the
-- names that `ready()` stored, whether Django's test state is set up, and Python's `bool`.
pub record Environment : Type 0 where
  pub backends : List Backend
  pub live_name : String → String
  pub original_database_names : Dict String
  pub is_test_environment : Bool
  pub bool : Json → Bool

module _ (env : Environment) where
  unfoldable pub is_test_database : String → Bool
  is_test_database alias = elim (Dicts.get alias env.original_database_names) [
    | none ↦ true
    | some original ↦ not (env.live_name alias == original)
  ]

  unfoldable pub pg_cron_on_test_db : String → Bool
  pg_cron_on_test_db alias = elim (backend_on alias env.backends) [
    | none ↦ false
    | some backend ↦ elim (Dicts.get "PG_CRON_ON_TEST_DB" backend.options) [
      | none ↦ false
      | some value ↦ env.bool value
    ]
  ]

  unfoldable pub is_pg_cron_inert : String → Bool
  is_pg_cron_inert alias =
      (env.is_test_environment || is_test_database alias) && not (pg_cron_on_test_db alias)
