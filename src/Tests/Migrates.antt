-- ===== src/Tests/Migrates.antt =====
-- Tests of what follows a migrate, over a world that says whether the schema is absent.
use django_absurd.Prelude.{String, ◌≡◌, refl, sym, Bool, true, false, none, [], ◌∷◌}
use django_absurd.Prelude.Dicts
use django_absurd.Exceptions.{Exception, schema_not_installed}
use django_absurd.Effect.{ok, raised, pure, raised-injective, raised-ne-ok}
use django_absurd.Json.{number, object}
use django_absurd.Connection.{validate_backend}
use django_absurd.Backend.{Backend, get_declared_queues}
use django_absurd.Queues.{Database, require_installed_schema, sync_queues, sync_names}
use django_absurd.Queues.Boot.{provision_backend, lock_provisioning}
use django_absurd.Migrate.{provision_queues_after_migrate}
use django_absurd.Migrate.Backends.{provisioned, provision_queues_after_migrate-provisioned}

abbrev bare : Database Bool
bare = record {
  connections = record { ensure_connection = λ _. pure tt; is_psycopg = λ _. pure true };
  schema_absent = λ absent. absent;
  row = λ _ _. none;
  missing = λ _ _. [];
  parse_interval = λ j. j;
  same = λ _ _. true;
  create_queue = λ _ _. pure tt;
  set_queue_policy = λ _ _. pure tt;
}

-- A backend without queues.
abbrev empty_on : String → Backend
empty_on database = record {
  alias = database;
  options = ("QUEUES", object []) ∷ [];
  queues = [];
  database = database;
  default_max_attempts = number 5;
}

-- Rebuilding the views installs nothing.
forgives :
    (database : String) (absent : Bool) (e : Exception)
    → (provision_backend bare (λ _ m. m) (pure tt) (λ _. pure tt) (empty_on database) absent).0
      ≡ raised e
    → e ≡ schema_not_installed
unfolding provision_backend lock_provisioning validate_backend require_installed_schema sync_queues
    sync_names get_declared_queues Dicts.get
forgives database true e h = sym (raised-injective h)
forgives database false e h = absurd (raised-ne-ok (sym h))

provision_queues_after_migrate-provisioned_example :
    provision_queues_after_migrate
      (λ _ _. pure tt)
      true
      bare
      (λ _ m. m)
      (pure tt)
      (λ _. pure tt)
      "absurd"
      (empty_on "default" ∷ empty_on "absurd" ∷ [])
      true
    ≡ (
      ok tt,
      provisioned
          (λ _ _. pure tt)
          true
          bare
          (λ _ m. m)
          (pure tt)
          (λ _. pure tt)
          (empty_on "absurd" ∷ [])
          true,
    )
provision_queues_after_migrate-provisioned_example =
    provision_queues_after_migrate-provisioned (λ _ _. pure tt) true bare (λ _ m. m) (pure tt)
      (λ _. pure tt) "absurd" (empty_on "default" ∷ empty_on "absurd" ∷ []) true (λ _ _ _. refl)
      (forgives "default", (forgives "absurd", tt))
