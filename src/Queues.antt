-- ===== src/Queues.antt =====
-- django_absurd/queues.py: planning and applying what the declared queues need.
pub mod Tables
pub mod Provision
pub mod Sync
pub mod Boot
use django_absurd.Prelude.{
  ℕ, String, Bool, true, false, ◌&&◌, not, Option, none, some, List, [], ◌∷◌, ◌++◌, Dict, contains,
  is_some, if◌then◌else◌, ◌≡◌,
}
use django_absurd.Prelude.Dicts
use django_absurd.Exceptions.{schema_not_installed, key_error, attribute_error}
use django_absurd.Effect.{Result, ok, raised, Run, pure, throw, lift, ◌>>=◌, ◌>>◌}
use django_absurd.Json.{Json, as_dict}
use django_absurd.Connection.{Connections, validate_backend}
use django_absurd.Backend.{Backend, get_declared_queues}

abbrev pub mutable_option_keys : List String
mutable_option_keys =
    "partition_lookahead" ∷ "partition_lookback" ∷ "cleanup_ttl" ∷ "cleanup_limit" ∷ "detach_mode"
    ∷ "detach_min_age" ∷ []

abbrev pub interval_option_keys : List String
interval_option_keys =
    "partition_lookahead" ∷ "partition_lookback" ∷ "cleanup_ttl" ∷ "detach_min_age" ∷ []

pub record SyncResult : Type 0 where
  pub created : List String
  pub reconciled : List String
  pub repaired : List String

pub record QueuePlan : Type 0 where
  pub queue_name : String
  pub create_options : Option (Dict Json)
  pub repair : Bool
  pub policy_options : Option (Dict Json)

-- The `Queue` row of a queue: the value of each column, an interval as its length.
abbrev pub QueueRow : Type 0
QueueRow = String → Json

-- The database: `row` and `missing` are what `get_queue_object` and `find_missing_queue_tables` select,
-- `schema_absent` what `SCHEMA_ABSENT_SQL` does, `parse_interval` Postgres's cast to an interval, and
-- `same` whether Python finds a declared value and a column's equal. The last two fields are the SDK's.
pub record Database (W : Type 0) : Type 0 where
  pub connections : Connections W
  pub schema_absent : W → Bool
  pub row : String → W → Option QueueRow
  pub missing : String → W → List String
  pub parse_interval : Json → Json
  pub same : Json → Json → Bool
  pub create_queue : String → Dict Json → Run W (Unit {0})
  pub set_queue_policy : String → Dict Json → Run W (Unit {0})

-- `get_declared_queues(backend)[queue_name]`, whose `items()` are read.
unfoldable pub declared_options : Backend → String → Result (Dict Json)
declared_options backend queue_name = elim (Dicts.get queue_name (get_declared_queues backend)) [
  | none ↦ raised key_error
  | some declared ↦ elim (as_dict declared) [ some opts ↦ ok opts | none ↦ raised attribute_error ]
]

abbrev pub names_of : Dict Json → List String
names_of [] = []
names_of ((name, _) ∷ declared) = name ∷ names_of declared

module _ {W : Type 0} (db : Database W) where
  open db use {
    connections, schema_absent, row, missing, parse_interval, same, create_queue, set_queue_policy,
  }

  -- A declared value agrees with its column.
  unfoldable pub agrees : String → Json → QueueRow → Bool
  agrees key declared existing =
      if contains interval_option_keys key
      then same (parse_interval declared) (existing key)
      else same declared (existing key)

  unfoldable pub check_mutable_options_drifted : Dict Json → QueueRow → Bool
  check_mutable_options_drifted [] existing = false
  check_mutable_options_drifted ((key, declared) ∷ opts) existing =
      let rest = check_mutable_options_drifted opts existing in
      if agrees key declared existing then rest else true

  -- `{k: v for k, v in opts.items() if k in MUTABLE_OPTION_KEYS}`
  unfoldable pub mutable_options : Dict Json → Dict Json
  mutable_options [] = []
  mutable_options ((key, value) ∷ opts) =
      let rest = mutable_options opts in
      if contains mutable_option_keys key then (key, value) ∷ rest else rest

  abbrev pub is_filled {ℓ} : {A : Type ℓ} → List A → Bool
  is_filled [] = false
  is_filled (_ ∷ _) = true

  unfoldable pub require_installed_schema : Run W (Unit {0})
  require_installed_schema w = if schema_absent w then throw schema_not_installed w else pure tt w

  -- The plan of a queue that has this row, or none.
  unfoldable pub plan_from : String → Dict Json → Option QueueRow → List String → QueuePlan
  plan_from queue_name opts none absent = record {
    queue_name = queue_name;
    create_options = some opts;
    repair = false;
    policy_options = none;
  }
  plan_from queue_name opts (some existing) absent =
      let mutable_opts = mutable_options opts in
      record {
        queue_name = queue_name;
        create_options = none;
        repair = is_filled absent;
        policy_options =
            if is_filled mutable_opts && check_mutable_options_drifted mutable_opts existing
            then some mutable_opts
            else none;
      }

  unfoldable pub plan_queue : String → Dict Json → Run W QueuePlan
  plan_queue queue_name opts = do
    require_installed_schema
    λ w. (ok (plan_from queue_name opts (row queue_name w) (missing queue_name w)), w)

  abbrev apply_create : String → Option (Dict Json) → Run W (Unit {0})
  apply_create queue_name none = pure tt
  apply_create queue_name (some options) = create_queue queue_name options

  abbrev apply_policy : String → Option (Dict Json) → Run W (Unit {0})
  apply_policy queue_name none = pure tt
  apply_policy queue_name (some options) = set_queue_policy queue_name options

  unfoldable pub apply_queue_plan : QueuePlan → Run W (Unit {0})
  apply_queue_plan plan = do
    apply_create plan.queue_name plan.create_options
    if plan.repair then create_queue plan.queue_name [] else pure tt
    apply_policy plan.queue_name plan.policy_options

  -- The names of the plans for which a test holds.
  abbrev named_if : Bool → String → List String → List String
  named_if true name names = name ∷ names
  named_if false name names = names

  unfoldable pub summarize_queue_plans : List QueuePlan → SyncResult
  summarize_queue_plans [] = record { created = []; reconciled = []; repaired = [] }
  summarize_queue_plans (plan ∷ plans) =
      let rest = summarize_queue_plans plans in
      record {
        created = named_if (is_some plan.create_options) plan.queue_name rest.created;
        reconciled = named_if (is_some plan.policy_options) plan.queue_name rest.reconciled;
        repaired = named_if plan.repair plan.queue_name rest.repaired;
      }

  -- The read and the write for one queue, with its declared options.
  unfoldable pub reconcile_with : String → Dict Json → Run W SyncResult
  reconcile_with queue_name opts = do
    plan ← plan_queue queue_name opts
    apply_queue_plan plan
    pure (summarize_queue_plans (plan ∷ []))

  unfoldable pub reconcile_queue : Backend → String → Run W SyncResult
  reconcile_queue backend queue_name = do
    validate_backend connections backend.database
    opts ← lift (declared_options backend queue_name)
    reconcile_with queue_name opts

  abbrev pub extend : SyncResult → SyncResult → SyncResult
  extend r s = record {
    created = r.created ++ s.created;
    reconciled = r.reconciled ++ s.reconciled;
    repaired = r.repaired ++ s.repaired;
  }

  abbrev pub no_changes : SyncResult
  no_changes = record { created = []; reconciled = []; repaired = [] }

  -- The loop of `sync_queues`; the result is logged and returned.
  unfoldable pub sync_names : Backend → List String → SyncResult → Run W SyncResult
  sync_names backend [] result = pure result
  sync_names backend (name ∷ names) result = do
    r ← reconcile_queue backend name
    sync_names backend names (extend result r)

  unfoldable pub sync_queues : Backend → Run W SyncResult
  sync_queues backend = sync_names backend (names_of (get_declared_queues backend)) no_changes

  -- The plans of `plan_queue_sync`, which writes nothing.
  unfoldable pub plan_names : Backend → List String → Run W (List QueuePlan)
  plan_names backend [] = pure []
  plan_names backend (name ∷ names) = do
    opts ← lift (declared_options backend name)
    plan ← plan_queue name opts
    plans ← plan_names backend names
    pure (plan ∷ plans)

  unfoldable pub plan_queue_sync : Backend → Run W SyncResult
  plan_queue_sync backend = do
    validate_backend connections backend.database
    require_installed_schema
    plans ← plan_names backend (names_of (get_declared_queues backend))
    pure (summarize_queue_plans plans)
