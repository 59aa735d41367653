-- ===== src/PgCron/Reconcile.antt =====
-- django_absurd/pg_cron/reconcile.py: rows and jobs for the declared schedules, and their removal.
pub mod Options
pub mod Orphans
use django_absurd.Prelude.{
  ℕ, zero, suc, ◌+◌, String, Bool, true, false, ◌&&◌, ◌||◌, not, Option, none, some, List, [], ◌∷◌,
  Dict, map, keep, contains, ◌==◌, if◌then◌else◌, with_default,
}
use django_absurd.Prelude.Dicts
use django_absurd.Exceptions.{attribute_error, bad_shape}
use django_absurd.Effect.{Result, ok, raised, bind_result, Run, pure, lift, ◌>>=◌, ◌>>◌}
use django_absurd.Json.{Json, null, flag, number, text, arr, obj, nil, end, dict_of}
use django_absurd.Task.{Task, SpawnKwargs, build_merged_spawn_options}
use django_absurd.Deferred.{Imported, imported_task, imported_value}
use django_absurd.Backend.{Backend}
use django_absurd.Settings.{resolve_absurd_database}
use django_absurd.Scheduler.{Schedule}
use django_absurd.Scheduler.Entries.{get_settings_schedules, get_cleanup_schedule}
use django_absurd.PgCron.Detection.{Environment}
use django_absurd.PgCron.Catalog.{
  PgCron, schedule_job, unschedule_job, unschedule_jobs_for_database, prune_jobs,
}
use django_absurd.PgCron.Rows.{ScheduledTask, Orm, schedule_pg_cron_job, save_row, delete_rows}

abbrev pub cleanup_source : String
cleanup_source = "c"

abbrev pub cleanup_name : String
cleanup_name = "cleanup_all"

abbrev pub cleanup_command : String
cleanup_command = "select * from absurd.cleanup_all_queues(null::text);"

-- `Source.SETTINGS` and `Source.ADMIN` of choices.py
abbrev pub settings_source : String
settings_source = "s"

abbrev pub admin_source : String
admin_source = "a"

-- The options of a scheduled task, before the SDK serializes them.
unfoldable pub scheduled_options : Backend → Task → SpawnKwargs
scheduled_options backend task =
    Dicts.setdefault "max_attempts" backend.default_max_attempts
      (build_merged_spawn_options task.func_params none)

-- `value or ""`
abbrev or_empty : Option Json → Json
or_empty none = text ""
or_empty (some null) = text ""
or_empty (some (flag false)) = text ""
or_empty (some (number zero)) = text ""
or_empty (some (arr nil)) = text ""
or_empty (some (obj end)) = text ""
or_empty (some value) = value

-- `opts.get(key) or {}`
abbrev nested : String → Dict Json → Result (Dict Json)
nested key opts = elim (Dicts.get key opts) [
  | none ↦ ok []
  | some null ↦ ok []
  | some (obj d) ↦ ok (dict_of d)
  | some _ ↦ raised bad_shape
]

-- `value.get(key)`
abbrev column : String → Dict Json → Json
column key value = with_default null (Dicts.get key value)

unfoldable pub spawn_columns : Dict Json → Result (Dict Json)
spawn_columns opts = bind_result (nested "retry_strategy" opts) λ retry_strategy.
    bind_result (nested "cancellation" opts) λ cancellation. ok (
      ("max_attempts", column "max_attempts" opts)
      ∷ ("retry_kind", or_empty (Dicts.get "kind" retry_strategy))
      ∷ ("retry_base_seconds", column "base_seconds" retry_strategy)
      ∷ ("retry_factor", column "factor" retry_strategy)
      ∷ ("retry_max_seconds", column "max_seconds" retry_strategy)
      ∷ ("cancellation_max_duration", column "max_duration" cancellation)
      ∷ ("cancellation_max_delay", column "max_delay" cancellation)
      ∷ ("headers", column "headers" opts)
      ∷ ("idempotency_key", or_empty (Dicts.get "idempotency_key" opts))
      ∷ [])

-- `queue_override or task.queue_name`
abbrev queue_of : Option String → String → String
queue_of none queue_name = queue_name
queue_of (some queue) queue_name = if queue == "" then queue_name else queue

-- `normalize` is the SDK's `_normalize_spawn_options`.
module _ (import_string : String → Result Imported)
    (normalize : SpawnKwargs → Result (Dict Json)) where
  unfoldable pub resolve_spawn_options : Backend → String → Result (Dict Json)
  resolve_spawn_options backend task_path = bind_result (import_string task_path) λ found.
      elim found [
        | imported_task task ↦ normalize (scheduled_options backend task)
        | imported_value ↦ raised attribute_error
      ]

  -- The queue and the columns of a task's row.
  unfoldable pub build_scheduled_fields :
      Backend → String → (queue_override : Option String) → Result (String × Dict Json)
  build_scheduled_fields backend task_path queue_override =
      bind_result (import_string task_path) λ found. elim found [
        | imported_task task ↦ bind_result (resolve_spawn_options backend task_path) λ opts.
            bind_result (spawn_columns opts)
              λ columns. ok (queue_of queue_override task.queue_name, columns)
        | imported_value ↦ raised attribute_error
      ]

  module _ {W : Type 0} (env : Environment) (cron : PgCron W) (orm : Orm W) where
    abbrev pub row_of : Schedule → String × Dict Json → ScheduledTask
    row_of schedule fields = record {
      name = schedule.name;
      source = settings_source;
      task = schedule.task;
      queue = fields.0;
      args = schedule.args;
      kwargs = schedule.kwargs;
      columns = fields.1;
      cron = schedule.cron;
      enabled = true;
    }

    -- The loop of `sync_crons`, with the number of rows that it created.
    unfoldable pub sync_rows : Backend → List Schedule → Run W ℕ
    sync_rows backend [] = pure 0
    sync_rows backend (schedule ∷ schedules) = do
      fields ← lift (build_scheduled_fields backend schedule.task schedule.queue)
      was_created ←
          save_row env cron orm (some (resolve_absurd_database env.backends))
            (row_of schedule fields)
      created ← sync_rows backend schedules
      pure ((if was_created then 1 else 0) + created)

    unfoldable pub reconcile_cleanup_job : Backend → Run W (Unit {0})
    reconcile_cleanup_job backend = do
      cleanup_cron ← lift (get_cleanup_schedule backend)
      elim cleanup_cron [
        | some schedule ↦
            schedule_job env cron (resolve_absurd_database env.backends) cleanup_name cleanup_source
              schedule cleanup_command true
        | none ↦
            unschedule_job env cron (resolve_absurd_database env.backends) cleanup_name
              cleanup_source
      ]

    -- A row that the settings no longer declare.
    abbrev pub is_undeclared : List String → ScheduledTask → Bool
    is_undeclared declared_names row =
        (row.source == settings_source) && not (contains declared_names row.name)

    abbrev pub declared_names : List Schedule → List String
    declared_names = map (λ s. s.name)

    unfoldable pub sync_crons : Backend → Run W (ℕ × ℕ)
    sync_crons backend = do
      schedules ← lift (get_settings_schedules backend)
      created ← sync_rows backend schedules
      pruned ←
          delete_rows env cron orm (some (resolve_absurd_database env.backends))
            (is_undeclared (declared_names schedules))
      prune_jobs env cron (resolve_absurd_database env.backends) settings_source
          (declared_names schedules)
      reconcile_cleanup_job backend
      pure (created, pruned)

module _ {W : Type 0} (env : Environment) (cron : PgCron W) (orm : Orm W) where
  unfoldable pub schedule_rows : List ScheduledTask → Run W (List String)
  schedule_rows [] = pure []
  schedule_rows (row ∷ rows) = do
    schedule_pg_cron_job env cron orm row
    names ← schedule_rows rows
    pure (row.name ∷ names)

  unfoldable pub sync_admin_crons : Run W (Unit {0})
  sync_admin_crons w =
      (do
        names ← schedule_rows (keep (λ row. row.source == admin_source) (orm.rows w))
        prune_jobs env cron (resolve_absurd_database env.backends) admin_source names)
        w

  unfoldable pub unschedule_lanes : List String → Run W (Unit {0})
  unschedule_lanes [] = pure tt
  unschedule_lanes (source ∷ sources) = do
    unschedule_jobs_for_database env cron (resolve_absurd_database env.backends) source
    unschedule_lanes sources

  abbrev pub torn_down : Bool → List String
  torn_down include_admin =
      if include_admin then settings_source ∷ admin_source ∷ [] else settings_source ∷ []

  unfoldable pub teardown_crons : Bool → Run W ℕ
  teardown_crons include_admin = do
    unschedule_lanes (torn_down include_admin)
    unschedule_job env cron (resolve_absurd_database env.backends) cleanup_name cleanup_source
    delete_rows env cron orm (some (resolve_absurd_database env.backends))
        (λ row. contains (torn_down include_admin) row.source)
