-- ===== src/Tests/Crons.antt =====
-- Tests of the app django_absurd.pg_cron, over a catalog with room for one job.
use django_absurd.Exceptions.{eof_error}
use django_absurd.Effect.{throw}
use django_absurd.Flush.{Flusher}
use django_absurd.Plugin.{
  Session, sweep_orphaned_pg_cron_jobs, sweep_stranded_fake_now, sweeps-live,
}
use django_absurd.Commands.Flush.{handle}
use django_absurd.Commands.Confirm.{handle-declined}
use django_absurd.Prelude.{
  ℕ, String, ◌≡◌, refl, Bool, true, false, not, Option, none, some, List, [], ◌∷◌, keep, map, ◌==◌,
  eq_refl, if◌then◌else◌, nat_beq, arith, Bool-cases, inl, inr,
}
use django_absurd.Prelude.Dicts
use django_absurd.Prelude.Texts.{starts_with}
use django_absurd.Exceptions.{psycopg_error, import_error}
use django_absurd.Effect.{Result, ok, raised, pure, raised-ne-ok}
use django_absurd.Json.{text, number, object}
use django_absurd.Backend.{Backend}
use django_absurd.Connection.{open_central_connection, resolve_cron_database}
use django_absurd.Settings.{resolve_absurd_database, backend_on}
use django_absurd.Scheduler.Entries.{get_settings_schedules, get_cleanup_schedule}
use django_absurd.Scheduler.{Schedule}
use django_absurd.Prelude.Keeping.{NodupKeys}
use django_absurd.PgCron.Detection.{
  Environment, is_test_database, pg_cron_on_test_db, is_pg_cron_inert,
}
use django_absurd.PgCron.Catalog.{Job, PgCron, build_jobname, is_stale, schedule_job, prune_jobs}
use django_absurd.PgCron.Catalog.Table.{IsCron, armed}
use django_absurd.PgCron.Catalog.Lanes.{Scheduled, schedule_job-jobs, prune_jobs-jobs}
use django_absurd.PgCron.Catalog.{unschedule_where, unschedule_jobids}
use django_absurd.PgCron.Rows.{Orm, delete_rows, unschedule_deleted}
use django_absurd.PgCron.Reconcile.{sync_crons, settings_source, sync_rows, reconcile_cleanup_job}
use django_absurd.PgCron.Reconcile.Orphans.{sync_crons-no_orphans}

abbrev Slot : Type 0
Slot = Option Job

abbrev table : Slot → List Job
table none = []
table (some job) = job ∷ []

abbrev job_one : (jobname cron command database : String) → Bool → Job
job_one jobname cron command database active = record {
  jobid = 1;
  jobname = jobname;
  schedule = cron;
  command = command;
  database = database;
  active = active;
}

-- A second name finds no room.
abbrev schedule_slot : (jobname cron command database : String) → Bool → Slot → Result ℕ × Slot
schedule_slot jobname cron command database active none =
    (ok 1, some (job_one jobname cron command database active))
schedule_slot jobname cron command database active (some job) =
    if job.jobname == jobname
    then (ok 1, some (job_one jobname cron command database job.active))
    else (raised (psycopg_error "53100"), some job)

abbrev alter_slot : ℕ → Bool → Slot → Result (Unit {0}) × Slot
alter_slot jobid active none = (ok tt, none)
alter_slot jobid active (some job) =
    (ok tt, some (if nat_beq jobid job.jobid then record job { active = active } else job))

abbrev unschedule_slot : ℕ → Slot → Result (Unit {0}) × Slot
unschedule_slot jobid none = (raised (psycopg_error "XX000"), none)
unschedule_slot jobid (some job) =
    if nat_beq jobid job.jobid then (ok tt, none) else (raised (psycopg_error "XX000"), some job)

abbrev catalog : PgCron Slot
catalog = record {
  central = record {
    cron_database_name = λ _. pure (some "postgres");
    connect = λ _ _. pure tt;
    close = pure tt;
    wrap_database_errors = λ e. e;
  };
  jobs = table;
  schedule_in_database = schedule_slot;
  alter_job = alter_slot;
  unschedule = unschedule_slot;
  delete_run_details = λ _. pure tt;
}

keyed : (w : Slot) → NodupKeys (λ job. job.jobid) (table w)
keyed none = tt
keyed (some job) = (tt, tt)

abbrev named : String → Job → Bool
named jobname job = job.jobname == jobname

others :
    (jobname cron command database : String) (active : Bool) (w : Slot)
    → keep
        (λ job. not (named jobname job))
        (table (schedule_slot jobname cron command database active w).1)
      ≡ keep (λ job. not (named jobname job)) (table w)
others jobname cron command database active none = rw (eq_refl jobname)
others jobname cron command database active (some job) =
    elim (Bool-cases (job.jobname == jobname)) [
      | inl same ↦ rw (same, eq_refl jobname)
      | inr other ↦ rw other (rw other refl)
    ]

one :
    (jobname cron command database : String) (active : Bool) (w : Slot) (jobid : ℕ)
    → (schedule_slot jobname cron command database active w).0 ≡ ok jobid
    → (was : Bool) × (keep
          (named jobname)
          (table (schedule_slot jobname cron command database active w).1)
        ≡ (record {
          jobid = jobid;
          jobname = jobname;
          schedule = cron;
          command = command;
          database = database;
          active = was;
        })
          ∷ [])
one jobname cron command database active none jobid h = (active, rw (eq_refl jobname) (cc h))
one jobname cron command database active (some job) jobid h =
    elim (Bool-cases (job.jobname == jobname)) [
      | inl same ↦ (job.active, rw (same, eq_refl jobname) (cc (rw same at h)))
      | inr other ↦ absurd (raised-ne-ok (rw other at h))
    ]

altered :
    (jobid : ℕ) (active : Bool) (w : Slot)
    → table (alter_slot jobid active w).1 ≡ map (armed catalog jobid active) (table w)
altered jobid active none = refl
altered jobid active (some job) = refl

removed :
    (jobid : ℕ) (w : Slot)
    → table (unschedule_slot jobid w).1 ≡ keep (λ job. not (nat_beq jobid job.jobid)) (table w)
removed jobid none = refl
removed jobid (some job) = ground arith

catalog-IsCron : IsCron catalog
catalog-IsCron = record {
  keyed = keyed;
  scheduled_others = others;
  scheduled_named = one;
  altered = λ jobid active w h. altered jobid active w;
  unscheduled = λ jobid w h. removed jobid w;
  gone = λ jobid w e h g. removed jobid w;
  details_kept = λ database w. refl;
  named_kept = λ alias w. refl;
  connect_kept = λ alias name w. refl;
  close_kept = λ w. refl;
}

abbrev backend : Backend
backend = record {
  alias = "default";
  options = ("CLEANUP", object (("schedule", text "0 3 * * *") ∷ [])) ∷ [];
  queues = "default" ∷ [];
  database = "default";
  default_max_attempts = number 5;
}

abbrev live_site : Environment
live_site = record {
  backends = backend ∷ [];
  live_name = λ _. "app";
  original_database_names = ("default", "app") ∷ [];
  is_test_environment = false;
  bool = λ _. true;
}

live : is_pg_cron_inert live_site "default" ≡ false
unfolding is_pg_cron_inert is_test_database pg_cron_on_test_db backend_on Dicts.get
live = refl

abbrev no_rows : Orm Slot
no_rows = record {
  rows = λ _. [];
  save = λ _. pure true;
  delete_where = λ _. pure tt;
  format_command = λ _ _ _. pure "select 1";
  log_warning = pure tt;
}

scheduled :
    (schedule_job live_site catalog "default" "nightly" "s" "0 2 * * *" "select 2" true none).0
    ≡ ok tt
unfolding schedule_job is_pg_cron_inert is_test_database pg_cron_on_test_db backend_on Dicts.get
    open_central_connection resolve_cron_database build_jobname
scheduled = refl

-- The job of a schedule that the settings no longer declare.
abbrev left_over : Slot
left_over = some (job_one "_dj:app:s:old" "* * * * *" "select 1" "app" true)

pruned : (prune_jobs live_site catalog "default" "s" ("new" ∷ []) left_over).0 ≡ ok tt
unfolding prune_jobs is_pg_cron_inert is_test_database pg_cron_on_test_db backend_on Dicts.get
    open_central_connection resolve_cron_database build_jobname unschedule_where unschedule_jobids
    starts_with
pruned = refl

synced :
    (sync_crons
      (λ _. raised import_error)
      (λ o. ok o)
      live_site
      catalog
      no_rows
      backend
      left_over).0
    ≡ ok (0, 0)
unfolding sync_crons get_settings_schedules Dicts.get sync_rows delete_rows unschedule_deleted
    prune_jobs is_pg_cron_inert is_test_database resolve_absurd_database open_central_connection
    resolve_cron_database unschedule_where unschedule_jobids starts_with build_jobname
    reconcile_cleanup_job get_cleanup_schedule schedule_job pg_cron_on_test_db backend_on
synced = refl

sync_crons-no_orphans_example :
    (schedules : List Schedule) × (get_settings_schedules backend ≡ ok schedules)
    × (keep (is_stale live_site catalog "app" settings_source (map (λ s. s.name) schedules)) (
          table
            (sync_crons
              (λ _. raised import_error)
              (λ o. ok o)
              live_site
              catalog
              no_rows
              backend
              left_over).1)
        ≡ [])
unfolding resolve_absurd_database
sync_crons-no_orphans_example =
    sync_crons-no_orphans live_site catalog no_rows catalog-IsCron (λ _. raised import_error)
      (λ o. ok o) live backend left_over synced

schedule_job-jobs_example :
    Scheduled live_site catalog catalog-IsCron
      (build_jobname "app" "s" "nightly")
      "0 2 * * *"
      "select 2"
      "app"
      true
      (table none)
      (table
        (schedule_job live_site catalog "default" "nightly" "s" "0 2 * * *" "select 2" true none).1)
schedule_job-jobs_example =
    schedule_job-jobs live_site catalog catalog-IsCron "default" "nightly" "s" "0 2 * * *"
      "select 2" true none live scheduled

prune_jobs-jobs_example :
    table (prune_jobs live_site catalog "default" "s" ("new" ∷ []) left_over).1
    ≡ keep (λ job. not (is_stale live_site catalog "app" "s" ("new" ∷ []) job)) (table left_over)
prune_jobs-jobs_example =
    prune_jobs-jobs live_site catalog catalog-IsCron "default" "s" ("new" ∷ []) left_over live
      pruned

-- A queue that is there, and statements that would free the slot.
abbrev freeing : Flusher Slot
freeing = record {
  connect = λ _. pure tt;
  reset_clock = λ _. pure tt;
  close = pure tt;
  wrap_database_errors = λ e. e;
  list_provisioned_queues = pure ("default" ∷ []);
  drop_queue = λ _ _. (ok tt, none);
  has_table = λ _. pure true;
  truncate = λ _ _. (ok tt, none);
}

handle-declined_example :
    table
      (handle freeing live_site catalog no_rows true
        (λ _. pure tt)
        (throw eof_error)
        (backend ∷ [])
        true
        left_over).1
    ≡ table left_over
handle-declined_example =
    handle-declined table freeing live_site catalog no_rows true (λ _. pure tt) (throw eof_error)
      (λ _ _. refl) (λ _. refl) (backend ∷ []) (λ _. refl) (λ _ h. raised-ne-ok h) left_over

-- A session that swaps no name.
abbrev live_session : Session Slot
live_session = record {
  is_configured = true;
  settings_name = λ _ _. "app";
  django_db_setup = pure tt;
  unblock = λ m. m;
}

sweeps-live_example :
    (table (sweep_orphaned_pg_cron_jobs live_session live_site catalog true left_over).1
      ≡ table left_over)
    × (table (sweep_stranded_fake_now live_session live_site catalog no_rows freeing left_over).1
        ≡ table left_over)
sweeps-live_example =
    sweeps-live live_session live_site table catalog true no_rows freeing left_over refl refl
