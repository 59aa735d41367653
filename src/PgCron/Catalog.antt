-- ===== src/PgCron/Catalog.antt =====
-- django_absurd/pg_cron/catalog.py: every write to the central table `cron.job`.
pub mod Table
pub mod Lanes
use django_absurd.Prelude.{
  ℕ, String, Bool, true, false, ◌&&◌, not, List, [], ◌∷◌, ◌<>◌, map, keep, contains, ◌==◌,
  if◌then◌else◌,
}
use django_absurd.Prelude.Texts.{starts_with}
use django_absurd.Exceptions.{Exception, psycopg_error}
use django_absurd.Effect.{Run, pure, throw, try_except, ◌>>=◌, ◌>>◌}
use django_absurd.Connection.{Central, open_central_connection}
use django_absurd.PgCron.Detection.{Environment, is_pg_cron_inert}

-- A row of `cron.job`.
pub record Job : Type 0 where
  pub jobid : ℕ
  pub jobname : String
  pub schedule : String
  pub command : String
  pub database : String
  pub active : Bool

-- The extension's functions on the central connection; `jobs` are the rows that a `select` sees.
pub record PgCron (W : Type 0) : Type 0 where
  pub central : Central W
  pub jobs : W → List Job
  pub schedule_in_database : (jobname cron command database : String) → Bool → Run W ℕ
  pub alter_job : ℕ → Bool → Run W (Unit {0})
  pub unschedule : ℕ → Run W (Unit {0})
  pub delete_run_details : String → Run W (Unit {0})

unfoldable pub build_jobname : (database source name : String) → String
build_jobname database source name = "_dj:" <> database <> ":" <> source <> ":" <> name

-- `exc.sqlstate == "XX000"`
abbrev pub is_internal_error : Exception → Bool
is_internal_error (psycopg_error state) = state == "XX000"
is_internal_error _ = false

-- `where database = … and starts_with(jobname, …)`
abbrev pub is_owned : (database prefix : String) → Job → Bool
is_owned database prefix job = (job.database == database) && starts_with prefix job.jobname

module _ {W : Type 0} (env : Environment) (cron : PgCron W) where
  open cron use {central, jobs, schedule_in_database, alter_job, unschedule, delete_run_details}

  -- `settings_dict["NAME"]`
  abbrev pub resolve_app_database_name : String → String
  resolve_app_database_name alias = env.live_name alias

  -- One job, whose absence is tolerated.
  abbrev pub unschedule_jobid : ℕ → Run W (Unit {0})
  unschedule_jobid jobid =
      try_except (unschedule jobid) (λ e. if is_internal_error e then pure tt else throw e)

  unfoldable pub unschedule_jobids : List ℕ → Run W (Unit {0})
  unschedule_jobids [] = pure tt
  unschedule_jobids (jobid ∷ jobids) = do unschedule_jobid jobid; unschedule_jobids jobids

  -- `select jobid …`, and the removal of what it returns.
  unfoldable pub unschedule_where : (Job → Bool) → Run W (Unit {0})
  unschedule_where test w = unschedule_jobids (map (λ job. job.jobid) (keep test (jobs w))) w

  unfoldable pub schedule_job :
      (alias name source cron command : String) (active : Bool) → Run W (Unit {0})
  schedule_job alias name source cron command active =
      if is_pg_cron_inert env alias
      then pure tt
      else open_central_connection central alias (do
        jobid ←
            schedule_in_database (build_jobname (resolve_app_database_name alias) source name) cron
              command (resolve_app_database_name alias) active
        alter_job jobid active)

  unfoldable pub unschedule_job : (alias name source : String) → Run W (Unit {0})
  unschedule_job alias name source =
      if is_pg_cron_inert env alias
      then pure tt
      else open_central_connection central alias (
          unschedule_where
            (λ job. job.jobname == build_jobname (resolve_app_database_name alias) source name))

  unfoldable pub unschedule_jobs_for_database : (alias source : String) → Run W (Unit {0})
  unschedule_jobs_for_database alias source =
      let database = resolve_app_database_name alias in
      if is_pg_cron_inert env alias
      then pure tt
      else open_central_connection central alias
          (unschedule_where (is_owned database (build_jobname database source "")))

  -- The names of the jobs that are kept.
  abbrev pub kept_jobnames : (database source : String) → List String → List String
  kept_jobnames database source keep_names = map (build_jobname database source) keep_names

  -- A job of the lane that has no row.
  abbrev pub is_stale : (database source : String) → List String → Job → Bool
  is_stale database source keep_names job =
      is_owned database (build_jobname database source "") job
      && not (contains (kept_jobnames database source keep_names) job.jobname)

  unfoldable pub prune_jobs : (alias source : String) → List String → Run W (Unit {0})
  prune_jobs alias source keep_names =
      let database = resolve_app_database_name alias in
      if is_pg_cron_inert env alias
      then pure tt
      else open_central_connection central alias
          (unschedule_where (is_stale database source keep_names))

  unfoldable pub flush_database_jobs : String → Run W (Unit {0})
  flush_database_jobs alias =
      let database = resolve_app_database_name alias in
      if is_pg_cron_inert env alias
      then pure tt
      else open_central_connection central alias
          (do unschedule_where (is_owned database "_dj:"); delete_run_details database)
