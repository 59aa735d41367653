-- ===== src/PgCron/Catalog/Lanes.antt =====
-- What each verb of the catalog does to `cron.job`: which jobs go, which one comes, and that no other
-- is touched.
use django_absurd.Prelude.{
  ℕ, String, ◌≡◌, refl, ◌∙◌, ap, Bool, true, false, not, List, [], ◌∷◌, map, keep, ◌==◌,
  if◌then◌else◌, nat_beq, arith, Bool-cases, ◌⊎◌, inl, inr, All,
}
use django_absurd.Prelude.Keeping.{keep-apart}
use django_absurd.Effect.{ok, Run, >>=-eq-ok, ◌>>=◌}
use django_absurd.Connection.{open_central_connection}
use django_absurd.PgCron.Detection.{Environment, is_pg_cron_inert}
use django_absurd.PgCron.Catalog.{
  Job, PgCron, build_jobname, is_owned, is_stale, unschedule_where, schedule_job, unschedule_job,
  unschedule_jobs_for_database, prune_jobs, flush_database_jobs,
}
use django_absurd.PgCron.Catalog.Table.{
  IsCron, armed, unschedule_where-jobs, open_central_connection-eq-ok,
}

module _ {W : Type 0} (env : Environment) (cron : PgCron W) (is_cron : IsCron cron) where
  open_where :
      (alias : String) (test : Job → Bool) (w : W)
      → (open_central_connection cron.central alias (unschedule_where env cron test) w).0 ≡ ok tt
      → cron.jobs (open_central_connection cron.central alias (unschedule_where env cron test) w).1
        ≡ keep (λ job. not (test job)) (cron.jobs w)
  open_where alias test w h =
      let (opened, same, done, after) =
        open_central_connection-eq-ok env cron is_cron alias (unschedule_where env cron test) w h in
      after
      ∙ unschedule_where-jobs env cron is_cron test opened done
      ∙ ap (keep (λ job. not (test job))) same

  -- Where scheduling is not inert and the extension's calls keep their laws, a pruning that returns has
  -- removed exactly the jobs of its lane on its database whose names are not kept, also where
  -- an `unschedule` finds its job gone.
  pub prune_jobs-jobs :
      (alias source : String) (keep_names : List String) (w : W)
      → is_pg_cron_inert env alias ≡ false
      → (prune_jobs env cron alias source keep_names w).0 ≡ ok tt
      → cron.jobs (prune_jobs env cron alias source keep_names w).1
        ≡ keep
            (λ job. not (is_stale env cron (env.live_name alias) source keep_names job))
            (cron.jobs w)
  unfolding prune_jobs
  prune_jobs-jobs alias source keep_names w live h = rw live (open_where alias _ w (rw live at h))

  pub unschedule_job-jobs :
      (alias name source : String) (w : W)
      → is_pg_cron_inert env alias ≡ false
      → (unschedule_job env cron alias name source w).0 ≡ ok tt
      → cron.jobs (unschedule_job env cron alias name source w).1
        ≡ keep
            (λ job. not (job.jobname == build_jobname (env.live_name alias) source name))
            (cron.jobs w)
  unfolding unschedule_job
  unschedule_job-jobs alias name source w live h = rw live (open_where alias _ w (rw live at h))

  pub unschedule_jobs_for_database-jobs :
      (alias source : String) (w : W)
      → is_pg_cron_inert env alias ≡ false
      → (unschedule_jobs_for_database env cron alias source w).0 ≡ ok tt
      → cron.jobs (unschedule_jobs_for_database env cron alias source w).1
        ≡ keep
            (λ job.
              not (
                is_owned (env.live_name alias) (build_jobname (env.live_name alias) source "") job))
            (cron.jobs w)
  unfolding unschedule_jobs_for_database
  unschedule_jobs_for_database-jobs alias source w live h =
      rw live (open_where alias _ w (rw live at h))

  -- A flush removes exactly this database's own jobs, of every lane.
  pub flush_database_jobs-jobs :
      (alias : String) (w : W)
      → is_pg_cron_inert env alias ≡ false
      → (flush_database_jobs env cron alias w).0 ≡ ok tt
      → cron.jobs (flush_database_jobs env cron alias w).1
        ≡ keep (λ job. not (is_owned (env.live_name alias) "_dj:" job)) (cron.jobs w)
  unfolding flush_database_jobs
  flush_database_jobs-jobs alias w live h =
      let h' = rw live at h in
      let test = is_owned (env.live_name alias) "_dj:" in
      let (opened, same, done, after) =
        open_central_connection-eq-ok env cron is_cron alias _ w h' in
      let (_, first, step) =
        >>=-eq-ok (unschedule_where env cron test)
          (λ _. cron.delete_run_details (env.live_name alias)) opened done in
      rw live (
        after
        ∙ ap (λ r. cron.jobs r.1) step
        ∙ is_cron.details_kept _ _
        ∙ unschedule_where-jobs env cron is_cron test opened first
        ∙ ap (keep (λ job. not (test job))) same)

  -- Where nothing may be scheduled, nothing is.
  pub schedule_job-inert :
      (alias name source schedule command : String) (active : Bool) (w : W)
      → is_pg_cron_inert env alias ≡ true
      → schedule_job env cron alias name source schedule command active w ≡ (ok tt, w)
  unfolding schedule_job
  schedule_job-inert alias name source schedule command active w inert = rw inert

  -- Arming one job leaves the others of the table as they are.
  others_kept :
      (q : Job → Bool) (jobid : ℕ) (active : Bool) (jobs : List Job)
      → All (λ job. (q job ≡ true) ⊎ (nat_beq jobid job.jobid ≡ false)) jobs
      → ((b : Bool) (job : Job) → q (record job { active = b }) ≡ q job)
      → keep (λ job. not (q job)) (map (armed cron jobid active) jobs)
        ≡ keep (λ job. not (q job)) jobs
  others_kept q jobid active [] h blind = refl
  others_kept q jobid active (job ∷ jobs) (inl is, h) blind =
      elim (Bool-cases (nat_beq jobid job.jobid)) [
        | inl same ↦ rw (same, blind active job, is) (others_kept q jobid active jobs h blind)
        | inr other ↦ rw (other, is) (others_kept q jobid active jobs h blind)
      ]
  others_kept q jobid active (job ∷ jobs) (inr other, h) blind =
      rw other
        (ap (λ js. if not (q job) then job ∷ js else js) (others_kept q jobid active jobs h blind))

  named_armed :
      (q : Job → Bool) (jobid : ℕ) (active : Bool) (jobs : List Job)
      → ((b : Bool) (job : Job) → q (record job { active = b }) ≡ q job)
      → keep q (map (armed cron jobid active) jobs) ≡ map (armed cron jobid active) (keep q jobs)
  named_armed q jobid active [] blind = refl
  named_armed q jobid active (job ∷ jobs) blind = elim (Bool-cases (q job)) [
    | inl is ↦
        rw (still, is)
          (ap (λ js. armed cron jobid active job ∷ js) (named_armed q jobid active jobs blind))
    | inr isnt ↦ rw (still, isnt) (named_armed q jobid active jobs blind)
  ]
    where
      still : q (armed cron jobid active job) ≡ q job
      still = elim (Bool-cases (nat_beq jobid job.jobid)) [
        | inl same ↦ rw same (blind active job)
        | inr other ↦ rw other
      ]

  -- The table in which one job of a name stands with these values, and every other job as before.
  abbrev pub Scheduled :
      (jobname schedule command database : String) → Bool → List Job → List Job → Type 0
  Scheduled jobname schedule command database active before after =
      ((jobid : ℕ) × (keep (λ job. job.jobname == jobname) after
          ≡ (record {
            jobid = jobid;
            jobname = jobname;
            schedule = schedule;
            command = command;
            database = database;
            active = active;
          })
            ∷ []))
      × (keep (λ job. not (job.jobname == jobname)) after
          ≡ keep (λ job. not (job.jobname == jobname)) before)

  module _ (jobname schedule command database : String) (active : Bool) where
    abbrev arm : ℕ → Run W (Unit {0})
    arm jobid = cron.alter_job jobid active

    insert_and_arm :
        (w : W)
        → ((cron.schedule_in_database jobname schedule command database active >>= arm) w).0 ≡ ok tt
        → Scheduled jobname schedule command database active (cron.jobs w) (
            cron.jobs
              ((cron.schedule_in_database jobname schedule command database active >>= arm) w).1)
    insert_and_arm w h =
        let named : Job → Bool = λ job. job.jobname == jobname in
        let (jobid, made, step) =
          >>=-eq-ok (cron.schedule_in_database jobname schedule command database active) arm w h in
        let (was, one) =
          is_cron.scheduled_named jobname schedule command database active w jobid made in
        let w₁ = (cron.schedule_in_database jobname schedule command database active w).1 in
        let ends = ap (λ r. cron.jobs r.1) step ∙ is_cron.altered jobid active w₁ (rw step at h) in
        let apart = keep-apart (λ job. job.jobid) named (cron.jobs w₁) _ (is_cron.keyed w₁) one in
        (
          (
            jobid,
            ap (keep named) ends
                ∙ named_armed named jobid active (cron.jobs w₁) (λ b job. refl)
                ∙ ap (map (armed cron jobid active)) one
                ∙ ground arith,
          ),
          ap (keep (λ job. not (named job))) ends
              ∙ others_kept named jobid active (cron.jobs w₁) apart (λ b job. refl)
              ∙ is_cron.scheduled_others jobname schedule command database active w,
        )

  -- Where scheduling is not inert and the extension's calls keep their laws, a scheduling that returns
  -- leaves one job of its name, with the values asked for, armed as asked for also where the job was
  -- there before; and it leaves the jobs of other names as they were.
  pub schedule_job-jobs :
      (alias name source schedule command : String) (active : Bool) (w : W)
      → is_pg_cron_inert env alias ≡ false
      → (schedule_job env cron alias name source schedule command active w).0 ≡ ok tt
      → Scheduled
          (build_jobname (env.live_name alias) source name)
          schedule
          command
          (env.live_name alias)
          active
          (cron.jobs w)
          (cron.jobs (schedule_job env cron alias name source schedule command active w).1)
  unfolding schedule_job
  schedule_job-jobs alias name source schedule command active w live h =
      let jobname = build_jobname (env.live_name alias) source name in
      let (opened, same, done, after) =
        open_central_connection-eq-ok env cron is_cron alias _ w (rw live at h) in
      rw live (
        rw (after, ← same)
          (insert_and_arm jobname schedule command (env.live_name alias) active opened done))
