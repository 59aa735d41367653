-- ===== src/PgCron/Catalog/Table.antt =====
-- What the writes leave in `cron.job`.
use django_absurd.Prelude.{
  ℕ, String, ◌≡◌, refl, sym, ◌∙◌, ap, Bool, true, ◌&&◌, not, List, [], ◌∷◌, map, keep, ◌==◌,
  if◌then◌else◌, nat_beq, Option, none, some, arith, Bool-cases, inl, inr,
}
use django_absurd.Prelude.Keeping.{
  contains_id, keep-true, keep-keep, keep-keyed, keep-All, All-every, NodupKeys,
}
use django_absurd.Exceptions.{Exception, improperly_configured}
use django_absurd.Effect.{
  Result, ok, raised, Run, pure, throw, try_except, try_finally, and_then, >>=-eq-ok,
  try_finally-eq-ok, translated-eq-ok, raised-ne-ok, ◌>>◌,
}
use django_absurd.Connection.{resolve_cron_database, open_central_connection}
use django_absurd.PgCron.Detection.{Environment}
use django_absurd.PgCron.Catalog.{
  Job, PgCron, is_internal_error, unschedule_jobid, unschedule_jobids, unschedule_where,
}

module _ {W : Type 0} (cron : PgCron W) where
  abbrev pub without_id : ℕ → List Job → List Job
  without_id jobid = keep (λ job. not (nat_beq jobid job.jobid))

  abbrev pub armed : ℕ → Bool → Job → Job
  armed jobid active job = if nat_beq jobid job.jobid then record job { active = active } else job

  -- What pg_cron documents of its table and its functions. A job's id is its primary key.
  -- `schedule_in_database` inserts the job of a name or updates it, and touches no other; it leaves the
  -- `active` of a job that is there as it was. `alter_job` sets it. `unschedule` deletes the job of an
  -- id, and raises an internal error where there is none. Opening and closing a connection change no
  -- job.
  pub record IsCron : Type 0 where
    pub keyed : (w : W) → NodupKeys (λ job. job.jobid) (cron.jobs w)
    pub scheduled_others :
        (jobname schedule command database : String) (active : Bool) (w : W)
        → keep
            (λ job. not (job.jobname == jobname))
            (cron.jobs (cron.schedule_in_database jobname schedule command database active w).1)
          ≡ keep (λ job. not (job.jobname == jobname)) (cron.jobs w)
    pub scheduled_named :
        (jobname schedule command database : String) (active : Bool) (w : W) (jobid : ℕ)
        → (cron.schedule_in_database jobname schedule command database active w).0 ≡ ok jobid
        → (was : Bool) × (keep
              (λ job. job.jobname == jobname)
              (cron.jobs (cron.schedule_in_database jobname schedule command database active w).1)
            ≡ (record {
              jobid = jobid;
              jobname = jobname;
              schedule = schedule;
              command = command;
              database = database;
              active = was;
            })
              ∷ [])
    pub altered :
        (jobid : ℕ) (active : Bool) (w : W)
        → (cron.alter_job jobid active w).0 ≡ ok tt
        → cron.jobs (cron.alter_job jobid active w).1 ≡ map (armed jobid active) (cron.jobs w)
    pub unscheduled :
        (jobid : ℕ) (w : W)
        → (cron.unschedule jobid w).0 ≡ ok tt
        → cron.jobs (cron.unschedule jobid w).1 ≡ without_id jobid (cron.jobs w)
    pub gone :
        (jobid : ℕ) (w : W) (e : Exception)
        → (cron.unschedule jobid w).0 ≡ raised e
        → is_internal_error e ≡ true
        → cron.jobs (cron.unschedule jobid w).1 ≡ without_id jobid (cron.jobs w)
    pub details_kept :
        (database : String) (w : W) → cron.jobs (cron.delete_run_details database w).1 ≡ cron.jobs w
    pub named_kept :
        (alias : String) (w : W)
        → cron.jobs (cron.central.cron_database_name alias w).1 ≡ cron.jobs w
    pub connect_kept :
        (alias name : String) (w : W)
        → cron.jobs (cron.central.connect alias name w).1 ≡ cron.jobs w
    pub close_kept : (w : W) → cron.jobs (cron.central.close w).1 ≡ cron.jobs w

module _ {W : Type 0} (env : Environment) (cron : PgCron W) (is_cron : IsCron cron) where
  removed_one :
      (jobid : ℕ) (w : W)
      → (unschedule_jobid env cron jobid w).0 ≡ ok tt
      → cron.jobs (unschedule_jobid env cron jobid w).1 ≡ without_id cron jobid (cron.jobs w)
  removed_one jobid w = by_outcome (cron.unschedule jobid w).0 refl
    where
      by_outcome :
          (r : Result (Unit {0}))
          → (cron.unschedule jobid w).0 ≡ r
          → let done : Result (Unit {0}) × W = elim r [
            | ok a ↦ (ok a, (cron.unschedule jobid w).1)
            | raised e ↦
                (if is_internal_error e then pure tt else throw e) (cron.unschedule jobid w).1
          ] in
            done.0 ≡ ok tt → cron.jobs done.1 ≡ without_id cron jobid (cron.jobs w)
      by_outcome (ok _) q h = is_cron.unscheduled jobid w q
      by_outcome (raised e) q h = elim (Bool-cases (is_internal_error e)) [
        | inl gone ↦ rw gone (is_cron.gone jobid w e q gone)
        | inr other ↦ absurd (raised-ne-ok (rw other at h))
      ]

  removed :
      (jobids : List ℕ) (w : W)
      → (unschedule_jobids env cron jobids w).0 ≡ ok tt
      → cron.jobs (unschedule_jobids env cron jobids w).1
        ≡ keep (λ job. not (contains_id jobids job.jobid)) (cron.jobs w)
  unfolding unschedule_jobids
  removed [] w h = sym (keep-true (cron.jobs w))
  removed (jobid ∷ jobids) w h =
      let (_, one, step) =
        >>=-eq-ok (unschedule_jobid env cron jobid) (λ _. unschedule_jobids env cron jobids) w h in
      rw step (
        removed jobids (unschedule_jobid env cron jobid w).1 (rw step at h)
        ∙ ap (keep (λ job. not (contains_id jobids job.jobid))) (removed_one jobid w one)
        ∙ keep-keep _ _ (cron.jobs w)
        ∙ keep-All (λ job. not (nat_beq jobid job.jobid) && not (contains_id jobids job.jobid)) _
            (cron.jobs w) (All-every (λ job. ground arith) (cron.jobs w)))

  -- What a selection removes is exactly what it selects.
  pub unschedule_where-jobs :
      (test : Job → Bool) (w : W)
      → (unschedule_where env cron test w).0 ≡ ok tt
      → cron.jobs (unschedule_where env cron test w).1 ≡ keep (λ job. not (test job)) (cron.jobs w)
  unfolding unschedule_where
  unschedule_where-jobs test w h =
      removed _ w h ∙ keep-keyed (λ job. job.jobid) test (cron.jobs w) (is_cron.keyed w)

  resolved_kept :
      (alias : String) (w : W)
      → cron.jobs (resolve_cron_database cron.central alias w).1 ≡ cron.jobs w
  unfolding resolve_cron_database
  resolved_kept alias w =
      by_name (cron.central.cron_database_name alias w).0 ∙ is_cron.named_kept alias w
    where
      by_name :
          (r : Result (Option String))
          → let w' = (cron.central.cron_database_name alias w).1 in
            cron.jobs
              (and_then {B = String} r
                (λ dbname. elim dbname [
                  | some name ↦ pure name
                  | none ↦ throw improperly_configured
                ])
                w').1
            ≡ cron.jobs w'
      by_name (ok (some name)) = refl
      by_name (ok none) = refl
      by_name (raised e) = refl

  -- A body on the central connection that returned ran on the same table, and leaves its own.
  pub open_central_connection-eq-ok :
      (alias : String) (body : Run W (Unit {0})) (w : W)
      → (open_central_connection cron.central alias body w).0 ≡ ok tt
      → (opened : W) × (cron.jobs opened ≡ cron.jobs w)
        × ((body opened).0 ≡ ok tt)
        × (cron.jobs (open_central_connection cron.central alias body w).1
            ≡ cron.jobs (body opened).1)
  unfolding open_central_connection
  open_central_connection-eq-ok alias body w h =
      let guarded : Run W (Unit {0}) =
        try_except body (λ e. throw (cron.central.wrap_database_errors e)) in
      let (dbname, _, s₁) =
        >>=-eq-ok (resolve_cron_database cron.central alias)
          (λ dbname. cron.central.connect alias dbname >> try_finally guarded cron.central.close) w
          h in
      let found = (resolve_cron_database cron.central alias w).1 in
      let (_, _, s₂) =
        >>=-eq-ok (cron.central.connect alias dbname) (λ _. try_finally guarded cron.central.close)
          found (rw s₁ at h) in
      let opened = (cron.central.connect alias dbname found).1 in
      let (ran, closed) =
        try_finally-eq-ok guarded cron.central.close opened
          (ap (λ r. r.0) (sym s₂) ∙ (rw s₁ at h)) in
      let (done, same) = translated-eq-ok body cron.central.wrap_database_errors opened ran in
      (
        opened,
        is_cron.connect_kept alias dbname found ∙ resolved_kept alias w,
        done,
        ap (λ r. cron.jobs r.1) (s₁ ∙ s₂)
            ∙ ap cron.jobs closed
            ∙ is_cron.close_kept _
            ∙ ap cron.jobs same,
      )
