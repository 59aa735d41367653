-- ===== src/PgCron/Reconcile/Orphans.antt =====
-- No job without a declared schedule outlives a reconciliation.
use django_absurd.Prelude.{
  ℕ, String, ◌≡◌, sym, ◌∙◌, ap, true, false, not, Option, none, some, List, [], keep, ◌<>◌, ◌==◌,
  eq_iff, arith, Bool-cases, inl, inr,
}
use Prim.Native.String.append
use django_absurd.Prelude.Keeping.{keep_none, keep-keep_implied}
use django_absurd.Prelude.Texts.{starts_with, starts_with-append}
use django_absurd.Effect.{
  Result, ok, raised, Run, pure, lift, >>=-eq-ok, raised-ne-ok, and_then, ◌>>=◌,
}
use django_absurd.Task.{SpawnKwargs}
use django_absurd.Json.{Json}
use django_absurd.Prelude.{Dict}
use django_absurd.Deferred.{Imported}
use django_absurd.Backend.{Backend}
use django_absurd.Settings.{resolve_absurd_database}
use django_absurd.Scheduler.{Schedule}
use django_absurd.Scheduler.Entries.{get_settings_schedules, get_cleanup_schedule}
use django_absurd.PgCron.Detection.{Environment, is_pg_cron_inert}
use django_absurd.PgCron.Catalog.{
  Job, PgCron, build_jobname, is_stale, prune_jobs, schedule_job, unschedule_job,
}
use django_absurd.PgCron.Catalog.Table.{IsCron}
use django_absurd.PgCron.Catalog.Lanes.{prune_jobs-jobs, schedule_job-jobs, unschedule_job-jobs}
use django_absurd.PgCron.Rows.{Orm, delete_rows}
use django_absurd.PgCron.Reconcile.{
  cleanup_source, cleanup_name, cleanup_command, settings_source, sync_rows, reconcile_cleanup_job,
  is_undeclared, declared_names, sync_crons,
}

-- The lane of the settings and that of the cleanup job have no name in common.
lanes_apart :
    (database name : String)
    → starts_with
        (build_jobname database settings_source "")
        (build_jobname database cleanup_source name)
      ≡ false
unfolding build_jobname starts_with
lanes_apart database name =
    starts_with-append "_dj:" (database <> ":" <> settings_source <> ":" <> "")
      (database <> ":" <> cleanup_source <> ":" <> name)
    ∙ starts_with-append database (":" <> settings_source <> ":" <> "")
        (":" <> cleanup_source <> ":" <> name)
    ∙ starts_with-append ":" (settings_source <> ":" <> "") (cleanup_source <> ":" <> name)
    ∙ rw (append.cons "c" String.[] (":" <> name))

module _ {W : Type 0} (env : Environment) (cron : PgCron W) where
  stale_is_not_cleanup :
      (database : String) (names : List String) (job : Job)
      → is_stale env cron database settings_source names job ≡ true
      → not (job.jobname == build_jobname database cleanup_source cleanup_name) ≡ true
  stale_is_not_cleanup database names job h =
      elim (Bool-cases (job.jobname == build_jobname database cleanup_source cleanup_name)) [
        | inr other ↦ rw other
        | inl same ↦
            let e =
              (eq_iff job.jobname (build_jobname database cleanup_source cleanup_name)).0 same in
            ground (
              arith,
              lanes_apart database cleanup_name,
              ap (starts_with (build_jobname database settings_source "")) e,
            )
      ]

  module _ (is_cron : IsCron cron) (database : String)
      (live : is_pg_cron_inert env database ≡ false) where
    -- The write of the cleanup job leaves the lane of the settings as it is.
    cleanup_kept :
        (names : List String) (cleanup_cron : Option String) (w : W)
        → let write : Run W (Unit {0}) = elim cleanup_cron [
          | some schedule ↦
              schedule_job env cron database cleanup_name cleanup_source schedule cleanup_command
                true
          | none ↦ unschedule_job env cron database cleanup_name cleanup_source
        ] in
          (write w).0 ≡ ok tt
          → keep
              (is_stale env cron (env.live_name database) settings_source names)
              (cron.jobs (write w).1)
            ≡ keep (is_stale env cron (env.live_name database) settings_source names) (cron.jobs w)
    cleanup_kept names (some schedule) w h =
        let stale = is_stale env cron (env.live_name database) settings_source names in
        let (_, others) =
          schedule_job-jobs env cron is_cron database cleanup_name cleanup_source schedule
            cleanup_command true w live h in
        sym (keep-keep_implied stale _ _ (stale_is_not_cleanup (env.live_name database) names))
        ∙ ap (keep stale) others
        ∙ keep-keep_implied stale _ _ (stale_is_not_cleanup (env.live_name database) names)
    cleanup_kept names none w h =
        let stale = is_stale env cron (env.live_name database) settings_source names in
        ap (keep stale)
          (unschedule_job-jobs env cron is_cron database cleanup_name cleanup_source w live h)
        ∙ keep-keep_implied stale _ _ (stale_is_not_cleanup (env.live_name database) names)

module _ {W : Type 0} (env : Environment) (cron : PgCron W) (orm : Orm W) (is_cron : IsCron cron)
    (import_string : String → Result Imported) (normalize : SpawnKwargs → Result (Dict Json))
    (live : is_pg_cron_inert env (resolve_absurd_database env.backends) ≡ false) where
  abbrev home : String
  home = resolve_absurd_database env.backends

  clean : Backend → Run W (Unit {0})
  clean backend = reconcile_cleanup_job import_string normalize env cron orm backend

  reconcile_cleanup_job-kept :
      (backend : Backend) (names : List String) (w : W)
      → (clean backend w).0 ≡ ok tt
      → keep
          (is_stale env cron (env.live_name home) settings_source names)
          (cron.jobs (clean backend w).1)
        ≡ keep (is_stale env cron (env.live_name home) settings_source names) (cron.jobs w)
  unfolding clean reconcile_cleanup_job
  reconcile_cleanup_job-kept backend names w = by_schedule (get_cleanup_schedule backend)
    where
      by_schedule :
          (r : Result (Option String))
          → let write : Run W (Unit {0}) = and_then r (λ cleanup_cron. elim cleanup_cron [
            | some schedule ↦
                schedule_job env cron home cleanup_name cleanup_source schedule cleanup_command true
            | none ↦ unschedule_job env cron home cleanup_name cleanup_source
          ]) in
            (write w).0 ≡ ok tt
            → keep
                (is_stale env cron (env.live_name home) settings_source names)
                (cron.jobs (write w).1)
              ≡ keep (is_stale env cron (env.live_name home) settings_source names) (cron.jobs w)
      by_schedule (ok schedule) h = cleanup_kept env cron is_cron home live names schedule w h
      by_schedule (raised e) h = absurd (raised-ne-ok h)

  -- The last two steps of `sync_crons`.
  prune_and_clean :
      (backend : Backend) (names : List String) (counts : ℕ × ℕ) (w : W) {c : ℕ × ℕ}
      → ((prune_jobs env cron home settings_source names >>= λ _.
            clean backend >>= λ _. pure counts)
          w).0
        ≡ ok c
      → keep (is_stale env cron (env.live_name home) settings_source names) (
          cron.jobs
            ((prune_jobs env cron home settings_source names >>= λ _.
                clean backend >>= λ _. pure counts)
              w).1)
        ≡ []
  prune_and_clean backend names counts w h =
      let stale = is_stale env cron (env.live_name home) settings_source names in
      let (_, pruned, s₁) =
        >>=-eq-ok (prune_jobs env cron home settings_source names)
          (λ _. clean backend >>= λ _. pure counts) w h in
      let w₁ = (prune_jobs env cron home settings_source names w).1 in
      let (_, cleaned, s₂) = >>=-eq-ok (clean backend) (λ _. pure counts) w₁ (rw s₁ at h) in
      ap (λ r. keep stale (cron.jobs r.1)) (s₁ ∙ s₂)
      ∙ reconcile_cleanup_job-kept backend names w₁ cleaned
      ∙ ap (keep stale) (prune_jobs-jobs env cron is_cron home settings_source names w live pruned)
      ∙ keep_none stale (cron.jobs w)

  -- Where scheduling is not inert and the extension's calls keep their laws, a `sync_crons` that
  -- returns found the declared schedules and leaves no job of the settings' lane on its database that
  -- none of them names, whatever the jobs were before.
  pub sync_crons-no_orphans :
      (backend : Backend) (w : W) {counts : ℕ × ℕ}
      → (sync_crons import_string normalize env cron orm backend w).0 ≡ ok counts
      → (schedules : List Schedule) × (get_settings_schedules backend ≡ ok schedules)
        × (keep
              (is_stale env cron
                (env.live_name (resolve_absurd_database env.backends))
                settings_source
                (declared_names import_string normalize env cron orm schedules))
              (cron.jobs (sync_crons import_string normalize env cron orm backend w).1)
            ≡ [])
  unfolding sync_crons clean
  sync_crons-no_orphans backend w h =
      let undeclared = λ (schedules : List Schedule).
        is_undeclared import_string normalize env cron orm
          (declared_names import_string normalize env cron orm schedules) in
      let tail = λ (schedules : List Schedule) (created pruned : ℕ).
        prune_jobs env cron home settings_source
          (declared_names import_string normalize env cron orm schedules)
        >>= λ _. clean backend >>= λ _. pure (created, pruned) in
      let (schedules, found, s₁) =
        >>=-eq-ok (lift (get_settings_schedules backend))
          (λ schedules.
            sync_rows import_string normalize env cron orm backend schedules >>= λ created.
            delete_rows env cron orm (some home) (undeclared schedules) >>= tail schedules created)
          w h in
      let h₁ = rw s₁ at h in
      let (created, _, s₂) =
        >>=-eq-ok (sync_rows import_string normalize env cron orm backend schedules)
          (λ created.
            delete_rows env cron orm (some home) (undeclared schedules) >>= tail schedules created)
          w h₁ in
      let w₂ = (sync_rows import_string normalize env cron orm backend schedules w).1 in
      let h₂ = rw s₂ at h₁ in
      let (pruned, _, s₃) =
        >>=-eq-ok (delete_rows env cron orm (some home) (undeclared schedules))
          (tail schedules created) w₂ h₂ in
      let stale =
        is_stale env cron (env.live_name home) settings_source
          (declared_names import_string normalize env cron orm schedules) in
      (
        schedules,
        found,
        ap (λ r. keep stale (cron.jobs r.1)) (s₁ ∙ s₂ ∙ s₃)
            ∙ prune_and_clean backend
                (declared_names import_string normalize env cron orm schedules) (created, pruned) _
                (rw s₃ at h₂),
      )
