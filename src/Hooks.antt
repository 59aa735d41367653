-- ===== src/Hooks.antt =====
-- django_absurd/hooks.py: the hooks of the SDK's clients, which only log.
use django_absurd.Prelude.{◌≡◌, ◌≢◌, refl, ap, ◌∙◌, Bool-cases, inl, inr, if◌then◌else◌}
use django_absurd.Exceptions.{
  Exception, is_exception, not_exception, suspend_task, cancelled_task, failed_task,
  cancelled_error,
}
use django_absurd.Effect.{Result, ok, raised, Run, pure, throw, try_except, >>=-ok, ◌>>◌}
use django_absurd.Task.{SpawnKwargs}

-- The lines of a run's lifecycle.
pub data RunEvent : Type 0 where
  started suspended cancelled already_failed failed completed : RunEvent

-- What `logger` does: `debug_spawn` builds and logs the line of a spawn, `log_event` that of a run's
-- event, and the other two are the `logger.exception` calls of the handlers.
pub record Logger (W : Type 0) : Type 0 where
  pub debug_spawn : Run W (Unit {0})
  pub spawn_log_failed : Run W (Unit {0})
  pub log_event : RunEvent → Run W (Unit {0})
  pub event_log_failed : RunEvent → Run W (Unit {0})

-- The line for what `execute` raised; a `BaseException` that is no `Exception` has none.
unfoldable pub event_of : Exception → RunEvent
event_of suspend_task = suspended
event_of cancelled_task = cancelled
event_of failed_task = already_failed
event_of _ = failed

module _ {W : Type 0} (logger : Logger W) where
  open logger use {debug_spawn, spawn_log_failed, log_event, event_log_failed}

  unfoldable pub log_before_spawn : SpawnKwargs → Run W SpawnKwargs
  log_before_spawn options = do
    try_except debug_spawn (λ e. if is_exception e then spawn_log_failed else throw e)
    pure options

  -- `contextlib.suppress(Exception)`
  abbrev suppressed : Run W (Unit {0}) → Run W (Unit {0})
  suppressed body = try_except body (λ e. if is_exception e then pure tt else throw e)

  unfoldable pub report_run_event : RunEvent → Run W (Unit {0})
  report_run_event event =
      try_except (log_event event)
        (λ e. if is_exception e then suppressed (event_log_failed event) else throw e)

  -- The line of an outcome, and the outcome.
  unfoldable pub report_outcome : {A : Type 0} → Result A → Run W A
  report_outcome (ok result) = do report_run_event completed; pure result
  report_outcome (raised e) =
      if is_exception e then (do report_run_event (event_of e); throw e) else throw e

  unfoldable pub log_task_execution : {A : Type 0} → Run W A → Run W A
  log_task_execution execute = do
    report_run_event started
    λ w. report_outcome (execute w).0 (execute w).1

  -- Logging raises at most an `Exception`.
  abbrev pub LogsContained : Type 0
  LogsContained =
      ((event : RunEvent) (w : W) → (log_event event w).0 ≢ raised cancelled_error)
      × ((event : RunEvent) (w : W) → (event_log_failed event w).0 ≢ raised cancelled_error)

  caught :
      (body : Run W (Unit {0})) (handler : Run W (Unit {0})) (w : W)
      → (body w).0 ≢ raised cancelled_error
      → ((w : W) → (handler w).0 ≡ ok tt)
      → (try_except body (λ e. if is_exception e then handler else throw e) w).0 ≡ ok tt
  caught body handler w calm handled = by_outcome (body w).0 calm
    where
      by_outcome :
          (r : Result (Unit {0}))
          → r ≢ raised cancelled_error
          → let done : Result (Unit {0}) × W = elim r [
            | ok a ↦ (ok a, (body w).1)
            | raised e ↦ (if is_exception e then handler else throw e) (body w).1
          ] in
            done.0 ≡ ok tt
      by_outcome (ok a) h = refl
      by_outcome (raised e) h = elim (Bool-cases (is_exception e)) [
        | inl is ↦ rw is (handled (body w).1)
        | inr isnt ↦ absurd (h (ap raised (not_exception e isnt)))
      ]

  report_run_event-ok :
      LogsContained → (event : RunEvent) (w : W) → (report_run_event event w).0 ≡ ok tt
  unfolding report_run_event
  report_run_event-ok calm event w =
      caught (log_event event) (suppressed (event_log_failed event)) w (calm.0 event w)
        (λ w'. caught (event_log_failed event) (pure tt) w' (calm.1 event w') (λ _. refl))

  report_outcome_lem :
      LogsContained → {A : Type 0} (r : Result A) (w : W) → (report_outcome r w).0 ≡ r
  unfolding report_outcome
  report_outcome_lem calm (ok result) w =
      ap (λ o. o.0)
        (>>=-ok (report_run_event completed) (λ _. pure result) w tt
          (report_run_event-ok calm completed w))
  report_outcome_lem calm (raised e) w = elim (Bool-cases (is_exception e)) [
    | inl is ↦ rw is (
        ap (λ o. o.0)
          (>>=-ok (report_run_event (event_of e)) (λ _. throw e) w tt
            (report_run_event-ok calm (event_of e) w)))
    | inr isnt ↦ rw isnt
  ]

  -- Where logging raises at most an `Exception`, the hook ends exactly as the execution that it wraps,
  -- started in the world that the first line left: it returns what that returned, and raises what that
  -- raised.
  pub log_task_execution_transparent :
      {A : Type 0} (execute : Run W A) (w : W)
      → LogsContained
      → (log_task_execution execute w).0 ≡ (execute (report_run_event started w).1).0
  unfolding log_task_execution
  log_task_execution_transparent execute w calm =
      ap (λ o. o.0)
        (>>=-ok (report_run_event started) (λ _ w'. report_outcome (execute w').0 (execute w').1) w
          tt (report_run_event-ok calm started w))
      ∙ report_outcome_lem calm (execute (report_run_event started w).1).0
          (execute (report_run_event started w).1).1
