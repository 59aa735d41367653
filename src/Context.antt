-- ===== src/Context.antt =====
-- `AsyncAbsurdTaskContext` of django_absurd/context.py: the SDK's task context, with its log lines.
pub mod Bridge
pub mod Durable
pub mod Replay
use django_absurd.Prelude.{ℕ, String, Bool, true, false, Option, if◌then◌else◌}
use django_absurd.Exceptions.{Exception, suspend_task}
use django_absurd.Effect.{Run, pure, throw, try_except, ◌>>=◌, ◌>>◌}
use django_absurd.Json.{Json}

-- `absurd_sdk.StepHandle`
pub record StepHandle : Type 0 where
  pub checkpoint_name : String
  pub done : Bool
  pub state : Json

-- The log lines, by what they tell of a step or an event; durations and wording are left out.
pub data Line : Type 0 where
  step_replayed step_completed sleep_suspended sleep_resumed event_awaiting event_received
        event_emitted :
      String → Line

-- `absurd_sdk.AsyncTaskContext`, and the logger.
pub record TaskContext (W : Type 0) : Type 0 where
  pub sdk_begin_step : String → Run W StepHandle
  pub sdk_complete_step : StepHandle → Json → Run W Json
  pub sdk_heartbeat : Option ℕ → Run W (Unit {0})
  pub sdk_sleep_for : String → ℕ → Run W (Unit {0})
  pub sdk_sleep_until : String → ℕ → Run W (Unit {0})
  pub sdk_await_event : String → Option String → Option ℕ → Run W Json
  pub sdk_emit_event : String → Json → Run W (Unit {0})
  pub log : Line → Run W (Unit {0})

abbrev pub is_suspend : Exception → Bool
is_suspend suspend_task = true
is_suspend _ = false

module _ {W : Type 0} (context : TaskContext W) where
  open context use {
    sdk_begin_step, sdk_complete_step, sdk_heartbeat, sdk_sleep_for, sdk_sleep_until,
    sdk_await_event, sdk_emit_event, log,
  }

  unfoldable pub begin_step : String → Run W StepHandle
  begin_step name = do
    handle ← sdk_begin_step name
    if handle.done then log (step_replayed handle.checkpoint_name) else pure tt
    pure handle

  unfoldable pub complete_step : StepHandle → Json → Run W Json
  complete_step handle value = sdk_complete_step handle value

  unfoldable pub step : String → Run W Json → Run W Json
  step name fn = do
    handle ← begin_step name
    if handle.done then pure handle.state else (do
      rv ← fn
      result ← complete_step handle rv
      log (step_completed handle.checkpoint_name)
      pure result)

  unfoldable pub heartbeat : Option ℕ → Run W (Unit {0})
  heartbeat seconds = sdk_heartbeat seconds

  -- `except SuspendTask: log; raise`
  abbrev pub or_suspended : {A : Type 0} → Line → Run W A → Run W A
  or_suspended line body =
      try_except body (λ e. if is_suspend e then (do log line; throw e) else throw e)

  unfoldable pub sleep_for : String → ℕ → Run W (Unit {0})
  sleep_for step_name duration = do
    or_suspended (sleep_suspended step_name) (sdk_sleep_for step_name duration)
    log (sleep_resumed step_name)

  unfoldable pub sleep_until : String → ℕ → Run W (Unit {0})
  sleep_until step_name wake_at = do
    or_suspended (sleep_suspended step_name) (sdk_sleep_until step_name wake_at)
    log (sleep_resumed step_name)

  unfoldable pub await_event : String → Option String → Option ℕ → Run W Json
  await_event event_name step_name timeout = do
    payload ←
        or_suspended (event_awaiting event_name) (sdk_await_event event_name step_name timeout)
    log (event_received event_name)
    pure payload

  unfoldable pub emit_event : String → Json → Run W (Unit {0})
  emit_event event_name payload = do
    sdk_emit_event event_name payload
    log (event_emitted event_name)
