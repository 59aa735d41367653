-- ===== src/Context/Bridge.antt =====
-- `AbsurdTaskContext` of django_absurd/context.py, the context of a synchronous task, and the two
-- functions that hand a running task its context.
use django_absurd.Prelude.{ℕ, String, Bool, Option, none, some, if◌then◌else◌, ◌==◌}
use django_absurd.Exceptions.{runtime_error, lookup_error}
use django_absurd.Effect.{Run, pure, throw, ◌>>=◌, ◌>>◌}
use django_absurd.Json.{Json}
use django_absurd.Context
use django_absurd.Context.{TaskContext, StepHandle, step_completed, begin_step, complete_step}

-- `submit` is `run_coroutine_threadsafe(coro, loop).result(timeout=BRIDGE_TIMEOUT)`: what the coroutine
-- makes of the world, or a `TimeoutError` after 300 seconds, while the coroutine may go on.
abbrev pub Submit : Type 0 → Type 1
Submit W = (A : Type 0) → Run W A → Run W A

module _ {W : Type 0} (context : TaskContext W) (submit : Submit W) where
  abbrev run_on_loop : {A : Type 0} → Run W A → Run W A
  run_on_loop {A} coro = submit A coro

  unfoldable pub step : String → Run W Json → Run W Json
  step name fn = do
    handle ← run_on_loop (begin_step context name)
    if handle.done then pure handle.state else (do
      rv ← fn
      result ← run_on_loop (complete_step context handle rv)
      context.log (step_completed handle.checkpoint_name)
      pure result)

  -- `custom_name or fn.__name__`
  abbrev step_name : Option String → String → String
  step_name none fn_name = fn_name
  step_name (some custom_name) fn_name = if custom_name == "" then fn_name else custom_name

  -- A step of a function, under its own name unless the decorator was given another.
  unfoldable pub run_step : Option String → (fn_name : String) → Run W Json → Run W Json
  run_step custom_name fn_name fn = step (step_name custom_name fn_name) fn

  unfoldable pub heartbeat : Option ℕ → Run W (Unit {0})
  heartbeat seconds = run_on_loop (Context.heartbeat context seconds)

  unfoldable pub sleep_for : String → ℕ → Run W (Unit {0})
  sleep_for step_name duration = run_on_loop (Context.sleep_for context step_name duration)

  unfoldable pub sleep_until : String → ℕ → Run W (Unit {0})
  sleep_until step_name wake_at = run_on_loop (Context.sleep_until context step_name wake_at)

  unfoldable pub await_event : String → Option String → Option ℕ → Run W Json
  await_event event_name step_name timeout =
      run_on_loop (Context.await_event context event_name step_name timeout)

  unfoldable pub emit_event : String → Json → Run W (Unit {0})
  emit_event event_name payload = run_on_loop (Context.emit_event context event_name payload)

-- Where a task runs: `on_loop` is whether `get_running_loop()` returns, `current` is the SDK's
-- `get_current_context()`, `worker_loop` is `WORKER_LOOP`, by what it submits to.
module _ {W : Type 0} (on_loop : W → Bool) (current : W → Option (TaskContext W)) where
  unfoldable pub aget_absurd_context : {A : Type 0} → (TaskContext W → Run W A) → Run W A
  aget_absurd_context body w = elim (current w) [
    | none ↦ throw runtime_error w
    | some absurd_ctx ↦ body absurd_ctx w
  ]

  unfoldable pub get_absurd_context :
      {A : Type 0}
      → (worker_loop : W → Option (Submit W)) → (TaskContext W → Submit W → Run W A)
      → Run W A
  get_absurd_context worker_loop body w =
      if on_loop w then throw runtime_error w else elim (current w) [
        | none ↦ throw runtime_error w
        | some absurd_ctx ↦ elim (worker_loop w) [
          | none ↦ throw lookup_error w
          | some submit ↦ body absurd_ctx submit w
        ]
      ]
