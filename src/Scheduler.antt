-- ===== src/Scheduler.antt =====
-- django_absurd/scheduler.py: the beat loop, which fires schedules and the cleanup when they are due.
pub mod Beat
pub mod Entries
use django_absurd.Prelude.{
  ℕ, zero, suc, ◌+◌, ◌-◌, String, Bool, true, false, ◌&&◌, Option, none, some, List, [], ◌∷◌, ◌++◌,
  Dict, map, ◌<>◌, if◌then◌else◌, leb, ltb, with_default, min, length,
}
use django_absurd.Prelude.Dicts
use django_absurd.Exceptions.{Exception, is_exception}
use django_absurd.Effect.{
  bind_result, Result, ok, raised, Run, pure, throw, lift, try_except, try_finally, ◌>>=◌, ◌>>◌,
}
use django_absurd.Json.{Json, text}
use django_absurd.Task.{Task, using, SpawnKwargs}
use django_absurd.Connection.{Connections, validate_backend}
use django_absurd.Params.{bind_task}
use django_absurd.Deferred.{Imported, imported_task, imported_value}
use django_absurd.Exceptions.{attribute_error}

pub record Schedule : Type 0 where
  pub name : String
  pub task : String
  pub cron : String
  pub queue : Option String
  pub args : List Json
  pub kwargs : Dict Json
  pub backend : String

-- What an entry fires: `functools.partial(fire_schedule, s)` or `functools.partial(fire_cleanup, backend)`.
pub data Action : Type 0 where
  run_schedule : Schedule → Action
  run_cleanup : Action

-- `BeatEntry`; moments are seconds.
pub record BeatEntry : Type 0 where
  pub cron : String
  pub fire : Action
  pub next_at : ℕ

-- `derive_idempotency_key`, of the text that is hashed: `iso` writes a moment, `digest` is the first
-- 24 hexadecimal digits of the SHA-256 of a text.
unfoldable pub key_text : (ℕ → String) → Schedule → ℕ → String
key_text iso schedule due =
    schedule.backend <> "|" <> schedule.name <> "|" <> schedule.cron <> "|" <> iso due

unfoldable pub derive_idempotency_key : (String → String) → (ℕ → String) → Schedule → ℕ → String
derive_idempotency_key digest iso schedule due = "cron:" <> digest (key_text iso schedule due)

-- The libraries and the other parts of the package that the loop calls. `get_next cron after` is
-- croniter's next moment.
pub record Clockwork (W : Type 0) : Type 0 where
  pub connections : Connections W
  pub get_next : String → ℕ → ℕ
  pub now : W → ℕ
  -- `wait(delay)`: whether the stop was requested, after waiting
  pub wait : ℕ → W → Bool × W
  pub is_stopped : W → Bool
  pub import_string : String → Result Imported
  pub validate : Task → Result (Unit {0})
  pub enqueue_task : Task → List Json → Dict Json → Run W (Unit {0})
  pub cleanup_queues : Run W (Unit {0})
  pub close_old_connections : Run W (Unit {0})
  pub log_info : Run W (Unit {0})
  pub log_exception : Exception → Run W (Unit {0})
  pub digest : String → String
  pub iso : ℕ → String

module _ {W : Type 0} (clockwork : Clockwork W) where
  open clockwork use {
    connections, get_next, now, wait, is_stopped, import_string, validate, enqueue_task,
    cleanup_queues, close_old_connections, log_info, log_exception, digest, iso,
  }

  -- The task of a schedule, routed and bound to the key of this firing.
  route : Schedule → ℕ → Imported → Result Task
  route schedule due imported_value = raised attribute_error
  route schedule due (imported_task task) =
      bind_result (using validate schedule.queue (some schedule.backend) task) (
        bind_task validate
          (("idempotency_key", text (derive_idempotency_key digest iso schedule due)) ∷ []))

  unfoldable pub scheduled_task : Schedule → ℕ → Result Task
  unfolding route
  scheduled_task schedule due = bind_result (import_string schedule.task) (route schedule due)

  unfoldable pub spawn_scheduled : Schedule → ℕ → Run W (Unit {0})
  spawn_scheduled schedule due = do
    close_old_connections
    try_finally
        (do
          task ← lift (scheduled_task schedule due)
          enqueue_task task schedule.args schedule.kwargs)
        close_old_connections

  -- `try: body` / `except Exception: log` / `else: log`
  abbrev pub reported : Run W (Unit {0}) → Run W (Unit {0})
  reported body w =
      let (outcome, w') = body w in
      elim outcome [
        | ok _ ↦ log_info w'
        | raised e ↦ (if is_exception e then log_exception e else throw e) w'
      ]

  unfoldable pub fire_schedule : Schedule → ℕ → Run W (Unit {0})
  fire_schedule schedule due = reported (spawn_scheduled schedule due)

  unfoldable pub fire_cleanup : Run W (Unit {0})
  fire_cleanup = do
    close_old_connections
    try_finally (reported cleanup_queues) close_old_connections

  unfoldable pub perform : Action → ℕ → Run W (Unit {0})
  perform (run_schedule schedule) due = fire_schedule schedule due
  perform run_cleanup due = fire_cleanup

  unfoldable pub build_beat_entries : List Schedule → Option String → ℕ → List BeatEntry
  build_beat_entries schedules cleanup_cron moment =
      map (λ s. record { cron = s.cron; fire = run_schedule s; next_at = get_next s.cron moment })
        schedules
      ++ (elim cleanup_cron [
        | none ↦ []
        | some cron ↦
            record { cron = cron; fire = run_cleanup; next_at = get_next cron moment } ∷ []
      ])

  -- `min(e.next_at for e in entries)`; the loop has an entry at least.
  unfoldable pub earliest : List BeatEntry → ℕ
  earliest [] = 0
  earliest (e ∷ []) = e.next_at
  earliest (e ∷ f ∷ entries) = min e.next_at (earliest (f ∷ entries))

  abbrev pub is_due : ℕ → BeatEntry → Bool
  is_due current e = leb e.next_at current

  -- The inner loop: every entry that is due fires at its due time and moves on.
  unfoldable pub fire_due : ℕ → List BeatEntry → Run W (List BeatEntry)
  fire_due current [] = pure []
  fire_due current (e ∷ entries) =
      let rest = fire_due current entries in
      if is_due current e
      then (do
        perform e.fire e.next_at
        moved ← rest
        pure (record e { next_at = get_next e.cron current } ∷ moved))
      else (do kept ← rest; pure (e ∷ kept))

  -- `delay > 0 and wait(delay)`
  unfoldable pub wait_until : ℕ → W → Bool × W
  wait_until due w = if ltb (now w) due then wait (due - now w) w else (false, w)

  -- One round of the outer loop; `none` where it ends.
  unfoldable pub beat_round : List BeatEntry → Run W (Option (List BeatEntry))
  beat_round entries w =
      let (stop, w') = wait_until (earliest entries) w in
      if is_stopped w
      then (ok none, w)
      else if stop
      then (ok none, w')
      else (do moved ← fire_due (now w') entries; pure (some moved)) w'

  -- Whether the loop ended within a number of rounds, and else its entries.
  unfoldable pub beat_loop : ℕ → List BeatEntry → Run W (Option (List BeatEntry))
  beat_loop zero entries = pure (some entries)
  beat_loop (suc rounds) entries = do
    outcome ← beat_round entries
    elim outcome [ none ↦ pure none | some moved ↦ beat_loop rounds moved ]

  -- Without an entry `run_beat` says so and returns.
  abbrev beat_from : ℕ → List BeatEntry → Run W (Option (List BeatEntry))
  beat_from rounds [] = do log_info; pure none
  beat_from rounds (e ∷ entries) = do log_info; beat_loop rounds (e ∷ entries)

  -- `run_beat`, over what `get_settings_schedules` and `get_cleanup_schedule` read of the settings.
  unfoldable pub run_beat :
      ℕ → (database : String) → List Schedule → Option String → Run W (Option (List BeatEntry))
  run_beat rounds database schedules cleanup_cron = do
    validate_backend connections database
    λ w. beat_from rounds (build_beat_entries schedules cleanup_cron (now w)) w
