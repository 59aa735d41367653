-- ===== src/Worker/Beside.antt =====
-- `arun_worker` and `run_worker_with_beat` of django_absurd/worker.py: a worker, and the beat beside it.
use django_absurd.Prelude.{ℕ, String, Bool, if◌then◌else◌}
use django_absurd.Effect.{Run, try_finally, ◌>>◌}
use django_absurd.Worker.Window.{Loop, WorkerOptions, run_blocking_worker}
use django_absurd.Worker.Drain.{Client, open_worker_runtime}

-- The thread of the beat: its start, the setting of its stop event, and the wait of five seconds at most
-- for its end.
pub record BeatThread (W : Type 0) : Type 0 where
  pub start : Run W (Unit {0})
  pub set_stop : Run W (Unit {0})
  pub join : Run W (Unit {0})

module _ {W : Type 0} (loop : Loop W) (options : WorkerOptions) (beat : BeatThread W) where
  unfoldable pub run_worker_with_beat : ℕ → Run W Bool
  run_worker_with_beat rounds = do
    beat.start
    try_finally (run_blocking_worker loop options rounds) (do beat.set_stop; beat.join)

  module _ (client : Client W) where
    -- `on_started` is the announcement, `log_stopped` the log line at the end.
    unfoldable pub arun_worker :
        String
        → (run_beat : Bool) → (on_started log_stopped : Run W (Unit {0})) → ℕ
        → Run W (Unit {0})
    arun_worker queue run_beat on_started log_stopped rounds = open_worker_runtime client queue (do
      on_started
      if run_beat then run_worker_with_beat rounds else run_blocking_worker loop options rounds
      log_stopped)
