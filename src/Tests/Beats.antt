-- ===== src/Tests/Beats.antt =====
-- Tests of scheduler.py.
use django_absurd.Prelude.{
  ℕ, ◌+◌, ◌<◌, ◌≤◌, ◌⊎◌, Bool, ◌≡◌, refl, true, false, none, some, List, [], ◌∷◌, arith, All,
}
use django_absurd.Prelude.Dicts
use django_absurd.Effect.{ok, raised, pure}
use django_absurd.Exceptions.{key_error}
use django_absurd.Json.{text}
use django_absurd.Task.{
  Task, absurd_task, using, post_init, using_fields, build_merged_spawn_options, fold_params,
  fold_class,
}
use django_absurd.Params.{bind_task}
use django_absurd.Deferred.{imported_task}
use django_absurd.Scheduler.{
  key_text, derive_idempotency_key, Schedule, run_schedule, run_cleanup, BeatEntry, Clockwork,
  scheduled_task, beat_round, wait_until, earliest, fire_due, perform, fire_schedule, fire_cleanup,
  spawn_scheduled,
}
use django_absurd.Scheduler.Beat.{
  Contained, FiredAs, FiresAfter, wait_for, beat_round-fires, scheduled_task-FiredAs,
}

abbrev nightly : Task
nightly = record {
  module_path = "app.nightly";
  queue_name = "default";
  backend = "default";
  run_after = none;
  takes_context = false;
  func_params = none;
  class = absurd_task none;
}

-- The world is the time; every enqueue fails, and a cron comes due once a minute.
abbrev minutely : Clockwork ℕ
minutely = record {
  connections = record { ensure_connection = λ _. pure tt; is_psycopg = λ _. pure true };
  get_next = λ _ moment. moment + 60;
  now = λ w. w;
  wait = λ delay w. (false, w + delay);
  is_stopped = λ _. false;
  import_string = λ _. ok (imported_task nightly);
  validate = λ _. ok tt;
  enqueue_task = λ _ _ _ w. (raised key_error, w + 1);
  cleanup_queues = pure tt;
  close_old_connections = pure tt;
  log_info = pure tt;
  log_exception = λ _. pure tt;
  digest = λ t. t;
  iso = λ _. "2026-01-01T00:00:00+00:00";
}

minutely_contained : Contained minutely
unfolding scheduled_task using post_init bind_task
minutely_contained = record {
  info = λ w. refl;
  logged = λ e w. refl;
  closed = λ w. refl;
  prepared = λ s due. cc;
  enqueued = λ t args kwargs w. cc;
  cleaned = λ w. cc;
}

abbrev schedule : Schedule
schedule = record {
  name = "nightly";
  task = "app.nightly";
  cron = "* * * * *";
  queue = some "nights";
  args = [];
  kwargs = [];
  backend = "default";
}

abbrev entries : List BeatEntry
entries =
    record { cron = "* * * * *"; fire = run_schedule schedule; next_at = 10 }
    ∷ record { cron = "0 2 * * *"; fire = run_cleanup; next_at = 500 }
    ∷ []

abbrev moved : List BeatEntry
moved =
    record { cron = "* * * * *"; fire = run_schedule schedule; next_at = 70 }
    ∷ record { cron = "0 2 * * *"; fire = run_cleanup; next_at = 500 }
    ∷ []

one_round : beat_round minutely entries 0 ≡ (ok (some moved), 11)
unfolding beat_round wait_until earliest fire_due perform fire_schedule fire_cleanup spawn_scheduled
    scheduled_task using post_init bind_task
one_round = refl

-- The first entry comes due after a wait of ten seconds.
beat_round-fires_example :
    All (λ e. earliest minutely entries ≤ e.next_at) entries
    × ((◌≡◌ {A = Bool} false true × (beat_round minutely entries 0 ≡ (ok none, 0)))
        ⊎ ((◌≡◌ {A = Bool} false false
              × (earliest minutely entries ≤ 0)
              × FiresAfter minutely entries 0 0)
            ⊎ ((◌≡◌ {A = Bool} false false
                  × (0 < earliest minutely entries)
                  × ((wait_for minutely entries 0).0 ≡ true)
                  × (beat_round minutely entries 0 ≡ (ok none, (wait_for minutely entries 0).1)))
                ⊎ (◌≡◌ {A = Bool} false false
                    × (0 < earliest minutely entries)
                    × ((wait_for minutely entries 0).0 ≡ false)
                    × FiresAfter minutely entries 0 (wait_for minutely entries 0).1))))
beat_round-fires_example =
    beat_round-fires minutely minutely_contained (λ _ moment. omega arith) entries 0

abbrev keyed : Task
keyed = record nightly {
  queue_name = "nights";
  class = absurd_task (
      some (
        ("idempotency_key", text "cron:default|nightly|* * * * *|2026-01-01T00:00:00+00:00") ∷ []));
}

scheduled : scheduled_task minutely schedule 10 ≡ ok keyed
unfolding scheduled_task derive_idempotency_key key_text using using_fields post_init bind_task
    build_merged_spawn_options fold_params fold_class Dicts.update Dicts.put Dicts.get
scheduled = refl

scheduled_task-FiredAs_example :
    (found : Task) × (minutely.import_string "app.nightly" ≡ ok (imported_task found))
    × FiredAs minutely schedule 10 found keyed
scheduled_task-FiredAs_example = scheduled_task-FiredAs minutely schedule 10 scheduled
