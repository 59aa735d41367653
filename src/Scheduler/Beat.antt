-- ===== src/Scheduler/Beat.antt =====
-- What a round of the beat fires, and where it leaves the entries.
use django_absurd.Prelude.{
  ℕ, ◌<◌, ◌≤◌, ◌-◌, Bool, true, false, ◌⊎◌, with_default, ltb, arith, String, ◌≡◌, ◌≢◌, refl, ◌∙◌,
  ap, Option, none, some, List, [], ◌∷◌, Dict, map, keep, All, if◌then◌else◌, leb→lt, Bool-cases,
  inl, inr,
}
use django_absurd.Prelude.Dicts
use django_absurd.Prelude.Keeping.{All-map}
use django_absurd.Exceptions.{Exception, is_exception, not_exception, cancelled_error}
use django_absurd.Effect.{
  bind_result-eq-ok, raised-ne-ok, raised-injective, Result, ok, raised, Run, throw, lift,
  try_finally, and_then, >>=-ok, try_finally-ok, ◌>>=◌,
}
use django_absurd.Json.{Json, text}
use django_absurd.Task.{Task, SpawnKwargs, using, using_fields, or_field, carried, field_of}
use django_absurd.Task.Merge.{post_init-eq-ok}
use django_absurd.Params.{bind_task}
use django_absurd.Params.Laws.{bind_task-carries}
use django_absurd.Deferred.{Imported, imported_task, imported_value}
use django_absurd.Scheduler.{
  route, beat_round, wait_until, earliest, Schedule, Action, run_schedule, run_cleanup, BeatEntry,
  Clockwork, derive_idempotency_key, scheduled_task, spawn_scheduled, reported, fire_schedule,
  fire_cleanup, perform, is_due, fire_due,
}

using-eq-ok :
    (validate : Task → Result (Unit {0})) (queue backend : Option String) (task : Task)
    {moved : Task}
    → using validate queue backend task ≡ ok moved
    → (moved.module_path ≡ task.module_path)
      × (moved.backend ≡ with_default task.backend backend)
      × (moved.queue_name ≡ with_default task.queue_name queue)
unfolding using using_fields
using-eq-ok validate queue backend task {moved} h =
    let e = post_init-eq-ok validate _ h in
    (
      ap (λ t. t.module_path) e,
      ap (λ t. t.backend) e ∙ field_or backend task.backend,
      ap (λ t. t.queue_name) e ∙ field_or queue task.queue_name,
    )
  where
    field_or : (given : Option String) (own : String) → or_field given own ≡ with_default own given
    field_or none own = refl
    field_or (some value) own = refl

bind_task-eq-ok :
    (validate : Task → Result (Unit {0})) (kwargs : SpawnKwargs) (task : Task) {bound : Task}
    → bind_task validate kwargs task ≡ ok bound
    → (bound.module_path ≡ task.module_path)
      × (bound.backend ≡ task.backend)
      × (bound.queue_name ≡ task.queue_name)
unfolding bind_task
bind_task-eq-ok validate kwargs task h =
    let e = post_init-eq-ok validate _ h in
    (ap (λ t. t.module_path) e, ap (λ t. t.backend) e, ap (λ t. t.queue_name) e)

module _ {W : Type 0} (clockwork : Clockwork W) where
  -- A firing's task: the schedule's own, on the schedule's backend, in its queue or else the task's own,
  -- under the key of the firing.
  abbrev pub FiredAs : Schedule → ℕ → Task → Task → Type 0
  FiredAs schedule due found task =
      (task.module_path ≡ found.module_path)
      × (task.backend ≡ schedule.backend)
      × (task.queue_name ≡ with_default found.queue_name schedule.queue)
      × (field_of "idempotency_key" (carried task.func_params task.class)
          ≡ some (text (derive_idempotency_key clockwork.digest clockwork.iso schedule due)))

  route-FiredAs :
      (schedule : Schedule) (due : ℕ) (found : Imported) {task : Task}
      → route clockwork schedule due found ≡ ok task
      → (own : Task) × (found ≡ imported_task own) × FiredAs schedule due own task
  unfolding route
  route-FiredAs schedule due imported_value h = absurd (raised-ne-ok h)
  route-FiredAs schedule due (imported_task found) {task} h =
      let key = text (derive_idempotency_key clockwork.digest clockwork.iso schedule due) in
      let (routed, used, bound) =
        bind_result-eq-ok (using clockwork.validate schedule.queue (some schedule.backend) found)
          (bind_task clockwork.validate (("idempotency_key", key) ∷ [])) h in
      let moved =
        using-eq-ok clockwork.validate schedule.queue (some schedule.backend) found used in
      let kept = bind_task-eq-ok clockwork.validate (("idempotency_key", key) ∷ []) routed bound in
      (
        found,
        refl,
        (
          kept.0 ∙ moved.0,
          kept.1 ∙ moved.1,
          kept.2 ∙ moved.2,
          bind_task-carries clockwork.validate (("idempotency_key", key) ∷ []) routed task
                "idempotency_key" bound
              ∙ unfold Dicts.get in refl,
        ),
      )

  -- A firing's task is the one that the schedule's path imports as, on the schedule's backend, in the
  -- schedule's queue or, if it names none, the task's own, and carries the key of this firing over any
  -- key that the task was defined with.
  pub scheduled_task-FiredAs :
      (schedule : Schedule) (due : ℕ) {task : Task}
      → scheduled_task clockwork schedule due ≡ ok task
      → (found : Task) × (clockwork.import_string schedule.task ≡ ok (imported_task found))
        × FiredAs schedule due found task
  unfolding scheduled_task
  scheduled_task-FiredAs schedule due h =
      let (value, imported, routed) =
        bind_result-eq-ok (clockwork.import_string schedule.task) (route clockwork schedule due)
          h in
      let (found, is, fired) = route-FiredAs schedule due value routed in
      (found, imported ∙ ap ok is, fired)

  -- Nothing that the loop calls raises beyond an `Exception`, and logging and closing do not raise.
  pub record Contained : Type 0 where
    pub info : (w : W) → (clockwork.log_info w).0 ≡ ok tt
    pub logged : (e : Exception) (w : W) → (clockwork.log_exception e w).0 ≡ ok tt
    pub closed : (w : W) → (clockwork.close_old_connections w).0 ≡ ok tt
    pub prepared :
        (s : Schedule) (due : ℕ) → scheduled_task clockwork s due ≢ raised cancelled_error
    pub enqueued :
        (t : Task) (args : List Json) (kwargs : Dict Json) (w : W)
        → (clockwork.enqueue_task t args kwargs w).0 ≢ raised cancelled_error
    pub cleaned : (w : W) → (clockwork.cleanup_queues w).0 ≢ raised cancelled_error

  -- An entry that is due moves to its next moment.
  abbrev pub advance : ℕ → BeatEntry → BeatEntry
  advance current e =
      if is_due clockwork current e
      then record e { next_at = clockwork.get_next e.cron current }
      else e

  -- The entries fire one after another, each at its due time.
  pub fire_all : List BeatEntry → W → W
  fire_all [] w = w
  fire_all (e ∷ entries) w = fire_all entries (perform clockwork e.fire e.next_at w).1

  module _ (contained : Contained) where
    reported-ok :
        (body : Run W (Unit {0})) (w : W)
        → (body w).0 ≢ raised cancelled_error
        → (reported clockwork body w).0 ≡ ok tt
    reported-ok body w h = by_outcome (body w).0 (body w).1 h
      where
        by_outcome :
            (out : Result (Unit {0})) (w' : W)
            → out ≢ raised cancelled_error
            → (let done : Result (Unit {0}) × W = elim out [
              | ok _ ↦ clockwork.log_info w'
              | raised e ↦ (if is_exception e then clockwork.log_exception e else throw e) w'
            ] in
                done.0)
              ≡ ok tt
        by_outcome (ok _) w' h = contained.info w'
        by_outcome (raised e) w' h = elim (Bool-cases (is_exception e)) [
          | inl caught ↦ rw caught (contained.logged e w')
          | inr escapes ↦ absurd (h (ap raised (not_exception e escapes)))
        ]

    spawn_scheduled-contained :
        (s : Schedule) (due : ℕ) (w : W)
        → (spawn_scheduled clockwork s due w).0 ≢ raised cancelled_error
    unfolding spawn_scheduled
    spawn_scheduled-contained s due w =
        let opened = (clockwork.close_old_connections w).1 in
        let body : Run W (Unit {0}) = lift (scheduled_task clockwork s due) >>= λ task.
        clockwork.enqueue_task task s.args s.kwargs in
        let step =
          >>=-ok clockwork.close_old_connections
            (λ _. try_finally body clockwork.close_old_connections) w tt (contained.closed w)
          ∙ try_finally-ok body clockwork.close_old_connections opened tt
              (contained.closed (body opened).1) in
        rw step (by_task (scheduled_task clockwork s due) (contained.prepared s due) opened)
      where
        by_task :
            (r : Result Task)
            → r ≢ raised cancelled_error
            → (w' : W)
            → (and_then r (λ task. clockwork.enqueue_task task s.args s.kwargs) w').0
              ≢ raised cancelled_error
        by_task (ok task) h w' = contained.enqueued task s.args s.kwargs w'
        by_task (raised e) h w' = λ k. h (ap raised (raised-injective {A = Unit {0}} k))

    perform-ok : (action : Action) (due : ℕ) (w : W) → (perform clockwork action due w).0 ≡ ok tt
    unfolding perform fire_schedule fire_cleanup
    perform-ok (run_schedule s) due w =
        reported-ok (spawn_scheduled clockwork s due) w (spawn_scheduled-contained s due w)
    perform-ok run_cleanup due w =
        let opened = (clockwork.close_old_connections w).1 in
        let step =
          >>=-ok clockwork.close_old_connections
            (λ _.
              try_finally (reported clockwork clockwork.cleanup_queues)
                clockwork.close_old_connections)
            w tt (contained.closed w)
          ∙ try_finally-ok (reported clockwork clockwork.cleanup_queues)
              clockwork.close_old_connections opened tt
              (contained.closed (reported clockwork clockwork.cleanup_queues opened).1) in
        rw step (reported-ok clockwork.cleanup_queues opened (contained.cleaned opened))

    -- Whatever fails on the way, a round fires exactly the entries that are due, in their order, each at
    -- its due time, and moves those and no others.
    pub fire_due-fires :
        (current : ℕ) (entries : List BeatEntry) (w : W)
        → fire_due clockwork current entries w ≡ (
          ok (map (advance current) entries),
          fire_all (keep (is_due clockwork current) entries) w,
        )
    unfolding fire_due fire_all
    fire_due-fires current [] w = refl
    fire_due-fires current (e ∷ entries) w = elim (Bool-cases (is_due clockwork current e)) [
      | inl due ↦
          rw (due, perform-ok e.fire e.next_at w, and_then)
            (rw (fire_due-fires current entries (perform clockwork e.fire e.next_at w).1, and_then)
              refl)
      | inr later ↦ rw (later, fire_due-fires current entries w, and_then) refl
    ]

  -- After a round no entry is due any more, if the next moment of a cron lies after the given one.
  pub advance-later :
      (current : ℕ) (entries : List BeatEntry)
      → ((cron : String) → current < clockwork.get_next cron current)
      → All (λ e. current < e.next_at) (map (advance current) entries)
  advance-later current [] later = tt
  advance-later current (e ∷ entries) later = (first, advance-later current entries later)
    where
      first : current < (advance current e).next_at
      first = elim (Bool-cases (is_due clockwork current e)) [
        | inl due ↦ rw due (later e.cron)
        | inr not_yet ↦ rw not_yet (leb→lt e.next_at current not_yet)
      ]

  -- What a round does once it is time: every due entry fires, and the round goes on.
  abbrev pub FiresAfter : List BeatEntry → W → W → Type 0
  FiresAfter entries w waited =
      let current = clockwork.now waited in
      let moved = map (advance current) entries in
      (beat_round clockwork entries w
        ≡ (ok (some moved), fire_all (keep (is_due clockwork current) entries) waited))
      × All (λ e. current < e.next_at) moved

  -- The wait for the earliest entry.
  abbrev pub wait_for : List BeatEntry → W → Bool × W
  wait_for entries w = clockwork.wait (earliest clockwork entries - clockwork.now w) w

  earliest-least :
      (entries : List BeatEntry) → All (λ e. earliest clockwork entries ≤ e.next_at) entries
  unfolding earliest
  earliest-least [] = tt
  earliest-least (e ∷ []) = (omega arith, tt)
  earliest-least (e ∷ f ∷ entries) =
      (omega arith, All-map (λ x h. omega (arith, h)) (f ∷ entries) (earliest-least (f ∷ entries)))

  module _ (contained : Contained)
      (later : (cron : String) (moment : ℕ) → moment < clockwork.get_next cron moment) where
    goes_on :
        (entries : List BeatEntry) (w waited : W)
        → clockwork.is_stopped w ≡ false
        → wait_until clockwork (earliest clockwork entries) w ≡ (false, waited)
        → FiresAfter entries w waited
    unfolding beat_round
    goes_on entries w waited open_ended passed =
        let current = clockwork.now waited in
        (
          rw (open_ended, passed, fire_due-fires contained current entries waited, and_then) refl,
          advance-later current entries (λ cron. later cron current),
        )

    -- Where nothing that the loop calls raises past `Exception`, and a cron's next moment lies after
    -- the one that it is asked from, a round is one of these. A stop was asked for: it ends at once.
    -- An entry is overdue: it fires. None is: it waits for the earliest, and ends if a stop was asked
    -- for meanwhile, or else fires. To fire is to fire exactly the entries that are due after the wait,
    -- in their order and at their due times, whatever fails on the way, to move exactly those on, and
    -- to leave every entry to come later than that moment. No entry comes before the earliest.
    pub beat_round-fires :
        (entries : List BeatEntry) (w : W)
        → All (λ e. earliest clockwork entries ≤ e.next_at) entries
          × (((clockwork.is_stopped w ≡ true) × (beat_round clockwork entries w ≡ (ok none, w)))
              ⊎ (((clockwork.is_stopped w ≡ false)
                    × (earliest clockwork entries ≤ clockwork.now w)
                    × FiresAfter entries w w)
                  ⊎ (((clockwork.is_stopped w ≡ false)
                        × (clockwork.now w < earliest clockwork entries)
                        × ((wait_for entries w).0 ≡ true)
                        × (beat_round clockwork entries w ≡ (ok none, (wait_for entries w).1)))
                      ⊎ ((clockwork.is_stopped w ≡ false)
                          × (clockwork.now w < earliest clockwork entries)
                          × ((wait_for entries w).0 ≡ false)
                          × FiresAfter entries w (wait_for entries w).1))))
    unfolding beat_round wait_until
    beat_round-fires entries w = (
      earliest-least entries,
      elim (Bool-cases (clockwork.is_stopped w)) [
        | inl stop ↦ inl (stop, rw stop refl)
        | inr go ↦ elim (Bool-cases (ltb (clockwork.now w) (earliest clockwork entries))) [
          | inr overdue ↦
              inr (inl (go, ground (arith, overdue), goes_on entries w w go (rw overdue refl)))
          | inl early ↦ elim (Bool-cases (wait_for entries w).0) [
            | inl stop ↦
                inr (inr (inl (go, ground (arith, early), stop, rw (go, early, stop) refl)))
            | inr passed ↦ inr (
                inr (
                  inr (
                    go,
                    ground (arith, early),
                    passed,
                    goes_on entries w (wait_for entries w).1 go
                        (rw early (ap (λ b. (b, (wait_for entries w).1)) passed)),
                  )))
          ]
        ]
      ],
    )
