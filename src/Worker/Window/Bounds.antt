-- ===== src/Worker/Window/Bounds.antt =====
-- The window of runs in flight: how large it grows, and what is left of it.
use django_absurd.Prelude.{
  ℕ, zero, suc, ◌-◌, ◌≤◌, ◌≡◌, refl, sym, subst, String, true, Option, none, some, List, [], ◌∷◌,
  leb, min, length, length-append, arith, All, Bool-cases, inl, inr, is_some, ◌⊎◌, Bool,
}
use django_absurd.Exceptions.{is_exception}
use django_absurd.Effect.{Result, ok, raised, Run, throw, try_except, and_then, >>=-ok}
use django_absurd.Worker.Window.{
  WorkerOptions, effective_batch_size, Loop, Window, reap_run, reap_finished_runs, claim_into,
  admit_claimed, refill_reaped, refill_round, refill_loop, finish_runs, finish_remaining_runs,
  on_cancel, cancel_and_drain_runs, refill_in_flight_runs_until_stopped,
}

-- What holds where a first step ends, and after the second, holds after both.
and_then-keeps :
    {W A B : Type 0} (P : W → Type 0) (r : Result A) (f : A → Run W B) (w : W)
    → P w
    → ((a : A) → P (f a w).1)
    → P (and_then r f w).1
and_then-keeps P (ok a) f w stays next = next a
and_then-keeps P (raised e) f w stays next = stays

cleaned_up :
    {W A B : Type 0} (c : Result B) (r : Result A) (w : W)
    → let done : Result A × W = elim c [ ok b ↦ (r, w) | raised e ↦ (raised e, w) ] in done.1 ≡ w
cleaned_up (ok b) r w = refl
cleaned_up (raised e) r w = refl

module _ {W : Type 0} (loop : Loop W) (options : WorkerOptions) where
  -- A claim returns no more runs than it asks for.
  abbrev pub ClaimsBounded : Type 0
  ClaimsBounded =
      (n : ℕ) (w w' : W) (claimed : List String)
      → loop.claim_tasks n w ≡ (ok claimed, w')
      → length claimed ≤ n

  abbrev pub Fits : Window W → Type 0
  Fits window = length window.executing ≤ options.concurrency

  length-reap_run :
      (run : String) (seen : Option (Result (Unit {0}))) (executing : List String)
      (others : Result (Unit {0}) × List String)
      → length others.1 ≤ length executing
      → length (reap_run loop options run seen executing others).1 ≤ suc (length executing)
  unfolding reap_run
  length-reap_run run none executing others h = omega (arith, h)
  length-reap_run run (some (ok _)) executing others h = omega (arith, h)
  length-reap_run run (some (raised e)) executing others h = omega arith

  length-reap_finished_runs :
      (look : String → Option (Result (Unit {0}))) (executing : List String)
      → length (reap_finished_runs loop options look executing).1 ≤ length executing
  unfolding reap_finished_runs
  length-reap_finished_runs look [] = omega arith
  length-reap_finished_runs look (run ∷ executing) =
      length-reap_run run (look run) executing _ (length-reap_finished_runs look executing)

  module _ (bounded : ClaimsBounded) where
    claimed-Fits :
        (executing : List String) (w w' : W) (claimed : Result (List String))
        → length executing ≤ options.concurrency
        → loop.claim_tasks
            (min (effective_batch_size options) (options.concurrency - length executing))
            w
          ≡ (claimed, w')
        → Fits (admit_claimed loop options executing claimed w').1
    unfolding admit_claimed
    claimed-Fits executing w w' (raised e) h c = h
    claimed-Fits executing w w' (ok []) h c = h
    claimed-Fits executing w w' (ok (run ∷ more)) h c =
        omega (arith, length-append executing (run ∷ more), bounded _ w w' (run ∷ more) c, h)

    claim_into-Fits :
        (executing : List String) (w : W)
        → length executing ≤ options.concurrency
        → Fits (claim_into loop options executing w).1
    unfolding claim_into
    claim_into-Fits executing w h = claimed-Fits executing w _ _ h refl

    refill_reaped-Fits :
        (reaped : Result (Unit {0})) (executing : List String) (w : W)
        → length executing ≤ options.concurrency
        → Fits (refill_reaped loop options reaped executing w).1
    unfolding refill_reaped
    refill_reaped-Fits (raised e) executing w h = h
    refill_reaped-Fits (ok _) executing w h =
        elim (Bool-cases (leb options.concurrency (length executing))) [
          | inl full ↦ rw full h
          | inr free ↦ rw free (claim_into-Fits executing w h)
        ]

    refill_round-Fits :
        (window : Window W) → Fits window → Fits (refill_round loop options window).1
    unfolding refill_round
    refill_round-Fits window h = refill_reaped-Fits _ _ window.world (
        omega (
          arith,
          h,
          length-reap_finished_runs (λ run. loop.poll run window.world) window.executing,
        ))

    -- Over any number of rounds the window of runs in flight stays within the worker's concurrency,
    -- where no claim returns more runs than it asks for.
    pub refill_loop-Fits :
        (rounds : ℕ) (window : Window W)
        → Fits window
        → Fits (refill_loop loop options rounds window).1
    unfolding refill_loop
    refill_loop-Fits zero window h = h
    refill_loop-Fits (suc rounds) window h = elim (Bool-cases (loop.is_stopped window.world)) [
      | inl stop ↦ rw stop h
      | inr go ↦ rw go (
          and_then-keeps Fits (refill_round loop options window).0
            (λ _. refill_loop loop options rounds) _ (refill_round-Fits window h)
            (λ _. refill_loop-Fits rounds _ (refill_round-Fits window h)))
    ]

  abbrev pub IsDone : W → String → Type 0
  IsDone w run = is_some (loop.poll run w) ≡ true

  -- What asyncio's calls do: `asyncio.wait` returns when its runs are done, what is done stays so
  -- through a `gather`, and a `gather` with `return_exceptions` that returns has waited for its runs.
  pub record Settles : Type 0 where
    pub waits : (runs : List String) (w : W) → (loop.wait_all runs w).0 ≡ ok tt
    pub waited : (runs : List String) (w : W) → All (IsDone (loop.wait_all runs w).1) runs
    pub gathers :
        (runs : List String) (w : W)
        → All (IsDone w) runs
        → All (IsDone (loop.gather runs w).1) runs
    pub drained :
        (runs : List String) (w : W)
        → (loop.gather_quietly runs w).0 ≡ ok tt
        → All (IsDone (loop.gather_quietly runs w).1) runs

  -- The runs that are waited for at the end are finished, and kept.
  finish_runs-IsDone :
      (settles : Settles) (executing : List String) (w : W)
      → let window = (finish_runs loop options executing w).1 in
        All (IsDone window.world) executing × (window.executing ≡ executing)
  unfolding finish_runs
  finish_runs-IsDone settles [] w = (tt, refl)
  finish_runs-IsDone settles (run ∷ more) w =
      let runs = run ∷ more in
      let w' = (loop.wait_all runs w).1 in
      let step = >>=-ok (loop.wait_all runs) (λ _. loop.gather runs) w tt (settles.waits runs w) in
      (
        subst (λ out. All (IsDone out.1) runs) (sym step)
            (settles.gathers runs w' (settles.waited runs w)),
        refl,
      )

  -- What the handler of a cancellation leaves of a window: its runs are drained, or still held.
  DoneOrHeld : List String → Window W → Type 0
  DoneOrHeld runs window =
      (All (IsDone window.world) runs × (window.executing ≡ [])) ⊎ (window.executing ≡ runs)

  module _ (settles : Settles) where
    -- Waiting for what a window still holds leaves its runs finished, drained or held.
    finish_runs-DoneOrHeld :
        (runs : List String) (window : Window W)
        → DoneOrHeld runs window
        → All (IsDone (finish_runs loop options window.executing window.world).1.world) runs
    unfolding finish_runs DoneOrHeld
    finish_runs-DoneOrHeld runs window (inl (done, empty)) = rw empty done
    finish_runs-DoneOrHeld runs window (inr held) =
        rw held (finish_runs-IsDone settles runs window.world).0

    cancelled-DoneOrHeld :
        (window : Window W)
        → DoneOrHeld window.executing (cancel_and_drain_runs loop options window).1
    unfolding cancel_and_drain_runs DoneOrHeld
    cancelled-DoneOrHeld window =
        by_outcome (loop.gather_quietly window.executing w).0 (settles.drained window.executing w)
      where
        w : W
        w = loop.cancel window.executing window.world

        w' : W
        w' = (loop.gather_quietly window.executing w).1

        by_outcome :
            (r : Result (Unit {0}))
            → (r ≡ ok tt → All (IsDone w') window.executing)
            → let done : Result (Unit {0}) × Window W = elim r [
              | raised e ↦ (raised e, record { executing = window.executing; world = w' })
              | ok _ ↦ (ok tt, record { executing = []; world = w' })
            ] in
              DoneOrHeld window.executing done.1
        by_outcome (ok _) drained = inl (drained refl, refl)
        by_outcome (raised e) drained = inr refl

    -- However the rounds end, the clause for a cancellation drains their runs or leaves them held.
    on_cancel-DoneOrHeld :
        (r : Result Bool) (ended : Window W)
        → let left : Result Bool × Window W = elim r [
          | ok stopped ↦ (ok stopped, ended)
          | raised e ↦ on_cancel loop options e ended
        ] in
          DoneOrHeld ended.executing left.1
    unfolding DoneOrHeld
    on_cancel-DoneOrHeld (ok stopped) ended = inr refl
    on_cancel-DoneOrHeld (raised e) ended = elim (Bool-cases (is_exception e)) [
      | inl failed ↦ rw failed (inr refl)
      | inr cancelled ↦ rw cancelled (
          and_then-keeps (DoneOrHeld ended.executing) (cancel_and_drain_runs loop options ended).0
            (λ _. throw e) _ (cancelled-DoneOrHeld ended) (λ _. cancelled-DoneOrHeld ended))
    ]

    -- Where asyncio's calls do what `Settles` says: however the rounds end, stopped, failed or
    -- cancelled, each run in flight at their end is finished in the world that the loop leaves, and
    -- so is each run that it still holds.
    pub refill_in_flight_runs_until_stopped-IsDone :
        (rounds : ℕ) (window : Window W)
        → let ended = (refill_loop loop options rounds window).1 in
          let left = (refill_in_flight_runs_until_stopped loop options rounds window).1 in
          All (IsDone left.world) ended.executing × All (IsDone left.world) left.executing
    unfolding refill_in_flight_runs_until_stopped finish_remaining_runs
    refill_in_flight_runs_until_stopped-IsDone rounds window =
        let (r, ended) = refill_loop loop options rounds window in
        let (e, kept) =
          try_except (refill_loop loop options rounds) (on_cancel loop options) window in
        let (c, left) = finish_runs loop options kept.executing kept.world in
        subst (λ v. All (IsDone v.world) ended.executing × All (IsDone v.world) v.executing)
          (sym (cleaned_up c e left))
          (
            finish_runs-DoneOrHeld ended.executing kept (on_cancel-DoneOrHeld r ended),
            rw ((finish_runs-IsDone settles kept.executing kept.world).1)
                (finish_runs-IsDone settles kept.executing kept.world).0,
          )
