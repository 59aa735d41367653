-- ===== src/Worker/Window.antt =====
-- The blocking loops of django_absurd/worker.py: claiming runs, and the window of runs in flight.
pub mod Bounds
use django_absurd.Prelude.{
  ℕ, zero, suc, ◌-◌, String, Bool, true, false, not, Option, none, some, List, [], ◌∷◌, ◌++◌,
  if◌then◌else◌, leb, min, length,
}
use django_absurd.Exceptions.{Exception, is_exception, is_timeout}
use django_absurd.Effect.{
  Result, ok, raised, Run, pure, throw, try_except, try_finally, and_then, ◌>>=◌, ◌>>◌,
}

-- `WorkerOptions`, as far as the loops read it; the claim's timeout and the worker's id go to the SDK.
pub record WorkerOptions : Type 0 where
  pub concurrency : ℕ
  pub batch_size : Option ℕ

-- `options.batch_size or options.concurrency`
unfoldable pub effective_batch_size : WorkerOptions → ℕ
effective_batch_size options = elim options.batch_size [
  | none ↦ options.concurrency
  | some zero ↦ options.concurrency
  | some (suc n) ↦ suc n
]

-- asyncio and the SDK's client. A run in flight is named by its asyncio task; `poll` is what
-- `task.done()` and `task.result()` say of it. `wait_stop` is
-- `asyncio.wait_for(stop.wait(), poll_interval)`, `wait_first` is `asyncio.wait` with that timeout
-- for the first of the runs, `wait_all` is `asyncio.wait`, `gather` and `gather_quietly` are
-- `asyncio.gather` without and with `return_exceptions`.
pub record Loop (W : Type 0) : Type 0 where
  pub is_stopped : W → Bool
  pub poll : String → W → Option (Result (Unit {0}))
  pub claim_tasks : ℕ → Run W (List String)
  pub execute : String → Run W (Unit {0})
  pub wait_stop : Run W (Unit {0})
  pub wait_first : List String → Run W (Unit {0})
  pub wait_all : List String → Run W (Unit {0})
  pub gather : List String → Run W (Unit {0})
  pub gather_quietly : List String → Run W (Unit {0})
  pub cancel : List String → W → W

-- The set `executing`, beside the rest of the world.
pub record Window (W : Type 0) : Type 0 where
  pub executing : List String
  pub world : W

module _ {W : Type 0} (loop : Loop W) (options : WorkerOptions) where
  open loop use {
    is_stopped, poll, claim_tasks, execute, wait_stop, wait_first, wait_all, gather, gather_quietly,
    cancel,
  }

  unfoldable pub wait_for_stop_or_timeout : Run W (Unit {0})
  wait_for_stop_or_timeout = try_except wait_stop (λ e. if is_timeout e then pure tt else throw e)

  unfoldable pub wait_for_run_progress : List String → Run W (Unit {0})
  wait_for_run_progress [] = wait_for_stop_or_timeout
  wait_for_run_progress (e ∷ executing) = wait_first (e ∷ executing)

  -- `execute_one_run_at_a_time`: the runs of a batch one after the other.
  unfoldable pub execute_batch : List String → Run W (Unit {0})
  execute_batch [] = pure tt
  execute_batch (run ∷ claimed) = do execute run; execute_batch claimed

  -- Whether the loop was stopped within a number of rounds.
  unfoldable pub execute_one_run_at_a_time : ℕ → Run W Bool
  execute_one_run_at_a_time zero = pure false
  execute_one_run_at_a_time (suc rounds) = λ w.
      if is_stopped w
      then (ok true, w)
      else (do
        claimed ← claim_tasks (effective_batch_size options)
        elim claimed [ [] ↦ wait_for_stop_or_timeout | run ∷ more ↦ execute_batch (run ∷ more) ]
        execute_one_run_at_a_time rounds)
          w

  -- What becomes of one run of the set, by what it says of itself; `others` is what becomes of the
  -- runs after it, `executing`.
  unfoldable pub reap_run :
      String
      → Option (Result (Unit {0}))
      → (executing : List String) → (others : Result (Unit {0}) × List String)
      → Result (Unit {0}) × List String
  reap_run run none executing others = (others.0, run ∷ others.1)
  reap_run run (some (ok _)) executing others = others
  reap_run run (some (raised e)) executing others = (raised e, executing)

  -- `reap_finished_runs`, on the runs that were in flight; `look` is `poll` at this moment. The first
  -- finished run whose result raises is reaped and ends it.
  unfoldable pub reap_finished_runs :
      (look : String → Option (Result (Unit {0}))) → List String → Result (Unit {0}) × List String
  reap_finished_runs look [] = (ok tt, [])
  reap_finished_runs look (run ∷ executing) =
      reap_run run (look run) executing (reap_finished_runs look executing)

  -- A call that leaves the set `executing` as it is.
  abbrev pub beside : {A : Type 0} → Run W A → List String → W → Result A × Window W
  beside m executing w = let (r, w') = m w in (r, record { executing = executing; world = w' })

  -- A task for every claimed run.
  unfoldable pub admit_claimed :
      List String → Result (List String) → W → Result (Unit {0}) × Window W
  admit_claimed executing (raised e) w = (raised e, record { executing = executing; world = w })
  admit_claimed executing (ok []) w = beside (wait_for_run_progress executing) executing w
  admit_claimed executing (ok (run ∷ more)) w =
      (ok tt, record { executing = executing ++ run ∷ more; world = w })

  -- `claim_tasks` within the free capacity.
  unfoldable pub claim_into : List String → W → Result (Unit {0}) × Window W
  claim_into executing w =
      let (claimed, w') =
        claim_tasks (min (effective_batch_size options) (options.concurrency - length executing))
          w in
      admit_claimed executing claimed w'

  -- One round of the loop of `refill_in_flight_runs_until_stopped`, after and with the reaping.
  unfoldable pub refill_reaped : Result (Unit {0}) → List String → W → Result (Unit {0}) × Window W
  refill_reaped (raised e) executing w = (raised e, record { executing = executing; world = w })
  refill_reaped (ok _) executing w =
      if leb options.concurrency (length executing)
      then beside (wait_for_run_progress executing) executing w
      else claim_into executing w

  unfoldable pub refill_round : Run (Window W) (Unit {0})
  refill_round window =
      let (reaped, executing) =
        reap_finished_runs (λ run. poll run window.world) window.executing in
      refill_reaped reaped executing window.world

  unfoldable pub refill_loop : ℕ → Run (Window W) Bool
  refill_loop zero = pure false
  refill_loop (suc rounds) = λ window.
      if is_stopped window.world
      then (ok true, window)
      else (do refill_round; refill_loop rounds) window

  unfoldable pub cancel_and_drain_runs : Run (Window W) (Unit {0})
  cancel_and_drain_runs window =
      let (r, w) = gather_quietly window.executing (cancel window.executing window.world) in
      elim r [
        | raised e ↦ (raised e, record { executing = window.executing; world = w })
        | ok _ ↦ (ok tt, record { executing = []; world = w })
      ]

  unfoldable pub finish_runs : List String → W → Result (Unit {0}) × Window W
  finish_runs [] w = (ok tt, record { executing = []; world = w })
  finish_runs (run ∷ more) w = beside (wait_all (run ∷ more) >> gather (run ∷ more)) (run ∷ more) w

  unfoldable pub finish_remaining_runs : Run (Window W) (Unit {0})
  finish_remaining_runs window = finish_runs window.executing window.world

  -- The clause `except asyncio.CancelledError`.
  abbrev pub on_cancel : Exception → Run (Window W) Bool
  on_cancel e = if is_exception e then throw e else (do cancel_and_drain_runs; throw e)

  unfoldable pub refill_in_flight_runs_until_stopped : ℕ → Run (Window W) Bool
  refill_in_flight_runs_until_stopped rounds =
      try_finally (try_except (refill_loop rounds) on_cancel) finish_remaining_runs

  -- `run_blocking_worker`, between the setting and the removal of its signal handlers.
  unfoldable pub run_blocking_worker : ℕ → Run W Bool
  run_blocking_worker rounds w =
      if leb options.concurrency 1
      then execute_one_run_at_a_time rounds w
      else (let (r, window) =
            refill_in_flight_runs_until_stopped rounds (record { executing = []; world = w }) in
          (r, window.world))
