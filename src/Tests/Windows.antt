-- ===== src/Tests/Windows.antt =====
-- Tests of the window of runs in flight, over a worker whose world counts time.
use django_absurd.Prelude.{
  ℕ, zero, suc, ◌+◌, ◌≤◌, refl, String, none, some, List, [], ◌∷◌, if◌then◌else◌, leb, length,
  arith, All,
}
use django_absurd.Effect.{ok, Run, pure}
use django_absurd.Worker.Window.{
  WorkerOptions, Loop, Window, refill_loop, refill_in_flight_runs_until_stopped,
}
use django_absurd.Worker.Window.Bounds.{
  ClaimsBounded, Settles, IsDone, refill_loop-Fits, refill_in_flight_runs_until_stopped-IsDone,
}

abbrev claimed_of : ℕ → List String
claimed_of zero = []
claimed_of (suc n) = "run" ∷ []

abbrev advance_time : ℕ → Run ℕ (Unit {0})
advance_time n w = (ok tt, w + n)

-- Every run is done at time 5; a stop is asked for at time 3.
abbrev timed : Loop ℕ
timed = record {
  is_stopped = λ w. leb 3 w;
  poll = λ run w. if leb 5 w then some (ok tt) else none;
  claim_tasks = λ n w. (ok (claimed_of n), w + 1);
  execute = λ run. advance_time 1;
  wait_stop = advance_time 1;
  wait_first = λ runs. advance_time 1;
  wait_all = λ runs. advance_time 5;
  gather = λ runs. pure tt;
  gather_quietly = λ runs. advance_time 5;
  cancel = λ runs w. w;
}

abbrev two_slots : WorkerOptions
two_slots = record { concurrency = 2; batch_size = none }

abbrev empty_window : Window ℕ
empty_window = record { executing = []; world = 0 }

length-claimed_of : (n : ℕ) → length (claimed_of n) ≤ n
length-claimed_of zero = omega arith
length-claimed_of (suc n) = omega arith

timed-ClaimsBounded : ClaimsBounded timed two_slots
timed-ClaimsBounded n w w' claimed e = ground (arith, e, length-claimed_of n)

All-IsDone : (runs : List String) (w : ℕ) → All (IsDone timed two_slots (w + 5)) runs
All-IsDone [] w = tt
All-IsDone (run ∷ runs) w = (ground arith, All-IsDone runs w)

timed-Settles : Settles timed two_slots
timed-Settles = record {
  waits = λ runs w. refl;
  waited = All-IsDone;
  gathers = λ runs w done. done;
  drained = λ runs w gathered. All-IsDone runs w;
}

refill_loop-Fits_example : length (refill_loop timed two_slots 5 empty_window).1.executing ≤ 2
refill_loop-Fits_example =
    refill_loop-Fits timed two_slots timed-ClaimsBounded 5 empty_window (omega arith)

refill_in_flight_runs_until_stopped-IsDone_example :
    let ended = (refill_loop timed two_slots 5 empty_window).1 in
    let left = (refill_in_flight_runs_until_stopped timed two_slots 5 empty_window).1 in
    All (IsDone timed two_slots left.world) ended.executing
    × All (IsDone timed two_slots left.world) left.executing
refill_in_flight_runs_until_stopped-IsDone_example =
    refill_in_flight_runs_until_stopped-IsDone timed two_slots timed-Settles 5 empty_window
