-- ===== src/Tests/Drains.antt =====
-- Tests of the drain, over a queue that counts its runs and an event loop that runs one after another.
use django_absurd.Prelude.{
  ℕ, zero, suc, ◌≡◌, ap, ap₂, ◌∙◌, sym, false, none, List, [], ◌∷◌, map, arith,
}
use django_absurd.Effect.{Result, ok, Run, pure, ok-injective, >>=-eq-ok, ◌>>=◌}
use django_absurd.Json.{number, null}
use django_absurd.Worker.Window.{WorkerOptions}
use django_absurd.Worker.Drain.{Client, ClaimedTask, DrainedRun, adrain_queue, execute_claimed_run}
use django_absurd.Worker.Drain.Ends.{
  IsSpent, Ended, drained_identity, claimed_identity, adrain_queue-Ended,
}

module _ {W : Type 0} where
  abbrev one_by_one : List (Run W DrainedRun) → Run W (List DrainedRun)
  one_by_one [] = pure []
  one_by_one (m ∷ ms) = m >>= λ r. one_by_one ms >>= λ rs. pure (r ∷ rs)

  one_by_one-order :
      (f : ClaimedTask → Run W DrainedRun)
      → ((c : ClaimedTask) (w : W) (r : DrainedRun)
          → (f c w).0 ≡ ok r
          → drained_identity r ≡ claimed_identity c)
      → (cs : List ClaimedTask) (w : W) (rs : List DrainedRun) → (one_by_one (map f cs) w).0 ≡ ok rs
      → map drained_identity rs ≡ map claimed_identity cs
  one_by_one-order f same [] w rs h = ap (map drained_identity) (sym (ok-injective h))
  one_by_one-order f same (c ∷ cs) w rs h =
      let (r, ran, s₁) = >>=-eq-ok (f c) (λ r. one_by_one (map f cs) >>= λ rs. pure (r ∷ rs)) w h in
      let (more, rest, s₂) =
        >>=-eq-ok (one_by_one (map f cs)) (λ rs. pure (r ∷ rs)) (f c w).1
          (ap (λ o. o.0) (sym s₁) ∙ h) in
      ap (map drained_identity) (sym (ok-injective (ap (λ o. o.0) (sym (s₁ ∙ s₂)) ∙ h)))
      ∙ ap₂ (λ x xs. x ∷ xs) (same c w r ran) (one_by_one-order f same cs (f c w).1 more rest)

abbrev run : ℕ → ClaimedTask
run n = record { run_id = "r"; task_id = "t"; task_name = "app.report"; params = null; attempt = n }

-- A claim takes one run.
abbrev claim_one : ℕ → Run ℕ (List ClaimedTask)
claim_one n zero = (ok [], zero)
claim_one n (suc left) = (ok (run left ∷ []), left)

abbrev client : Client ℕ
client = record {
  connect = pure tt;
  close = pure tt;
  close_old_connections = pure tt;
  schema_absent = pure false;
  list_queues = pure ("default" ∷ []);
  missing_tables = λ _. pure [];
  claim_tasks = claim_one;
  execute_task = λ _. pure tt;
  read_run = λ _ _. pure ("completed", number 1, null);
  gather = one_by_one;
  log_started = pure tt;
  log_stopped = λ _. pure tt;
}

abbrev options : WorkerOptions
options = record { concurrency = 1; batch_size = none }

only_one :
    {a c : ClaimedTask} {cs : List ClaimedTask}
    → ◌≡◌ {A = Result (List ClaimedTask)} (ok (a ∷ [])) (ok (c ∷ cs))
    → cs ≡ []
only_one h = cc

spent : IsSpent client "default" options (λ left. left)
unfolding execute_claimed_run
spent zero c cs rs claimed ran = cc
spent (suc left) c cs rs claimed ran = rw (only_one claimed) (omega arith)

adrain_queue-Ended_example :
    Ended client "default" options 2 (adrain_queue client "default" options 3 2)
adrain_queue-Ended_example =
    adrain_queue-Ended client "default" options one_by_one-order (λ left. left) spent 3 2
      (omega arith)
