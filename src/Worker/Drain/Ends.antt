-- ===== src/Worker/Drain/Ends.antt =====
-- A drain ends, and returns the runs that it claimed, in the order of its claims.
use django_absurd.Prelude.{
  ℕ, zero, suc, ◌<◌, String, ◌≡◌, refl, ap, ap₂, ◌∙◌, sym, Option, some, List, [], ◌∷◌, ◌++◌, map,
  ◌⊎◌, inl, inr, arith,
}
use mathlib.Core.List.{map-append}
use django_absurd.Prelude.{subst}
use django_absurd.Exceptions.{Exception}
use django_absurd.Effect.{
  Result, ok, raised, Run, pure, and_then, ok-injective, >>=-ok, >>=-eq-ok, ◌>>=◌,
}
use django_absurd.Worker.Window.{WorkerOptions, effective_batch_size}
use django_absurd.Worker.Drain.{
  Client, ClaimedTask, DrainedRun, drained_of, after_batch, execute_claimed_run, execute_all,
  adrain_queue,
}

-- What tells a run from the others.
abbrev pub Identity : Type 0
Identity = String × String × String × ℕ

abbrev pub claimed_identity : ClaimedTask → Identity
claimed_identity c = (c.run_id, c.task_id, c.task_name, c.attempt)

abbrev pub drained_identity : DrainedRun → Identity
drained_identity r = (r.run_id, r.task_id, r.task_name, r.attempt)

module _ {W : Type 0} (client : Client W) (queue : String) (options : WorkerOptions) where
  abbrev claim : Run W (List ClaimedTask)
  claim = client.claim_tasks (effective_batch_size options)

  -- `asyncio.gather` returns what its awaitables return, in their order.
  abbrev pub InOrder : Type 0
  InOrder =
      (f : ClaimedTask → Run W DrainedRun)
      → ((c : ClaimedTask) (w : W) (r : DrainedRun)
          → (f c w).0 ≡ ok r
          → drained_identity r ≡ claimed_identity c)
      → (cs : List ClaimedTask) (w : W) (rs : List DrainedRun)
      → (client.gather (map f cs) w).0 ≡ ok rs
      → map drained_identity rs ≡ map claimed_identity cs

  -- The work that a queue has left: claiming and running a batch spends some of it.
  abbrev pub IsSpent : (W → ℕ) → Type 0
  IsSpent backlog =
      (w : W) (c : ClaimedTask) (cs : List ClaimedTask) (rs : List DrainedRun)
      → (claim w).0 ≡ ok (c ∷ cs)
      → (execute_all client queue (c ∷ cs) (claim w).1).0 ≡ ok rs
      → backlog (execute_all client queue (c ∷ cs) (claim w).1).1 < backlog w

  -- A drain from one world to another, with its claims and its runs: batches, and a claim of nothing.
  pub data Drains : W → List ClaimedTask → List DrainedRun → W → Type 0 where
    nothing : {w : W} → (claim w).0 ≡ ok [] → Drains w [] [] (claim w).1
    batch :
        {w w' : W} {c : ClaimedTask} {cs more : List ClaimedTask} {rs rest : List DrainedRun}
        → (claim w).0 ≡ ok (c ∷ cs)
        → (execute_all client queue (c ∷ cs) (claim w).1).0 ≡ ok rs
        → Drains (execute_all client queue (c ∷ cs) (claim w).1).1 more rest w'
        → Drains w ((c ∷ cs) ++ more) (rs ++ rest) w'

  -- A drain that raised, or that ran to its end.
  abbrev pub Ended : W → Result (Option (List DrainedRun)) × W → Type 0
  Ended w r =
      ((e : Exception) × (r.0 ≡ raised e))
      ⊎ ((cs : List ClaimedTask) × (rs : List DrainedRun) × (r.0 ≡ ok (some rs))
          × Drains w cs rs r.1
          × (map drained_identity rs ≡ map claimed_identity cs))

  outcome :
      {A : Type 0} (r : Result A) → ((e : Exception) × (r ≡ raised e)) ⊎ ((a : A) × (r ≡ ok a))
  outcome (ok a) = inr (a, refl)
  outcome (raised e) = inl (e, refl)

  execute_claimed_run-identity :
      (c : ClaimedTask) (w : W) (r : DrainedRun)
      → (execute_claimed_run client queue c w).0 ≡ ok r
      → drained_identity r ≡ claimed_identity c
  unfolding execute_claimed_run
  execute_claimed_run-identity c w r h =
      let (done, _, s₁) =
        >>=-eq-ok (client.execute_task c)
          (λ _. client.read_run queue c.run_id >>= λ o. pure (drained_of c o)) w h in
      let (found, _, s₂) =
        >>=-eq-ok (client.read_run queue c.run_id) (λ o. pure (drained_of c o))
          (client.execute_task c w).1 (ap (λ o. o.0) (sym s₁) ∙ h) in
      ap drained_identity (ok-injective (sym h ∙ ap (λ o. o.0) (s₁ ∙ s₂)))

  module _ (in_order : InOrder) (backlog : W → ℕ) (spent : IsSpent backlog) where
    -- What the rest of a drain adds to a batch.
    extended :
        (w : W) (c : ClaimedTask) (cs : List ClaimedTask) (rs : List DrainedRun)
        → (claim w).0 ≡ ok (c ∷ cs)
        → (execute_all client queue (c ∷ cs) (claim w).1).0 ≡ ok rs
        → (m : Run W (Option (List DrainedRun)))
        → let w₂ = (execute_all client queue (c ∷ cs) (claim w).1).1 in
          Ended w₂ (m w₂) → Ended w ((m >>= λ rest. pure (after_batch rs rest)) w₂)
    extended w c cs rs claimed ran m (inl (e, failed)) = inl (
      e,
      ap
          (λ (r : Result (Option (List DrainedRun))).
            (and_then {W = W} r (λ rest. pure (after_batch rs rest))
              (m (execute_all client queue (c ∷ cs) (claim w).1).1).1).0)
          failed,
    )
    extended w c cs rs claimed ran m (inr (more, rest, ended, drains, same)) =
        let w₂ = (execute_all client queue (c ∷ cs) (claim w).1).1 in
        subst (Ended w) (sym (>>=-ok m (λ rest. pure (after_batch rs rest)) w₂ (some rest) ended)) (
          inr (
            (c ∷ cs) ++ more,
            rs ++ rest,
            refl,
            batch claimed ran drains,
            map-append drained_identity rs rest
                ∙ ap₂ (λ xs ys. xs ++ ys)
                    (in_order (execute_claimed_run client queue) execute_claimed_run-identity
                      (c ∷ cs) (claim w).1 rs ran)
                    same
                ∙ sym (map-append claimed_identity (c ∷ cs) more),
          ))

    abbrev ran_to : W → ClaimedTask → List ClaimedTask → W
    ran_to w c cs = (execute_all client queue (c ∷ cs) (claim w).1).1

    abbrev next : ℕ → List DrainedRun → Run W (Option (List DrainedRun))
    next rounds rs = adrain_queue client queue options rounds >>= λ rest. pure (after_batch rs rest)

    abbrev round : ℕ → List ClaimedTask → Run W (Option (List DrainedRun))
    round rounds [] = pure (some [])
    round rounds (c ∷ cs) = execute_all client queue (c ∷ cs) >>= next rounds

    -- Where `asyncio.gather` keeps the order of its awaitables, and claiming and running a batch spends
    -- some of a backlog, a drain of more rounds than the backlog never runs out of them: it raises, or
    -- it returns the runs of all its batches, each under the identity of its claim and in the order of
    -- the claims, after a claim that returned nothing.
    pub adrain_queue-Ended :
        (rounds : ℕ) (w : W)
        → backlog w < rounds
        → Ended w (adrain_queue client queue options rounds w)
    unfolding adrain_queue
    adrain_queue-Ended zero w h = absurd (omega arith)
    adrain_queue-Ended (suc rounds) w h = elim (outcome (claim w).0) [
      | inl (e, failed) ↦ inl (e, ap (λ r. (and_then r (round rounds) (claim w).1).0) failed)
      | inr ([], none_left) ↦
          subst (Ended w) (sym (>>=-ok claim (round rounds) w [] none_left))
            (inr ([], [], refl, nothing none_left, refl))
      | inr (c ∷ cs, claimed) ↦
          subst (Ended w) (sym (>>=-ok claim (round rounds) w (c ∷ cs) claimed))
            (elim (outcome (execute_all client queue (c ∷ cs) (claim w).1).0) [
              | inl (e, failed) ↦
                  inl (e, ap (λ r. (and_then r (next rounds) (ran_to w c cs)).0) failed)
              | inr (rs, ran) ↦
                  subst (Ended w)
                    (sym
                      (>>=-ok (execute_all client queue (c ∷ cs)) (next rounds) (claim w).1 rs ran))
                    (extended w c cs rs claimed ran (adrain_queue client queue options rounds) (
                      adrain_queue-Ended rounds (ran_to w c cs)
                        (omega (arith, spent w c cs rs claimed ran))))
            ])
    ]
