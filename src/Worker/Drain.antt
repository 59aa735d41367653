-- ===== src/Worker/Drain.antt =====
-- The drain of django_absurd/worker.py: claiming and executing until a claim returns nothing, on the
-- runtime that it shares with the blocking worker.
pub mod Ends
use django_absurd.Prelude.{
  ℕ, zero, suc, String, Bool, true, false, Option, none, some, List, [], ◌∷◌, ◌++◌, map, contains,
  if◌then◌else◌, length,
}
use django_absurd.Exceptions.{schema_not_installed, queue_not_provisioned}
use django_absurd.Effect.{Run, pure, throw, try_finally, ◌>>=◌, ◌>>◌}
use django_absurd.Json.{Json}
use django_absurd.Worker.Window.{WorkerOptions, effective_batch_size}

-- The SDK's `ClaimedTask`, as far as the drain reads it.
pub record ClaimedTask : Type 0 where
  pub run_id : String
  pub task_id : String
  pub task_name : String
  pub params : Json
  pub attempt : ℕ

pub record DrainedRun : Type 0 where
  pub run_id : String
  pub task_id : String
  pub task_name : String
  pub params : Json
  pub attempt : ℕ
  pub state : String
  pub result : Json
  pub failure : Json

-- The worker's own connection and the SDK's client on it: `schema_absent` and `missing_tables` are the
-- queries of `arequire_installed_schema` and `afind_missing_queue_tables`, `execute_task` the client's
-- `_execute_task`, `read_run` the ORM's read of a run's row by its id, and `gather` is
-- `asyncio.gather`.
pub record Client (W : Type 0) : Type 0 where
  pub connect : Run W (Unit {0})
  pub close : Run W (Unit {0})
  pub close_old_connections : Run W (Unit {0})
  pub schema_absent : Run W Bool
  pub list_queues : Run W (List String)
  pub missing_tables : String → Run W (List String)
  pub claim_tasks : ℕ → Run W (List ClaimedTask)
  pub execute_task : ClaimedTask → Run W (Unit {0})
  pub read_run : (queue run_id : String) → Run W (String × Json × Json)
  pub gather : List (Run W DrainedRun) → Run W (List DrainedRun)
  pub log_started : Run W (Unit {0})
  pub log_stopped : ℕ → Run W (Unit {0})

abbrev pub drained_of : ClaimedTask → String × Json × Json → DrainedRun
drained_of claimed (state, result, failure) = record {
  run_id = claimed.run_id;
  task_id = claimed.task_id;
  task_name = claimed.task_name;
  params = claimed.params;
  attempt = claimed.attempt;
  state = state;
  result = result;
  failure = failure;
}

-- What a finished drain adds to the runs of a batch, unless its rounds ran out.
abbrev pub after_batch : List DrainedRun → Option (List DrainedRun) → Option (List DrainedRun)
after_batch runs none = none
after_batch runs (some drained) = some (runs ++ drained)

module _ {W : Type 0} (client : Client W) where
  open client use {
    connect, close, close_old_connections, schema_absent, list_queues, missing_tables, claim_tasks,
    execute_task, read_run, gather, log_started, log_stopped,
  }

  unfoldable pub arequire_installed_schema : Run W (Unit {0})
  arequire_installed_schema = do
    absent ← schema_absent
    if absent then throw schema_not_installed else pure tt

  -- Whether a worker may start on a queue.
  unfoldable pub require_provisioned : String → Run W (Unit {0})
  require_provisioned queue = do
    arequire_installed_schema
    provisioned ← list_queues
    if contains provisioned queue then pure tt else throw (queue_not_provisioned queue)
    missing ← missing_tables queue
    elim missing [ [] ↦ pure tt | _ ∷ _ ↦ throw (queue_not_provisioned queue) ]

  -- A body that runs with the client, whose connections are closed whatever the body does.
  unfoldable pub aworker_client : {A : Type 0} → String → Run W A → Run W A
  aworker_client queue body = do
    connect
    try_finally (do require_provisioned queue; body) (do close; close_old_connections)

  unfoldable pub open_worker_runtime : {A : Type 0} → String → Run W A → Run W A
  open_worker_runtime queue body = aworker_client queue (do log_started; body)

  unfoldable pub execute_claimed_run : String → ClaimedTask → Run W DrainedRun
  execute_claimed_run queue claimed = do
    execute_task claimed
    outcome ← read_run queue claimed.run_id
    pure (drained_of claimed outcome)

  -- `asyncio.gather` of a batch.
  abbrev pub execute_all : String → List ClaimedTask → Run W (List DrainedRun)
  execute_all queue claimed = gather (map (execute_claimed_run queue) claimed)

  -- The drain within a number of rounds; `none` if they run out.
  unfoldable pub adrain_queue : String → WorkerOptions → ℕ → Run W (Option (List DrainedRun))
  adrain_queue queue options zero = pure none
  adrain_queue queue options (suc rounds) = do
    claimed ← claim_tasks (effective_batch_size options)
    elim claimed [
      | [] ↦ pure (some [])
      | run ∷ more ↦ (do
        runs ← execute_all queue (run ∷ more)
        rest ← adrain_queue queue options rounds
        pure (after_batch runs rest))
    ]

  abbrev pub log_drained : Option (List DrainedRun) → Run W (Unit {0})
  log_drained none = pure tt
  log_drained (some drained) = log_stopped (length drained)

  unfoldable pub arun_drain : String → WorkerOptions → ℕ → Run W (Option (List DrainedRun))
  arun_drain queue options rounds =
      open_worker_runtime queue
        (do drained ← adrain_queue queue options rounds; log_drained drained; pure drained)
