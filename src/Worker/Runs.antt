-- ===== src/Worker/Runs.antt =====
-- `drain_queue` and `run_worker` of django_absurd/worker.py, round the runs that they start.
use django_absurd.Prelude.{ℕ, String, Bool, contains, if◌then◌else◌}
use django_absurd.Exceptions.{Exception, undefined_table, queue_not_provisioned, queue_not_declared}
use django_absurd.Effect.{Run, pure, throw, lift, try_except, ◌>>=◌, ◌>>◌, Result}
use django_absurd.Connection.{Connections, validate_backend}
use django_absurd.Backend.{Backend}
use django_absurd.Queues.Tables.{names_a_queue_table}

-- `except psycopg.errors.UndefinedTable`: only a relation of this queue's own is translated.
unfoldable pub translate_missing_table : (ℕ → Bool) → String → Exception → Exception
translate_missing_table is_word queue (undefined_table message) =
    if names_a_queue_table is_word message queue
    then queue_not_provisioned queue
    else undefined_table message
translate_missing_table is_word queue e = e

module _ {W A : Type 0} (connections : Connections W) (is_word : ℕ → Bool) where
  unfoldable pub run_worker : Backend → String → (arun_worker : Run W A) → Run W A
  run_worker backend queue arun_worker = do
    validate_backend connections backend.database
    try_except arun_worker (λ e. throw (translate_missing_table is_word queue e))

  -- `resolved` is `resolve_backend()`, `arun_drain` the drain of the backend's queue.
  unfoldable pub drain_queue : Result Backend → String → (arun_drain : Backend → Run W A) → Run W A
  drain_queue resolved queue arun_drain = do
    backend ← lift resolved
    if contains backend.queues queue
        then pure tt
        else throw (queue_not_declared queue backend.alias backend.queues)
    validate_backend connections backend.database
    try_except (arun_drain backend) (λ e. throw (translate_missing_table is_word queue e))
