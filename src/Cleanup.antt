-- ===== src/Cleanup.antt =====
-- django_absurd/cleanup.py.
use django_absurd.Prelude.{
  ℕ, String, Bool, true, false, Option, none, some, List, [], ◌∷◌, ◌++◌, map, if◌then◌else◌,
}
use django_absurd.Exceptions.{
  Exception, programming_error, invalid_schema_name, undefined_function, schema_not_installed,
}
use django_absurd.Effect.{Run, pure, throw, lift, try_except, ◌>>=◌, ◌>>◌, Result}

pub record QueueCleanup : Type 0 where
  pub queue_name : String
  pub tasks_deleted : ℕ
  pub events_deleted : ℕ

-- The exceptions that the `except` clause takes for a missing schema.
abbrev pub lacks_schema : Exception → Bool
lacks_schema (programming_error invalid_schema_name) = true
lacks_schema (programming_error undefined_function) = true
lacks_schema _ = false

-- `execute` runs `absurd.cleanup_all_queues(target)` and fetches its rows; `database` is
-- `resolve_absurd_database()`.
module _ {W : Type 0} (database : Result String)
    (execute : String → Option String → Run W (List QueueCleanup))
    (log_cleanup_result : List QueueCleanup → Run W (Unit {0})) where
  unfoldable pub cleanup_targets : String → List (Option String) → Run W (List QueueCleanup)
  cleanup_targets using [] = pure []
  cleanup_targets using (target ∷ targets) = do
    rows ← execute using target
    more ← cleanup_targets using targets
    pure (rows ++ more)

  abbrev pub targets_of : Option (List String) → List (Option String)
  targets_of none = none ∷ []
  targets_of (some queues) = map some queues

  unfoldable pub cleanup_queues : Option (List String) → Run W (List QueueCleanup)
  cleanup_queues queues = do
    using ← lift database
    rows ←
        try_except (cleanup_targets using (targets_of queues))
          (λ e. if lacks_schema e then throw schema_not_installed else throw e)
    log_cleanup_result rows
    pure rows
