-- ===== src/Events.antt =====
-- django_absurd/events.py.
use django_absurd.Prelude.{ℕ, String, Bool, none, some, List, contains, if◌then◌else◌}
use django_absurd.Exceptions.{backend_not_configured, queue_not_declared}
use django_absurd.Effect.{Run, throw, try_except, ◌>>◌}
use django_absurd.Json.{Json}
use django_absurd.Backend.{Backend}
use django_absurd.Connection.{Connections, validate_backend}
use django_absurd.Settings.{resolve_absurd_database, get_absurd_backend}
use django_absurd.Worker.Runs.{translate_missing_table}

-- `emit` is the SDK's `emit_event` on a queue, `atomic` the transaction of a database round it.
module _ {W : Type 0} (connections : Connections W) (is_word : ℕ → Bool)
    (atomic : String → Run W (Unit {0}) → Run W (Unit {0}))
    (emit : (event_name : String) → Json → (queue : String) → Run W (Unit {0})) where
  unfoldable pub emit_on : List Backend → Backend → String → Json → String → Run W (Unit {0})
  emit_on backends backend event_name payload queue =
      if contains backend.queues queue
      then (do
        validate_backend connections (resolve_absurd_database backends)
        try_except (atomic backend.database (emit event_name payload queue))
            (λ e. throw (translate_missing_table is_word queue e)))
      else throw (queue_not_declared queue backend.alias backend.queues)

  unfoldable pub emit_event : List Backend → String → Json → String → Run W (Unit {0})
  emit_event backends event_name payload queue = elim (get_absurd_backend backends) [
    | none ↦ throw backend_not_configured
    | some backend ↦ emit_on backends backend event_name payload queue
  ]
