-- ===== src/Backend/Results/Laws.antt =====
-- What a result that is read back says of its task.
use django_absurd.Prelude.{
  ℕ, String, ◌≡◌, refl, ◌≢◌, Bool, true, false, Option, none, some, List, Dict, [], ◌∷◌, arith,
  eq_iff, ◌==◌, ◌<>◌, if◌then◌else◌, ◌↔◌, Bool-cases, inl, inr, subst,
}
use django_absurd.Prelude.Dicts
use django_absurd.Prelude.Texts.{ends_with, has_code, rsplit-colon}
use django_absurd.Effect.{Result, ok, bind_result-eq-ok, ok-injective}
use django_absurd.Json.{Json}
use django_absurd.Task.{Task}
use django_absurd.Backend.{Backend, TaskResult, successful, failed}
use django_absurd.Backend.Enqueue.{Services, ready_result}
use django_absurd.Deferred.{Imported, defer_name_suffix}
use django_absurd.Backend.Results.{
  TaskRow, RunRow, decode_result_id, map_state_to_status, errors_of, status_of, build_task_result,
  call_of, task_of, run_field,
}

-- An id decodes to its queue and its task, also where the queue's name holds
-- a colon; the task's id holds none.
decode_result_id-format :
    (queue task_id : String)
    → has_code b':' task_id ≡ false
    → decode_result_id (queue <> ":" <> task_id) ≡ ok (queue, task_id)
unfolding decode_result_id
decode_result_id-format queue task_id h = rw (rsplit-colon queue task_id h, decode_result_id) refl

-- `get_result` takes the id of an enqueue's result apart into the queue and the task of that result,
-- also where the queue's name holds a colon. The id that Absurd gives a task has to hold none.
pub ready_result-decodes :
    {W : Type 0} (services : Services W) (backend : Backend) (task : Task) (args : List Json)
    (kwargs : Dict Json) (task_id : String) (moment : ℕ)
    → has_code b':' task_id ≡ false
    → decode_result_id (ready_result services backend task args kwargs task_id moment).id
      ≡ ok (task.queue_name, task_id)
unfolding ready_result
ready_result-decodes services backend task args kwargs task_id moment h =
    decode_result_id-format task.queue_name task_id h

map_state_to_status-completed :
    (state : String) → (map_state_to_status state ≡ successful) ↔ ((state == "completed") ≡ true)
unfolding map_state_to_status Dicts.get
map_state_to_status-completed state = (
  λ h. ground (
    arith,
    eq_iff "pending" state,
    eq_iff "running" state,
    eq_iff "sleeping" state,
    eq_iff "completed" state,
    eq_iff "failed" state,
    eq_iff "cancelled" state,
    eq_iff state "completed",
  ),
  λ h. rw ((eq_iff state "completed").0 h),
)

status_of-completed :
    (wrapper : Bool) (state : String)
    → (status_of wrapper state ≡ successful) ↔ ((state == "completed") ≡ true)
unfolding status_of map_state_to_status Dicts.get
status_of-completed false state = map_state_to_status-completed state
status_of-completed true state = (
  λ h. ground (arith, (map_state_to_status-completed state).0),
  λ h. rw ((eq_iff state "completed").0 h),
)

errors_of-ne-nil :
    (state : String) (reason : Option (Dict Json)) → errors_of state reason ≢ [] → state ≡ "failed"
unfolding errors_of
errors_of-ne-nil state none h = absurd (h refl)
errors_of-ne-nil state (some []) h = absurd (h refl)
errors_of-ne-nil state (some (x ∷ more)) h = elim (Bool-cases (state == "failed")) [
  | inl same ↦ (eq_iff state "failed").0 same
  | inr other ↦ absurd (h (rw other))
]

status_of_failed : (wrapper : Bool) → status_of wrapper "failed" ≡ failed
unfolding status_of map_state_to_status Dicts.get
status_of_failed true = refl
status_of_failed false = refl

-- A result that agrees with its task's row.
abbrev pub IsConsistent : TaskRow → TaskResult → Type 0
IsConsistent row result =
    ((result.status ≡ successful) ↔ ((row.state == "completed") ≡ true))
    × (result.return_value
        ≡ (if row.state == "completed" then some row.completed_payload else none))
    × (result.errors ≢ [] → result.status ≡ failed)
    × (ends_with defer_name_suffix row.task_name ≡ true
        → (result.started_at ≡ none) × (result.last_attempted_at ≡ none))

-- A result that is read back has the status `successful` exactly if the task completed, and only
-- then a return value, the task's payload; it has errors only if its status is `failed`; and of a
-- wrapper it says that nothing of the caller's task has started.
pub build_task_result-IsConsistent :
    (import_string : String → Result Imported) (validate : Task → Result (Unit {0}))
    (backend : Backend) (result_id : String) (row : TaskRow) (run : Option RunRow)
    (worker_ids : List String) {result : TaskResult}
    → build_task_result import_string validate backend result_id row run worker_ids ≡ ok result
    → IsConsistent row result
unfolding build_task_result
build_task_result-IsConsistent import_string validate backend result_id row run worker_ids h =
    let wrapper = ends_with defer_name_suffix row.task_name in
    let (id, _, h₁) = bind_result-eq-ok (decode_result_id result_id) _ h in
    let (call, _, h₂) = bind_result-eq-ok (call_of wrapper row.params) _ h₁ in
    let (task, _, h₃) = bind_result-eq-ok (task_of import_string validate backend id.0 _) _ h₂ in
    subst (IsConsistent row) (ok-injective h₃) (
      status_of-completed wrapper row.state,
      refl,
      λ e.
          rw (errors_of-ne-nil row.state (run_field (λ r. r.failure_reason) run) e)
            (status_of_failed wrapper),
      λ w. (rw w, rw w),
    )
