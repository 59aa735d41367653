-- ===== src/Tests/Backends.antt =====
-- Tests of backends.py and deferred.py.
use django_absurd.Prelude.{
  String, ◌≡◌, refl, true, false, none, some, [], ◌∷◌, ◌&&◌, ◌||◌, leb, nat_beq, arith, contains,
}
use django_absurd.Prelude.Dicts
use django_absurd.Prelude.Texts.{has_code, rsplit, ends_with}
use django_absurd.Effect.{ok, pure}
use django_absurd.Exceptions.{undefined_table, queue_not_provisioned}
use django_absurd.Json.{number, object, array}
use django_absurd.Task.{Task, absurd_task, aware, fold_params, build_merged_spawn_options}
use django_absurd.Backend.{Backend, TaskResult, successful, get_declared_queues}
use django_absurd.Backend.Enqueue.{Services, ready_result, classify_spawn_error, spawn_options}
use django_absurd.Backend.Deferral.{deferred_request, SpawnsAlike}
use django_absurd.Backend.Results.{
  TaskRow, decode_result_id, build_task_result, call_of, task_of, status_of, errors_of,
  map_state_to_status,
}
use django_absurd.Backend.Results.Laws.{
  ready_result-decodes, build_task_result-IsConsistent, IsConsistent,
}
use django_absurd.Deferred.{Runtime, imported_task}
use django_absurd.Queues.Tables.{names_a_queue_table, finds_word, matches_word}
use django_absurd.Tests.Tasks.{accept}
use django_absurd.Prelude.{or_else}
use django_absurd.Task.{field_of}
use django_absurd.PgCron.Reconcile.{scheduled_options}
use django_absurd.PgCron.Reconcile.Options.{spawn_options-scheduled_options}

abbrev services : Services (Unit {0})
services = record {
  connections = record { ensure_connection = λ _. pure tt; is_psycopg = λ _. pure true };
  validate_task = λ _ _. pure tt;
  atomic = λ m. m;
  spawn = λ _. pure "5";
  now = pure 100;
  send_enqueued = λ _. pure tt;
  log_exception = λ _. pure tt;
  local_to_utc = λ n. n;
  isoformat = λ _. "2026-01-01T00:00:00+00:00";
  str_of = λ _. "key";
  is_word = λ c. (leb b'a' c && leb c b'z') || nat_beq c b'_';
}

abbrev backend : Backend
backend = record {
  alias = "default";
  options = ("QUEUES", object (("reports", object []) ∷ [])) ∷ [];
  queues = "reports" ∷ [];
  database = "default";
  default_max_attempts = number 5;
}

abbrev pub report : Task
report = record {
  module_path = "app.report";
  queue_name = "reports";
  backend = "default";
  run_after = some (aware 1000);
  takes_context = false;
  func_params = none;
  class = absurd_task (fold_params none none);
}

abbrev report_as_defined : Task
report_as_defined = record report { queue_name = "default"; run_after = none }

abbrev runtime : Runtime (Unit {0})
runtime = record {
  import_string = λ _. ok (imported_task report_as_defined);
  validate = accept;
  enqueue_task = λ _ _ _. pure "reports:6";
  close_old_connections = pure tt;
  fromisoformat = λ _. ok 1000;
  sleep_until = λ _ _. pure tt;
  step = λ _ m. m;
}

only_fields :
    (k : String)
    → contains
        ("max_attempts" ∷ "retry_strategy" ∷ "cancellation" ∷ "headers" ∷ "idempotency_key" ∷ [])
        k
      ≡ false
    → Dicts.get k (spawn_options services backend report) ≡ none
unfolding spawn_options build_merged_spawn_options fold_params Dicts.setdefault Dicts.put Dicts.get
only_fields k h = ground arith

deferred_request_example :
    SpawnsAlike services runtime backend report (aware 1000) (number 1 ∷ []) []
deferred_request_example =
    deferred_request services runtime backend report report_as_defined none (aware 1000)
      (number 1 ∷ []) [] (λ _. refl) refl
      (record { path = refl; func = refl; immediate = refl; as_defined = refl }) refl only_fields

ready_result-decodes_example :
    decode_result_id (ready_result services backend report [] [] "5" 100).id ≡ ok ("reports", "5")
unfolding has_code
ready_result-decodes_example = ready_result-decodes services backend report [] [] "5" 100 refl

abbrev finished_row : TaskRow
finished_row = record {
  task_name = "app.report";
  params = ("args", array []) ∷ ("kwargs", object []) ∷ [];
  enqueue_at = 90;
  first_started_at = some 95;
  state = "completed";
  completed_payload = number 8;
  cancelled_at = none;
  last_attempt_run = none;
}

abbrev finished_result : TaskResult
finished_result = record {
  task = report_as_defined;
  id = "default:5";
  status = successful;
  enqueued_at = some 90;
  started_at = some 95;
  finished_at = none;
  last_attempted_at = none;
  args = [];
  kwargs = [];
  backend = "default";
  errors = [];
  worker_ids = [];
  return_value = some (number 8);
}

read_back :
    build_task_result runtime.import_string accept backend "default:5" finished_row none []
    ≡ ok finished_result
unfolding build_task_result decode_result_id call_of task_of status_of errors_of map_state_to_status
    rsplit ends_with Dicts.get
read_back = refl

build_task_result-IsConsistent_example : IsConsistent finished_row finished_result
build_task_result-IsConsistent_example =
    build_task_result-IsConsistent runtime.import_string accept backend "default:5" finished_row
      none [] {result = finished_result} read_back

lost_table :
    classify_spawn_error services backend "reports"
      (undefined_table "relation \"absurd.t_reports\" does not exist")
    ≡ queue_not_provisioned "reports"
unfolding classify_spawn_error names_a_queue_table finds_word matches_word Dicts.get
    get_declared_queues
lost_table = refl

other_table :
    classify_spawn_error services backend "reports"
      (undefined_table "relation \"audit_reports\" does not exist")
    ≡ undefined_table "relation \"audit_reports\" does not exist"
unfolding classify_spawn_error names_a_queue_table finds_word matches_word Dicts.get
    get_declared_queues
other_table = refl

-- A task whose params were bound to it after its decorator's.
abbrev bound_report : Task
bound_report = record report {
  func_params = some (("max_attempts", number 2) ∷ []);
  class = absurd_task (
      fold_params (some (("max_attempts", number 2) ∷ []))
        (some (("max_attempts", number 9) ∷ [])));
}

spawn_options-scheduled_options_example :
    Dicts.get "max_attempts" (spawn_options services backend bound_report)
    ≡ or_else
        (field_of "max_attempts" (some (("max_attempts", number 9) ∷ [])))
        (Dicts.get "max_attempts" (scheduled_options backend bound_report))
spawn_options-scheduled_options_example =
    spawn_options-scheduled_options services backend bound_report
      (some (("max_attempts", number 9) ∷ [])) "max_attempts" refl
