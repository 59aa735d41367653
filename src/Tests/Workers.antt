-- ===== src/Tests/Workers.antt =====
-- Tests of worker.py.
use django_absurd.Prelude.{
  String, ◌≡◌, refl, true, false, none, some, List, [], ◌∷◌, ◌++◌, map, ◌<>◌, ◌==◌, if◌then◌else◌,
}
use django_absurd.Prelude.Texts.{has_code}
use django_absurd.Exceptions.{other, import_error}
use django_absurd.Effect.{Result, ok, raised, pure}
use django_absurd.Json.{null, text}
use django_absurd.Task.{Task, django_task}
use django_absurd.Backend.{Backend, Status, running, failed}
use django_absurd.Deferred.{Imported, imported_task, defer_name_suffix}
use django_absurd.Worker.Registry.{
  task_handler, deferred, get, get_all, resolve, IsCache-nil, get_all-eq-map, get_apart,
}
use django_absurd.Worker.Handler.{Claimed, Signal, task_started, task_finished, Host, handle}
use django_absurd.Worker.Handler.Signals.{Observed, handle_signals}

abbrev add : Task
add = record {
  module_path = "app.add";
  queue_name = "default";
  backend = "default";
  run_after = none;
  takes_context = true;
  func_params = none;
  class = django_task;
}

abbrev modules : String → Result Imported
modules path = if path == "app.add" then ok (imported_task add) else raised import_error

abbrev claims : List String
claims = "app.add" ∷ "app.add:run_after" ∷ "app.gone" ∷ "app.add" ∷ []

get_all-eq-map_example :
    get_all modules "default" claims [] ≡ map (resolve modules "default") claims
get_all-eq-map_example = get_all-eq-map modules "default" claims

get_apart_example :
    ((get modules "default" "app.add" []).0
      ≡ ok (some (record { name = "app.add"; queue = "default"; handler = task_handler add })))
    × ((get modules "default" ("app.add" <> defer_name_suffix) []).0
        ≡ ok (
            some (record {
              name = "app.add" <> defer_name_suffix;
              queue = "default";
              handler = deferred "app.add";
            })))
unfolding has_code
get_apart_example =
    get_apart modules "default" "app.add" add [] (IsCache-nil modules "default") refl refl

-- A host whose world is the signals sent; every function fails.
abbrev failing : Host (List (Signal × Status))
failing = record {
  validate = λ _. ok tt;
  now = λ _. 100;
  is_coroutine = λ _. false;
  func = λ _ _ _ _ w. (raised (other 7), w);
  close_old_connections = pure tt;
  normalize_json = λ v. ok v;
  task_error = λ _. record { exception_class_path = text "app.Broken"; traceback = text "" };
  send = λ s r w. (ok tt, w ++ (s, r.status) ∷ []);
  log_exception = λ _. pure tt;
}

failing_observed : Observed failing
failing_observed = record {
  sent = λ w. w;
  send_sent = λ s r w. refl;
  send_raises = λ s r w. cc;
  log_sent = λ e w. refl;
  log_ok = λ e w. refl;
  close_sent = λ w. refl;
  close_ok = λ w. refl;
  func_sent = λ t c args kwargs w. refl;
}

abbrev backend : Backend
backend = record {
  alias = "default";
  options = [];
  queues = "default" ∷ [];
  database = "default";
  default_max_attempts = null;
}

abbrev last_attempt : Claimed
last_attempt = record { task_id = "1"; attempt = 3; max_attempts = some 3 }

handle_signals_example :
    ((handle failing backend "default" add last_attempt [] [] []).0 ≡ raised (other 7))
    × ((handle failing backend "default" add last_attempt [] [] []).1
        ≡ (task_started, running) ∷ (task_finished, failed) ∷ [])
unfolding failing_observed
handle_signals_example =
    handle_signals failing failing_observed backend "default" add last_attempt [] [] []
      (raised (other 7)) (λ _. refl) (λ v. (v, refl)) (λ _ _. refl)
