-- ===== src/Checks/Entries.antt =====
-- An entry of a SCHEDULE that the checks accept is one that `schedule_of` reads.
use django_absurd.Prelude.{
  String, ◌≡◌, ◌≢◌, refl, ap, false, Option, none, some, List, [], ◌∷◌, ◌++◌, Dict, ◌==◌,
  if◌then◌else◌, with_default,
}
use django_absurd.Prelude.{Bool-cases, inl, inr}
use django_absurd.Exceptions.{is_exception, not_exception, cancelled_error}
use django_absurd.Json.{flag, number, opaque_value}
use django_absurd.Deferred.{imported_value}
use django_absurd.Prelude.Dicts
use django_absurd.Checks.{e007_value}
use django_absurd.Json.{list_of, dict_of}
use django_absurd.Exceptions.{bad_shape}
use django_absurd.Scheduler.Entries.{text_item, queue_item, list_item, dict_item}
use django_absurd.Effect.{Result, ok, raised, bind_result, ok-injective}
use django_absurd.Json.{Json, null, text, arr, obj, as_dict, as_list}
use django_absurd.Task.{Task}
use django_absurd.Deferred.{Imported, imported_task}
use django_absurd.Scheduler.{Schedule}
use django_absurd.Scheduler.Entries.{schedule_of}
use django_absurd.Validators.{
  validate_task_path, validate_imported, validate_args_is_list, validate_kwargs_is_dict,
  validate_serializable,
}
use django_absurd.Checks.{
  CheckMessage, SchedulerKind, beat, pg_cron, Tools, reported, cron_errors, value_errors,
  queue_errors, key_errors, validate_spec, is_valid_beat_cron, e007_task,
}

pub append-eq-nil {ℓ} : {A : Type ℓ} (xs ys : List A) → xs ++ ys ≡ [] → (xs ≡ []) × (ys ≡ [])
append-eq-nil [] ys h = (refl, h)
append-eq-nil (x ∷ xs) ys h = cc

-- Both parts of a check that reports nothing report nothing.
pub and_also-eq-nil :
    (m n : Result (List CheckMessage))
    → bind_result m (λ errors. bind_result n (λ more. ok (errors ++ more))) ≡ ok []
    → (m ≡ ok []) × (n ≡ ok [])
and_also-eq-nil (ok xs) (ok ys) h =
    let (a, b) = append-eq-nil xs ys (ok-injective h) in (ap ok a, ap ok b)
and_also-eq-nil (ok xs) (raised e) h = cc
and_also-eq-nil (raised e) n h = cc

pub some-injective {ℓ} : {A : Type ℓ} {a b : A} → some a ≡ some b → a ≡ b
some-injective h = cc

module _ (tools : Tools) where
  -- What the checks rely on of Python and croniter: the empty text is no task, no cron, and blank.
  pub record RefusesEmpty : Type 0 where
    pub no_task : (task : Task) → tools.import_string "" ≢ ok (imported_task task)
    pub no_cron : tools.is_valid_cron "" ≡ false
    pub blank : tools.strip "" ≡ ""

  nothing_reported :
      (message : String → CheckMessage) (r : Result Imported)
      → reported tools message (validate_imported r) ≡ ok []
      → (task : Task) × (r ≡ ok (imported_task task))
  unfolding reported
  nothing_reported message (ok (imported_task task)) h = (task, refl)
  nothing_reported message (ok imported_value) h = cc
  nothing_reported message (raised e) h = elim (Bool-cases (is_exception e)) [
    | inl is ↦ absurd (some_reported (rw is at h))
    | inr isnt ↦ absurd (none_reported (rw (isnt, not_exception e isnt) at h))
  ]
    where
      some_reported : ok (message "task_import" ∷ []) ≢ ok []
      some_reported h = cc

      none_reported : ◌≢◌ {A = Result (List CheckMessage)} (raised cancelled_error) (ok [])
      none_reported h = cc

  task_is_text :
      RefusesEmpty
      → (name : String) (o : Option Json)
      → reported tools
          (e007_task name)
          (validate_task_path tools.import_string (with_default (text "") o))
        ≡ ok []
      → (s : String) × (o ≡ some (text s))
  unfolding reported validate_task_path
  task_is_text refuses name none h =
      let (task, e) = nothing_reported (e007_task name) (tools.import_string "") h in
      absurd (refuses.no_task task e)
  task_is_text refuses name (some (text s)) h = (s, refl)
  task_is_text refuses name (some null) h = cc
  task_is_text refuses name (some (flag _)) h = cc
  task_is_text refuses name (some (number _)) h = cc
  task_is_text refuses name (some (opaque_value _)) h = cc
  task_is_text refuses name (some (arr _)) h = cc
  task_is_text refuses name (some (obj _)) h = cc

  -- A cron that no scheduler reports is a text.
  cron_is_text :
      RefusesEmpty
      → (name : String) (scheduler : SchedulerKind) (o : Option Json)
      → cron_errors tools name scheduler (with_default (text "") o) ≡ []
      → (s : String) × (o ≡ some (text s))
  unfolding cron_errors is_valid_beat_cron
  cron_is_text refuses name scheduler (some (text s)) h = (s, refl)
  cron_is_text refuses name beat none h = cc (rw refuses.no_cron at h)
  cron_is_text refuses name pg_cron none h = cc (rw refuses.blank at h)
  cron_is_text refuses name beat (some null) h = cc
  cron_is_text refuses name beat (some (flag _)) h = cc
  cron_is_text refuses name beat (some (number _)) h = cc
  cron_is_text refuses name beat (some (opaque_value _)) h = cc
  cron_is_text refuses name beat (some (arr _)) h = cc
  cron_is_text refuses name beat (some (obj _)) h = cc
  cron_is_text refuses name pg_cron (some null) h = cc
  cron_is_text refuses name pg_cron (some (flag _)) h = cc
  cron_is_text refuses name pg_cron (some (number _)) h = cc
  cron_is_text refuses name pg_cron (some (opaque_value _)) h = cc
  cron_is_text refuses name pg_cron (some (arr _)) h = cc
  cron_is_text refuses name pg_cron (some (obj _)) h = cc

  list_loads :
      (name : String) (spec : Dict Json)
      → value_errors tools name "args" validate_args_is_list spec ≡ ok []
      → Dicts.get "args" spec ≢ some null
      → (xs : List Json) × (list_item spec ≡ ok xs)
  unfolding value_errors reported validate_args_is_list
  list_loads name spec = by_value (Dicts.get "args" spec)
    where
      by_value :
          (o : Option Json)
          → let errors : Result (List CheckMessage) = elim o [
            | none ↦ ok []
            | some null ↦ ok []
            | some value ↦
                reported tools (λ _. e007_value name "args") (validate_args_is_list value)
          ] in
            let item : Result (List Json) = elim o [
              | none ↦ ok []
              | some value ↦ elim (as_list value) [ none ↦ raised bad_shape | some xs ↦ ok xs ]
            ] in
            errors ≡ ok [] → o ≢ some null → (xs : List Json) × (item ≡ ok xs)
      by_value none h filled = ([], refl)
      by_value (some null) h filled = absurd (filled refl)
      by_value (some (arr xs)) h filled = (list_of xs, refl)
      by_value (some (flag _)) h filled = cc
      by_value (some (number _)) h filled = cc
      by_value (some (opaque_value _)) h filled = cc
      by_value (some (text _)) h filled = cc
      by_value (some (obj _)) h filled = cc

  dict_loads :
      (name : String) (spec : Dict Json)
      → value_errors tools name "kwargs" validate_kwargs_is_dict spec ≡ ok []
      → Dicts.get "kwargs" spec ≢ some null
      → (d : Dict Json) × (dict_item spec ≡ ok d)
  unfolding value_errors reported validate_kwargs_is_dict
  dict_loads name spec = by_value (Dicts.get "kwargs" spec)
    where
      by_value :
          (o : Option Json)
          → let errors : Result (List CheckMessage) = elim o [
            | none ↦ ok []
            | some null ↦ ok []
            | some value ↦
                reported tools (λ _. e007_value name "kwargs") (validate_kwargs_is_dict value)
          ] in
            let item : Result (Dict Json) = elim o [
              | none ↦ ok []
              | some value ↦ elim (as_dict value) [ none ↦ raised bad_shape | some d ↦ ok d ]
            ] in
            errors ≡ ok [] → o ≢ some null → (d : Dict Json) × (item ≡ ok d)
      by_value none h filled = ([], refl)
      by_value (some null) h filled = absurd (filled refl)
      by_value (some (obj d)) h filled = (dict_of d, refl)
      by_value (some (flag _)) h filled = cc
      by_value (some (number _)) h filled = cc
      by_value (some (opaque_value _)) h filled = cc
      by_value (some (text _)) h filled = cc
      by_value (some (arr _)) h filled = cc

  queue_loads :
      (name : String) (declared_queues : List String) (spec : Dict Json)
      → queue_errors tools name declared_queues (Dicts.get "queue" spec) ≡ []
      → (queue : Option String) × (queue_item spec ≡ ok queue)
  unfolding queue_errors
  queue_loads name declared_queues spec = by_value (Dicts.get "queue" spec)
    where
      by_value :
          (o : Option Json)
          → let item : Result (Option String) = elim o [
            | none ↦ ok none
            | some null ↦ ok none
            | some (text s) ↦ ok (if s == "" then none else some s)
            | some _ ↦ raised bad_shape
          ] in
            queue_errors tools name declared_queues o ≡ []
            → (queue : Option String) × (item ≡ ok queue)
      by_value none h = (none, refl)
      by_value (some null) h = (none, refl)
      by_value (some (text s)) h = (if s == "" then none else some s, refl)
      by_value (some (flag _)) h = cc
      by_value (some (number _)) h = cc
      by_value (some (opaque_value _)) h = cc
      by_value (some (arr _)) h = cc
      by_value (some (obj _)) h = cc

  text_loads :
      (key : String) (spec : Dict Json) (s : String)
      → Dicts.get key spec ≡ some (text s)
      → text_item key spec ≡ ok s
  text_loads key spec s h = rw (h, text_item) refl

  pub spec_loads :
      RefusesEmpty
      → (alias name : String) (spec : Dict Json) (declared_queues : List String)
        (scheduler : SchedulerKind)
      → validate_spec tools name spec declared_queues scheduler ≡ ok []
      → Dicts.get "args" spec ≢ some null
      → Dicts.get "kwargs" spec ≢ some null
      → (s : Schedule) × (schedule_of alias name spec ≡ ok s) × (s.name ≡ name)
  unfolding validate_spec schedule_of
  spec_loads refuses alias name spec declared_queues scheduler h args_filled kwargs_filled =
      let (_, h₁) = and_also-eq-nil (ok (key_errors tools name spec)) _ h in
      let (task_ok, h₂) = and_also-eq-nil _ _ h₁ in
      let (cron_ok, h₃) = and_also-eq-nil _ _ h₂ in
      let (_, h₄) =
        and_also-eq-nil
          (value_errors tools name "args" (validate_serializable tools.is_serializable) spec) _
          h₃ in
      let (args_ok, h₅) = and_also-eq-nil _ _ h₄ in
      let (_, h₆) =
        and_also-eq-nil
          (value_errors tools name "kwargs" (validate_serializable tools.is_serializable) spec) _
          h₅ in
      let (kwargs_ok, queue_ok) = and_also-eq-nil _ _ h₆ in
      let (task, t) = task_is_text refuses name (Dicts.get "task" spec) task_ok in
      let (cron, c) =
        cron_is_text refuses name scheduler (Dicts.get "cron" spec) (ok-injective cron_ok) in
      let (queue, q) = queue_loads name declared_queues spec (ok-injective queue_ok) in
      let (args, a) = list_loads name spec args_ok args_filled in
      let (kwargs, k) = dict_loads name spec kwargs_ok kwargs_filled in
      (
        record {
          name = name;
          task = task;
          cron = cron;
          queue = queue;
          args = args;
          kwargs = kwargs;
          backend = alias;
        },
        rw (text_loads "task" spec task t, text_loads "cron" spec cron c, q, a, k) refl,
        refl,
      )
