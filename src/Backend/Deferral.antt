-- ===== src/Backend/Deferral.antt =====
-- A deferred enqueue and its wrapper: what the wrapper carries, and that running it makes the request
-- that the caller's enqueue would have made at once.
use django_absurd.Prelude.{
  String, ◌≡◌, refl, ◌∙◌, ap, false, Option, none, some, List, [], ◌∷◌, Dict, ◌==◌, or_else,
  if◌then◌else◌, arith, SameDict,
}
use django_absurd.Prelude.Dicts
use django_absurd.Prelude.Dicts.{get-setdefault}
use django_absurd.Effect.{ok, bind_result}
use django_absurd.Json.{Json, object, array, list_of-items_of, dict_of-fields_of}
use django_absurd.Task.{
  Moment, Task, SpawnKwargs, absurd_task, fold_params, field_of, carried,
  build_merged_spawn_options,
}
use django_absurd.Task.Merge.{get-build_merged_spawn_options, field_of-fold_params}
use django_absurd.Backend.{Backend}
use django_absurd.Deferred.Target.{prepare_target-ok, defined_field}
use django_absurd.Deferred.Options.{IsSpawnKwargs}
use django_absurd.Deferred.{is_empty, Runtime, imported_task, Call, read_call, prepare_target}
use django_absurd.Backend.Enqueue.{Services, Request, build_request, spawn_options, wrapper_spec}

module _ {W : Type 0} (services : Services W) where
  -- The handler reads back the call that the wrapper was given, whatever its arguments are.
  pub read_call-wrapper_spec :
      (task : Task) (args : List Json) (kwargs : Dict Json) (merged : SpawnKwargs) (moment : Moment)
      → read_call (wrapper_spec services task args kwargs merged moment)
        ≡ ok (record { args = args; kwargs = kwargs; queue = task.queue_name; options = merged })
  unfolding read_call wrapper_spec Dicts.get
  read_call-wrapper_spec task args kwargs merged moment = simp (list_of-items_of, dict_of-fields_of)

  get-spawn_options :
      (backend : Backend) (task : Task) (k : String)
      → Dicts.get k (spawn_options services backend task)
        ≡ or_else
            (field_of k (carried task.func_params task.class))
            (if "max_attempts" == k then some backend.default_max_attempts else none)
  unfolding spawn_options
  get-spawn_options backend task k = ground (
    arith,
    get-setdefault "max_attempts" k backend.default_max_attempts
        (build_merged_spawn_options (carried task.func_params task.class) none),
    get-build_merged_spawn_options k (carried task.func_params task.class) none,
  )

-- `target` is what `import_string` finds for the path of `task`: the same function, as its decorator
-- left it.
pub record IsTarget (target task : Task) : Type 0 where
  pub path : target.module_path ≡ task.module_path
  pub func : target.func_params ≡ task.func_params
  pub immediate : target.run_after ≡ none
  pub as_defined : target.class ≡ absurd_task (fold_params target.func_params none)

-- `task` is an `AbsurdTask` as `__post_init__` left it.
abbrev pub IsAbsurdTask : Task → Option SpawnKwargs → Type 0
IsAbsurdTask task own = task.class ≡ absurd_task (fold_params task.func_params own)

module _ {W : Type 0} (services : Services W) where
  abbrev now_request : Backend → Task → List Json → Dict Json → Request
  now_request backend task args kwargs =
      build_request services backend (record task { run_after = none }) args kwargs

  setdefault_filled :
      (k : String) (v : Json) (d : SpawnKwargs) → is_empty (Dicts.setdefault k v d) ≡ false
  unfolding Dicts.setdefault Dicts.put Dicts.get
  setdefault_filled k v [] = refl
  setdefault_filled k v (x ∷ d) = ground arith

  options_filled :
      (backend : Backend) (task : Task) → is_empty (spawn_options services backend task) ≡ false
  unfolding spawn_options
  options_filled backend task = setdefault_filled _ _ _

  build_request-immediate :
      (backend : Backend) (task : Task) (args : List Json) (kwargs : Dict Json)
      → task.run_after ≡ none
      → build_request services backend task args kwargs ≡ record {
        name = task.module_path;
        params = object (("args", array args) ∷ ("kwargs", object kwargs) ∷ []);
        queue = task.queue_name;
        options = spawn_options services backend task;
      }
  unfolding build_request
  build_request-immediate backend task args kwargs e = ground arith

  pub get-spawn_options_of_absurd :
      (backend : Backend) (task : Task) (own : Option SpawnKwargs) (k : String)
      → IsAbsurdTask task own
      → Dicts.get k (spawn_options services backend task)
        ≡ or_else
            (or_else (field_of k own) (field_of k task.func_params))
            (if "max_attempts" == k then some backend.default_max_attempts else none)
  get-spawn_options_of_absurd backend task own k built = rw (
    get-spawn_options services backend task k,
    built,
    field_of-fold_params k task.func_params own,
  )

  defined_field-IsTarget :
      (target task : Task) (k : String)
      → IsTarget target task
      → defined_field k target ≡ field_of k task.func_params
  defined_field-IsTarget target task k is =
      rw (is.as_defined, is.func) (ground (arith, field_of-fold_params k task.func_params none))

  -- A task that is bound to the options of another, over what both were defined with, has those.
  bound_options :
      (backend : Backend) (task bound : Task) (own : Option SpawnKwargs) (k : String)
      → IsAbsurdTask task own
      → field_of k (carried bound.func_params bound.class)
        ≡ or_else (Dicts.get k (spawn_options services backend task)) (field_of k task.func_params)
      → Dicts.get k (spawn_options services backend bound)
        ≡ Dicts.get k (spawn_options services backend task)
  bound_options backend task bound own k built e = ground (
    arith,
    get-spawn_options services backend bound k,
    get-spawn_options_of_absurd backend task own k built,
  )

  -- The wrapper of this enqueue prepares a task whose request is the one of an enqueue at once.
  abbrev pub SpawnsAlike : Runtime W → Backend → Task → Moment → List Json → Dict Json → Type 0
  SpawnsAlike runtime backend task moment args kwargs =
      (bound : Task) × (bind_result
          (read_call
            (wrapper_spec services task args kwargs (spawn_options services backend task) moment))
          (prepare_target runtime task.module_path)
        ≡ ok bound)
      × ((build_request services backend bound args kwargs).name
          ≡ (now_request backend task args kwargs).name)
      × ((build_request services backend bound args kwargs).params
          ≡ (now_request backend task args kwargs).params)
      × ((build_request services backend bound args kwargs).queue
          ≡ (now_request backend task args kwargs).queue)
      × SameDict (build_request services backend bound args kwargs).options
          (now_request backend task args kwargs).options

  -- Running the wrapper of a deferred enqueue prepares a task whose enqueue makes the request that
  -- the caller's enqueue would have made at once: the same name, arguments and queue, and the same
  -- value of every option. Django has to accept the rebuilt task, and the path has to import as the
  -- caller's task; the task's params may only have the five fields.
  pub deferred_request :
      (runtime : Runtime W) (backend : Backend) (task target : Task) (own : Option SpawnKwargs)
      (moment : Moment) (args : List Json) (kwargs : Dict Json)
      → ((t : Task) → runtime.validate t ≡ ok tt)
      → runtime.import_string task.module_path ≡ ok (imported_task target)
      → IsTarget target task
      → IsAbsurdTask task own
      → IsSpawnKwargs (spawn_options services backend task)
      → SpawnsAlike runtime backend task moment args kwargs
  unfolding build_request spawn_options
  deferred_request runtime backend task target own moment args kwargs accepts found is built only =
      let call : Call = record {
        args = args;
        kwargs = kwargs;
        queue = task.queue_name;
        options = spawn_options services backend task;
      } in
      let (bound, e, queue, path, when, fields) =
        prepare_target-ok runtime accepts task.module_path call target found only
          (options_filled backend task) in
      (
        bound,
        rw
            (read_call-wrapper_spec services task args kwargs (spawn_options services backend task)
              moment)
            e,
        ap (λ r. r.name) (at_once bound when) ∙ path ∙ is.path,
        ap (λ r. r.params) (at_once bound when),
        ap (λ r. r.queue) (at_once bound when) ∙ queue,
        λ k.
            ap (λ r. Dicts.get k r.options) (at_once bound when)
            ∙ bound_options backend task bound own k built (
                fields k
                ∙ ap (or_else (Dicts.get k (spawn_options services backend task)))
                    (defined_field-IsTarget target task k is)),
      )
    where
      at_once :
          (bound : Task)
          → bound.run_after ≡ target.run_after
          → build_request services backend bound args kwargs ≡ record {
            name = bound.module_path;
            params = object (("args", array args) ∷ ("kwargs", object kwargs) ∷ []);
            queue = bound.queue_name;
            options = spawn_options services backend bound;
          }
      at_once bound when = build_request-immediate backend bound args kwargs (when ∙ is.immediate)
