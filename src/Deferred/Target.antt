-- ===== src/Deferred/Target.antt =====
-- The task that `enqueue_deferred_target` enqueues, where Django accepts every task that is rebuilt.
use django_absurd.Prelude.{
  String, ◌≡◌, refl, ◌∙◌, ap₂, false, Option, some, ◌==◌, or_else, arith, eq_iff, Bool-cases, inl,
  inr,
}
use django_absurd.Prelude.Dicts
use django_absurd.Effect.{ok}
use django_absurd.Json.{Json}
use django_absurd.Task.{
  SpawnKwargs, Task, TaskClass, django_task, absurd_task, fold_class, post_init, using,
  using_fields, field_of, carried, build_merged_spawn_options,
}
use django_absurd.Task.Merge.{field_of-fold_params}
use django_absurd.Params.{bind_task, own_layer, bind, kwargs_of}
use django_absurd.Params.Laws.{bind_task-carries}
use django_absurd.Deferred.{Runtime, Call, on_queue, prepare_target, imported_task, is_empty}
use django_absurd.Deferred.Options.{IsSpawnKwargs, absurd_params-keywords_of}

-- What a task was given at its definition and by later binds, its own params first.
abbrev pub defined_field : String → Task → Option Json
defined_field k task = or_else (field_of k (own_layer task.class)) (field_of k task.func_params)

-- Two tasks that run the same function alike, but for where they go.
pub record SameCall (a b : Task) : Type 0 where
  pub path : a.module_path ≡ b.module_path
  pub when : a.run_after ≡ b.run_after
  pub defined : (k : String) → defined_field k a ≡ defined_field k b

defined_fold :
    (k : String) (defaults : Option SpawnKwargs) (c : TaskClass)
    → or_else (field_of k (own_layer (fold_class defaults c))) (field_of k defaults)
      ≡ or_else (field_of k (own_layer c)) (field_of k defaults)
unfolding fold_class
defined_fold k defaults django_task = refl
defined_fold k defaults (absurd_task own) = ground (arith, field_of-fold_params k defaults own)

module _ {W : Type 0} (runtime : Runtime W)
    (accepts : (task : Task) → runtime.validate task ≡ ok tt) where
  on_queue-ok :
      (queue : String) (task : Task)
      → (moved : Task) × (on_queue runtime queue task ≡ ok moved)
        × (moved.queue_name ≡ queue)
        × SameCall moved task
  unfolding on_queue using using_fields post_init
  on_queue-ok queue task = elim (Bool-cases (task.queue_name == queue)) [
    | inl same ↦ (
      task,
      rw same,
      (eq_iff task.queue_name queue).0 same,
      record { path = refl; when = refl; defined = λ k. refl },
    )
    | inr other ↦ (
      record task { queue_name = queue; class = fold_class task.func_params task.class },
      rw (other, accepts _),
      refl,
      record {
        path = refl;
        when = refl;
        defined = λ k. defined_fold k task.func_params task.class;
      },
    )
  ]

  bind_task-ok :
      (kwargs : SpawnKwargs) (task : Task)
      → (bound : Task) × (bind_task runtime.validate kwargs task ≡ ok bound)
        × (bound.queue_name ≡ task.queue_name)
        × (bound.module_path ≡ task.module_path)
        × (bound.run_after ≡ task.run_after)
  unfolding bind_task post_init
  bind_task-ok kwargs task = (
    record task {
      class =
          fold_class task.func_params
            (absurd_task (some (build_merged_spawn_options (own_layer task.class) (some kwargs))));
    },
    rw (accepts _),
    refl,
    refl,
    refl,
  )

  -- The target is found, moved to the caller's queue and bound to the caller's options, which win
  -- over what it was defined with.
  pub prepare_target-ok :
      (path : String) (call : Call) (target : Task)
      → runtime.import_string path ≡ ok (imported_task target)
      → IsSpawnKwargs call.options
      → is_empty call.options ≡ false
      → (bound : Task) × (prepare_target runtime path call ≡ ok bound)
        × (bound.queue_name ≡ call.queue)
        × (bound.module_path ≡ target.module_path)
        × (bound.run_after ≡ target.run_after)
        × ((k : String)
            → field_of k (carried bound.func_params bound.class)
              ≡ or_else (Dicts.get k call.options) (defined_field k target))
  unfolding prepare_target
  prepare_target-ok path call target found only filled =
      let (moved, e, queue, same) = on_queue-ok call.queue target in
      let (params, p, fields) = absurd_params-keywords_of call.options only in
      let (bound, b, q, m, w) = bind_task-ok (kwargs_of params) moved in
      (
        bound,
        rw (found, e, filled, p) (unfold bind in b),
        q ∙ queue,
        m ∙ same.path,
        w ∙ same.when,
        λ k.
            bind_task-carries runtime.validate (kwargs_of params) moved bound k b
            ∙ ap₂ or_else (fields k) (same.defined k),
      )
