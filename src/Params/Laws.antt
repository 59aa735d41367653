-- ===== src/Params/Laws.antt =====
-- What `absurd_params` accepts, what its result carries, and which layer a bind gives way to.
use django_absurd.Prelude.{
  String, ◌≡◌, refl, Bool, true, false, ◌||◌, Option, none, some, List, [], ◌∷◌, or_else, arith,
  is_some, if◌then◌else◌, ◌==◌, eq_iff, Bool-cases, inl, inr, or_else-none, subst,
}
use django_absurd.Prelude.Dicts
use django_absurd.Effect.{Result, ok}
use django_absurd.Json.{Json}
use django_absurd.Task.{
  SpawnKwargs, Task, build_merged_spawn_options, fold_class, field_of, carried,
}
use django_absurd.Task.Merge.{get-build_merged_spawn_options, field_of-fold_params, post_init-eq-ok}
use django_absurd.Params.{
  Keywords, Params, absurd_params_of, per_call_params, absurd_params, kwargs_of, values_of,
  bind_task, set_values, own_layer,
}

-- The value that a call gives to a field.
abbrev pub given_field : String → Keywords → Option Json
given_field k given =
    if "max_attempts" == k
    then given.max_attempts
    else if "retry_strategy" == k
    then given.retry_strategy
    else if "cancellation" == k
    then given.cancellation
    else if "headers" == k
    then given.headers
    else if "idempotency_key" == k
    then given.idempotency_key
    else none

get-set_values_cons :
    (k j : String) (o : Option Json) (values : List (String × Option Json))
    → Dicts.get k (set_values ((j, o) ∷ values))
      ≡ or_else (Dicts.get k (set_values values)) (if j == k then o else none)
unfolding set_values Dicts.get
get-set_values_cons k j none values = ground arith
get-set_values_cons k j (some v) values = refl

get-set_values_nil : (k : String) → Dicts.get k (set_values []) ≡ none
unfolding set_values Dicts.get
get-set_values_nil k = refl

ruleset value_laws = (get-set_values_cons, get-set_values_nil, or_else-none)

module _ (given : Keywords) where
  abbrev Holds : String → Type 0
  Holds k = Dicts.get k (set_values (values_of given)) ≡ given_field k given

  -- Each name that is no field has no value; each field has the one that was given.
  get-values_of : (k : String) → Holds k
  get-values_of k = elim (Bool-cases ("max_attempts" == k)) [
    | inl e ↦ subst Holds ((eq_iff "max_attempts" k).0 e) (simp value_laws)
    | inr a ↦ elim (Bool-cases ("retry_strategy" == k)) [
      | inl e ↦ subst Holds ((eq_iff "retry_strategy" k).0 e) (simp value_laws)
      | inr b ↦ elim (Bool-cases ("cancellation" == k)) [
        | inl e ↦ subst Holds ((eq_iff "cancellation" k).0 e) (simp value_laws)
        | inr c ↦ elim (Bool-cases ("headers" == k)) [
          | inl e ↦ subst Holds ((eq_iff "headers" k).0 e) (simp value_laws)
          | inr d ↦ elim (Bool-cases ("idempotency_key" == k)) [
            | inl e ↦ subst Holds ((eq_iff "idempotency_key" k).0 e) (simp value_laws)
            | inr e ↦ simp (value_laws, a, b, c, d, e)
          ]
        ]
      ]
    ]
  ]

abbrev pub is_per_call : Params → Bool
is_per_call (absurd_params_of _) = false
is_per_call (per_call_params _) = true

-- Without an unsupported keyword the call succeeds; its params hold exactly the fields that were
-- set, and they are per-invocation params exactly if `headers` or `idempotency_key` was set.
pub absurd_params-fields :
    (given : Keywords)
    → given.unsupported ≡ []
    → (params : Params) × (absurd_params given ≡ ok params)
      × ((k : String) → Dicts.get k (kwargs_of params) ≡ given_field k given)
      × (is_per_call params ≡ is_some given.headers || is_some given.idempotency_key)
unfolding absurd_params
absurd_params-fields given e =
    elim (Bool-cases (is_some given.headers || is_some given.idempotency_key)) [
      | inl per_call ↦ (
        per_call_params (set_values (values_of given)),
        rw (e, per_call),
        get-values_of given,
        rw per_call,
      )
      | inr plain ↦ (
        absurd_params_of (set_values (values_of given)),
        rw (e, plain),
        get-values_of given,
        rw plain,
      )
    ]

-- At every field a bind wins over what the task carried before, and that over the function's params.
pub bind_task-carries :
    (validate : Task → Result (Unit {0})) (kwargs : SpawnKwargs) (task bound : Task) (k : String)
    → bind_task validate kwargs task ≡ ok bound
    → field_of k (carried bound.func_params bound.class)
      ≡ or_else
          (Dicts.get k kwargs)
          (or_else (field_of k (own_layer task.class)) (field_of k task.func_params))
unfolding bind_task
bind_task-carries validate kwargs task bound k e = rw (post_init-eq-ok validate _ e) (
    unfold fold_class in
    ground (
      arith,
      field_of-fold_params k task.func_params
          (some (build_merged_spawn_options (own_layer task.class) (some kwargs))),
      get-build_merged_spawn_options k (own_layer task.class) (some kwargs),
    ))
