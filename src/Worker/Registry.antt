-- ===== src/Worker/Registry.antt =====
-- `LazyTaskRegistry` of django_absurd/worker.py: tasks are resolved by their dotted path when they
-- are first claimed, and kept.
use django_absurd.Prelude.{
  String, ◌≡◌, refl, sym, ◌∙◌, ap₂, map, ◌<>◌, false, Option, none, some, List, [], ◌∷◌, Dict,
  arith, eq_iff, if◌then◌else◌, Bool-cases, Option-cases, inl, inr,
}
use django_absurd.Prelude.Dicts
use django_absurd.Prelude.Dicts.{get-put}
use django_absurd.Prelude.Texts.{
  ends_with, remove_suffix, has_code, has_code-of-suffix, ends_with-append, remove_suffix-append,
}
use django_absurd.Exceptions.{is_import_error}
use django_absurd.Effect.{Result, ok, raised}
use django_absurd.Task.{Task}
use django_absurd.Deferred.{defer_name_suffix, Imported, imported_task, imported_value}

-- `build_deferred_handler(target)` and `build_handler(task, …)`
pub data Handler : Type 0 where
  deferred : String → Handler
  task_handler : Task → Handler

-- An entry; its `default_max_attempts` and `default_cancellation` are always `None`.
pub record Entry : Type 0 where
  pub name : String
  pub queue : String
  pub handler : Handler

-- A text without a colon is no deferred enqueue's name.
no_suffix : (path : String) → has_code b':' path ≡ false → ends_with defer_name_suffix path ≡ false
unfolding has_code
no_suffix path h = elim (Bool-cases (ends_with defer_name_suffix path)) [
  | inl e ↦ cc (has_code-of-suffix b':' defer_name_suffix path refl e)
  | inr e ↦ e
]

-- A path that does not import, or that leads to something else, names no task.
task_or_none : Result Imported → Result (Option Task)
task_or_none (raised e) = if is_import_error e then ok none else raised e
task_or_none (ok imported_value) = ok none
task_or_none (ok (imported_task task)) = ok (some task)

module _ (import_string : String → Result Imported) (queue : String) where
  abbrev store : String → Handler → Dict Entry → Result (Option Entry) × Dict Entry
  store name handler registry =
      let entries =
        Dicts.put name (record { name = name; queue = queue; handler = handler }) registry in
      (ok (Dicts.get name entries), entries)

  -- `get(name)`, with the default `None`
  pub get : String → Dict Entry → Result (Option Entry) × Dict Entry
  get name registry =
      if Dicts.has_key name registry
      then (ok (Dicts.get name registry), registry)
      else if ends_with defer_name_suffix name
      then store name (deferred (remove_suffix defer_name_suffix name)) registry
      else elim (task_or_none (import_string name)) [
        | raised e ↦ (raised e, registry)
        | ok none ↦ (ok none, registry)
        | ok (some task) ↦ store name (task_handler task) registry
      ]

  -- What a name stands for, with nothing kept.
  pub resolve : String → Result (Option Entry)
  resolve name =
      if ends_with defer_name_suffix name
      then ok (
          some (record {
            name = name;
            queue = queue;
            handler = deferred (remove_suffix defer_name_suffix name);
          }))
      else elim (task_or_none (import_string name)) [
        | raised e ↦ raised e
        | ok none ↦ ok none
        | ok (some task) ↦
            ok (some (record { name = name; queue = queue; handler = task_handler task }))
      ]

  -- A registry that holds only what its names stand for.
  pub record IsCache (registry : Dict Entry) : Type 0 where
    pub sound :
        (name : String) (entry : Entry)
        → Dicts.get name registry ≡ some entry
        → resolve name ≡ ok (some entry)

  pub IsCache-nil : IsCache []
  unfolding Dicts.get
  IsCache-nil = record { sound = λ name entry e. cc }

  store-IsCache :
      (name : String) (handler : Handler) (registry : Dict Entry)
      → resolve name ≡ ok (some (record { name = name; queue = queue; handler = handler }))
      → IsCache registry
      → ((store name handler registry).0 ≡ resolve name) × IsCache (store name handler registry).1
  store-IsCache name handler registry e c = (
    ground (
      arith,
      get-put name name (record { name = name; queue = queue; handler = handler }) registry,
      eq_iff name name,
    ),
    record {
      sound = λ n entry h. ground (
        arith,
        get-put name n (record { name = name; queue = queue; handler = handler }) registry,
        eq_iff name n,
        c.sound n entry,
      );
    },
  )

  imported :
      (name : String) (registry : Dict Entry)
      → ends_with defer_name_suffix name ≡ false
      → IsCache registry
      → let looked : Result (Option Entry) × Dict Entry = elim (task_or_none (import_string name)) [
        | raised e ↦ (raised e, registry)
        | ok none ↦ (ok none, registry)
        | ok (some task) ↦ store name (task_handler task) registry
      ] in
        (looked.0 ≡ resolve name) × IsCache looked.1
  unfolding resolve
  imported name registry plain c = by_task (task_or_none (import_string name)) refl
    where
      by_task :
          (found : Result (Option Task))
          → task_or_none (import_string name) ≡ found
          → let looked : Result (Option Entry) × Dict Entry = elim found [
            | raised e ↦ (raised e, registry)
            | ok none ↦ (ok none, registry)
            | ok (some task) ↦ store name (task_handler task) registry
          ] in
            (looked.0 ≡ resolve name) × IsCache looked.1
      by_task (raised e) h = (rw (plain, h), c)
      by_task (ok none) h = (rw (plain, h), c)
      by_task (ok (some task)) h = store-IsCache name (task_handler task) registry (rw (plain, h)) c

  -- A lookup answers what the name stands for, and the registry stays a cache of such answers.
  pub get-eq-resolve :
      (name : String) (registry : Dict Entry)
      → IsCache registry
      → ((get name registry).0 ≡ resolve name) × IsCache (get name registry).1
  unfolding get
  get-eq-resolve name registry c = elim (Option-cases (Dicts.get name registry)) [
    | inr (entry, kept) ↦ (rw kept (sym (c.sound name entry kept)), rw kept c)
    | inl new ↦ elim (Bool-cases (ends_with defer_name_suffix name)) [
      | inl wrapper ↦
          rw (new, wrapper)
            (store-IsCache name (deferred (remove_suffix defer_name_suffix name)) registry
              (unfold resolve in rw wrapper) c)
      | inr plain ↦ rw (new, plain) (imported name registry plain c)
    ]
  ]

  -- The answers to a run of lookups, with the registry that it leaves.
  pub get_all : List String → Dict Entry → List (Result (Option Entry))
  get_all [] registry = []
  get_all (name ∷ names) registry =
      let (answer, registry') = get name registry in answer ∷ get_all names registry'

  get_all-IsCache :
      (names : List String) (registry : Dict Entry)
      → IsCache registry
      → get_all names registry ≡ map resolve names
  unfolding get_all
  get_all-IsCache [] registry c = refl
  get_all-IsCache (name ∷ names) registry c =
      let (answer, c') = get-eq-resolve name registry c in
      ap₂ (λ x xs. x ∷ xs) answer (get_all-IsCache names (get name registry).1 c')

  -- A fresh registry answers every run of lookups as if nothing were kept.
  pub get_all-eq-map : (names : List String) → get_all names [] ≡ map resolve names
  get_all-eq-map names = get_all-IsCache names [] IsCache-nil

  -- The path of a task has no colon. In any registry of this kind it leads to that task, and the name
  -- of its deferred enqueue to the handler that enqueues it: neither is taken for the other.
  pub get_apart :
      (path : String) (task : Task) (registry : Dict Entry)
      → IsCache registry
      → has_code b':' path ≡ false
      → import_string path ≡ ok (imported_task task)
      → ((get path registry).0
          ≡ ok (some (record { name = path; queue = queue; handler = task_handler task })))
        × ((get (path <> defer_name_suffix) registry).0
            ≡ ok (
                some (record {
                  name = path <> defer_name_suffix;
                  queue = queue;
                  handler = deferred path;
                })))
  unfolding resolve task_or_none
  get_apart path task registry c plain found = (
    (get-eq-resolve path registry c).0 ∙ rw (no_suffix path plain, found),
    (get-eq-resolve (path <> defer_name_suffix) registry c).0
        ∙ rw (ends_with-append path defer_name_suffix, remove_suffix-append path defer_name_suffix),
  )
