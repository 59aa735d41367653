-- ===== src/Admin/Tables.antt =====
-- The models of the queues' tables: each reads its own queue's.
use django_absurd.Prelude.{
  String, ◌≡◌, refl, sym, ap, ap₂, ◌∙◌, Option, none, some, List, [], ◌∷◌, ◌<>◌, map, All,
  if◌then◌else◌, ◌==◌, eq_iff, Bool-cases, inl, inr,
}
use django_absurd.Prelude.Dicts
use django_absurd.Prelude.Dicts.{get-put}
use django_absurd.Admin.{EntitySpec}
use django_absurd.Admin.Models.{Model, Registry, sanitized, table_fields, build_queue_table_model}

-- A request for the model of an entity's table in a queue.
abbrev pub Request : Type 0
Request = EntitySpec × String

abbrev pub table_of : Request → List String
table_of (spec, queue) = "absurd" ∷ (spec.prefix <> "_" <> queue) ∷ []

some-injective : {A : Type 0} {a b : A} → some a ≡ some b → a ≡ b
some-injective e = cc

module _ (lower : String → String) where
  -- The name that a model is registered by.
  abbrev pub key_of : Request → String
  key_of (spec, queue) = lower ("QueueTable_" <> spec.prefix <> "_" <> sanitized queue)

  -- The tables of the models that a run of requests gets.
  unfoldable pub build_all : List Request → Registry → List (List String)
  build_all [] registry = []
  build_all ((spec, queue) ∷ requests) registry =
      let (model, registry') = build_queue_table_model lower spec queue registry in
      model.db_table ∷ build_all requests registry'

  module _ (P : Request → Type 0)
      (apart : (r s : Request) → P r → P s → key_of r ≡ key_of s → table_of r ≡ table_of s) where
    -- What is registered by the name of a request is the model of its table.
    abbrev IsOwn : Registry → Type 0
    IsOwn registry =
        (r : Request) (model : Model)
        → P r
        → Dicts.get (key_of r) registry ≡ some model
        → model.db_table ≡ table_of r

    abbrev own_table : Request → Model
    own_table (spec, queue) = record {
      model_name = "QueueTable_" <> spec.prefix <> "_" <> sanitized queue;
      fields = table_fields spec.columns;
      db_table = table_of (spec, queue);
    }

    put-IsOwn :
        (r : Request) (registry : Registry)
        → P r
        → IsOwn registry
        → IsOwn (Dicts.put (key_of r) (own_table r) registry)
    put-IsOwn r registry here owned s model there found = elim (Bool-cases (key_of r == key_of s)) [
      | inl same ↦
          let e : some (own_table r) ≡ some model =
            sym (
              get-put (key_of r) (key_of s) (own_table r) registry
              ∙ ap (λ b. if b then some (own_table r) else Dicts.get (key_of s) registry) same)
            ∙ found in
          ap (λ m. m.db_table) (sym (some-injective e))
          ∙ apart r s here there ((eq_iff (key_of r) (key_of s)).0 same)
      | inr other ↦ owned s model there (
          sym (
            get-put (key_of r) (key_of s) (own_table r) registry
            ∙ ap (λ b. if b then some (own_table r) else Dicts.get (key_of s) registry) other)
          ∙ found)
    ]

    build-IsOwn :
        (r : Request) (registry : Registry)
        → P r
        → IsOwn registry
        → ((build_queue_table_model lower r.0 r.1 registry).0.db_table ≡ table_of r)
          × IsOwn (build_queue_table_model lower r.0 r.1 registry).1
    unfolding build_queue_table_model
    build-IsOwn r registry here owned = by_found (Dicts.get (key_of r) registry) refl
      where
        by_found :
            (o : Option Model)
            → Dicts.get (key_of r) registry ≡ o
            → let done : Model × Registry = elim o [
              | some existing ↦ (existing, registry)
              | none ↦ (own_table r, Dicts.put (key_of r) (own_table r) registry)
            ] in
              (done.0.db_table ≡ table_of r) × IsOwn done.1
        by_found none e = (refl, put-IsOwn r registry here owned)
        by_found (some existing) e = (owned r existing here e, owned)

    build_all-IsOwn :
        (requests : List Request) (registry : Registry)
        → All P requests
        → IsOwn registry
        → build_all requests registry ≡ map table_of requests
    unfolding build_all
    build_all-IsOwn [] registry here owned = refl
    build_all-IsOwn ((spec, queue) ∷ requests) registry (here, rest) owned =
        let (own, owned') = build-IsOwn (spec, queue) registry here owned in
        ap₂ (λ t ts. t ∷ ts) own
          (build_all-IsOwn requests (build_queue_table_model lower spec queue registry).1 rest
            owned')

    -- Where two requests that share a registered name ask for one table: over any run of requests, each
    -- gets a model of its own table, also where the registry answers.
    pub build_all-tables :
        (requests : List Request) → All P requests → build_all requests [] ≡ map table_of requests
    unfolding Dicts.get
    build_all-tables requests here = build_all-IsOwn requests [] here (λ r model there found. cc)
