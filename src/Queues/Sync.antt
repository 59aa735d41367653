-- ===== src/Queues/Sync.antt =====
-- A sync that returns settles every declared queue.
use django_absurd.Prelude.{
  String, ◌≡◌, ◌≢◌, refl, sym, ap, ◌∙◌, subst, Bool, true, false, Option, none, some, List, [], ◌∷◌,
  Dict, All, Bool-cases, inl, inr, if◌then◌else◌,
}
use django_absurd.Exceptions.{improperly_configured}
use django_absurd.Effect.{
  Result, ok, raised, Run, pure, throw, lift, and_then, ok-injective, >>=-eq-ok, ◌>>=◌,
}
use django_absurd.Json.{Json}
use django_absurd.Connection.{validate_backend}
use django_absurd.Backend.{Backend, get_declared_queues}
use django_absurd.Queues.{
  Database, QueueRow, QueuePlan, SyncResult, declared_options, names_of, apply_create, apply_policy,
  plan_from, plan_queue, apply_queue_plan, reconcile_with, reconcile_queue,
  require_installed_schema, sync_names, sync_queues, extend, no_changes, mutable_options,
}
use django_absurd.Queues.Provision.{Sdk, IsCanonical, nothing_to_do, reconcile_with-settles}

-- The keys of a dict.
abbrev pub Distinct : List String → Type 0
Distinct [] = Unit
Distinct (n ∷ names) = All (λ m. m ≢ n) names × Distinct names

module _ {W : Type 0} (db : Database W) where
  -- A queue's row and tables are as before.
  abbrev pub Same : String → W → W → Type 0
  Same q w w' = (db.row q w' ≡ db.row q w) × (db.missing q w' ≡ db.missing q w)

  abbrev pub Kept : {A : Type 0} → String → Run W A → Type 0
  Kept q m = (w : W) → Same q w (m w).1

  -- The SDK's calls for one queue, and the connection's, leave the other queues alone.
  pub record Apart : Type 0 where
    pub create : (name q : String) (o : Dict Json) → name ≢ q → Kept q (db.create_queue name o)
    pub policy : (name q : String) (o : Dict Json) → name ≢ q → Kept q (db.set_queue_policy name o)
    pub ensure : (alias q : String) → Kept q (db.connections.ensure_connection alias)
    pub driver : (alias q : String) → Kept q (db.connections.is_psycopg alias)

  abbrev pub Settled : String → Dict Json → W → Type 0
  Settled q opts w = plan_from db q opts (db.row q w) (db.missing q w) ≡ nothing_to_do db q

  pub Settled-Same :
      (q : String) (opts : Dict Json) (w w' : W)
      → Same q w w'
      → Settled q opts w
      → Settled q opts w'
  Settled-Same q opts w w' (rows, tables) h = rw (rows, tables) h

  after_step :
      {A B : Type 0} (q : String) (m : Run W A) (f : A → Run W B) (w : W) (r : Result A)
      → (m w).0 ≡ r
      → Same q w (m w).1
      → ((a : A) → (m w).0 ≡ ok a → Kept q (f a))
      → Same q w (and_then r f (m w).1).1
  after_step q m f w (ok a) e (rows, tables) rest =
      let (rows', tables') = rest a e (m w).1 in (rows' ∙ rows, tables' ∙ tables)
  after_step q m f w (raised x) e first rest = first

  pub >>=-Kept :
      {A B : Type 0} (q : String) (m : Run W A) (f : A → Run W B)
      → Kept q m
      → ((w : W) (a : A) → (m w).0 ≡ ok a → Kept q (f a))
      → Kept q (m >>= f)
  >>=-Kept q m f first rest w = after_step q m f w (m w).0 refl (first w) (rest w)

  plan_from-name :
      (name : String) (opts : Dict Json) (found : Option QueueRow) (absent : List String)
      → (plan_from db name opts found absent).queue_name ≡ name
  unfolding plan_from
  plan_from-name name opts none absent = refl
  plan_from-name name opts (some existing) absent = refl

  schema-Kept : (q : String) → Kept q (require_installed_schema db)
  unfolding require_installed_schema
  schema-Kept q w = elim (Bool-cases (db.schema_absent w)) [
    | inl absent ↦ rw absent (refl, refl)
    | inr present ↦ rw present (refl, refl)
  ]

  plan_queue-Kept : (name q : String) (opts : Dict Json) → Kept q (plan_queue db name opts)
  unfolding plan_queue
  plan_queue-Kept name q opts =
      >>=-Kept q (require_installed_schema db) _ (schema-Kept q) (λ w a e w'. (refl, refl))

  plan_queue-name :
      (name : String) (opts : Dict Json) (w : W) (plan : QueuePlan)
      → (plan_queue db name opts w).0 ≡ ok plan
      → plan.queue_name ≡ name
  unfolding plan_queue
  plan_queue-name name opts w plan h =
      let (_, _, step) = >>=-eq-ok (require_installed_schema db) _ w h in
      ap (λ p. p.queue_name) (sym (ok-injective (ap (λ r. r.0) (sym step) ∙ h)))
      ∙ plan_from-name name opts _ _

  module _ (apart : Apart) where
    apply-Kept :
        (q : String) (plan : QueuePlan) → plan.queue_name ≢ q → Kept q (apply_queue_plan db plan)
    unfolding apply_queue_plan
    apply-Kept q plan other =
        >>=-Kept q (apply_create db plan.queue_name plan.create_options) _
          (create plan.create_options)
          (λ _ _ _.
            >>=-Kept q (if plan.repair then db.create_queue plan.queue_name [] else pure tt) _
              (repair plan.repair) (λ _ _ _. policy plan.policy_options))
      where
        create : (o : Option (Dict Json)) → Kept q (apply_create db plan.queue_name o)
        create none w = (refl, refl)
        create (some o) w = apart.create plan.queue_name q o other w

        repair : (b : Bool) → Kept q (if b then db.create_queue plan.queue_name [] else pure tt)
        repair false w = (refl, refl)
        repair true w = apart.create plan.queue_name q [] other w

        policy : (o : Option (Dict Json)) → Kept q (apply_policy db plan.queue_name o)
        policy none w = (refl, refl)
        policy (some o) w = apart.policy plan.queue_name q o other w

    reconcile_with-Kept :
        (name q : String) (opts : Dict Json) → name ≢ q → Kept q (reconcile_with db name opts)
    unfolding reconcile_with
    reconcile_with-Kept name q opts other =
        >>=-Kept q (plan_queue db name opts) _ (plan_queue-Kept name q opts) (λ w plan planned.
          >>=-Kept q (apply_queue_plan db plan) _
            (apply-Kept q plan (λ e. other (sym (plan_queue-name name opts w plan planned) ∙ e)))
            (λ _ _ _ w'. (refl, refl)))

    pub validate-Kept : (alias q : String) → Kept q (validate_backend db.connections alias)
    unfolding validate_backend
    validate-Kept alias q =
        >>=-Kept q (db.connections.ensure_connection alias) _ (apart.ensure alias q) (λ _ _ _.
          >>=-Kept q (db.connections.is_psycopg alias) _ (apart.driver alias q)
            (λ _ psycopg _. refused psycopg))
      where
        refused : (b : Bool) → Kept q (if b then pure tt else throw improperly_configured)
        refused true w = (refl, refl)
        refused false w = (refl, refl)

    reconcile_queue-Kept :
        (backend : Backend) (name q : String) → name ≢ q → Kept q (reconcile_queue db backend name)
    unfolding reconcile_queue
    reconcile_queue-Kept backend name q other =
        >>=-Kept q (validate_backend db.connections backend.database) _
          (validate-Kept backend.database q)
          (λ _ _ _.
            >>=-Kept q (lift (declared_options backend name)) _ (λ w. (refl, refl))
              (λ _ opts _. reconcile_with-Kept name q opts other))

    sync_names-Kept :
        (backend : Backend) (names : List String) (result : SyncResult) (q : String)
        → All (λ name. name ≢ q) names
        → Kept q (sync_names db backend names result)
    unfolding sync_names
    sync_names-Kept backend [] result q others w = (refl, refl)
    sync_names-Kept backend (name ∷ names) result q (other, others) w =
        >>=-Kept q (reconcile_queue db backend name) _ (reconcile_queue-Kept backend name q other)
          (λ _ r _. sync_names-Kept backend names (extend db result r) q others) w

  -- The declared options of a queue ask for nothing more.
  abbrev pub IsProvisioned : Backend → W → String → Type 0
  IsProvisioned backend w q =
      (opts : Dict Json) × (declared_options backend q ≡ ok opts) × Settled q opts w

  -- The mutable options that are declared for a queue are in canonical form.
  abbrev pub DeclaresCanonical : Backend → String → Type 0
  DeclaresCanonical backend q =
      (opts : Dict Json)
      → declared_options backend q ≡ ok opts
      → IsCanonical (mutable_options db opts)

  module _ (sdk : Sdk db) (apart : Apart) (backend : Backend) where
    reconcile_queue-IsProvisioned :
        (q : String) (w : W) {r : SyncResult}
        → DeclaresCanonical backend q
        → (reconcile_queue db backend q w).0 ≡ ok r
        → IsProvisioned backend (reconcile_queue db backend q w).1 q
    unfolding reconcile_queue
    reconcile_queue-IsProvisioned q w canonical h =
        let (_, _, s₁) = >>=-eq-ok (validate_backend db.connections backend.database) _ w h in
        let w₁ = (validate_backend db.connections backend.database w).1 in
        let (opts, found, s₂) =
          >>=-eq-ok (lift (declared_options backend q)) (reconcile_with db q) w₁
            (ap (λ o. o.0) (sym s₁) ∙ h) in
        let done = ap (λ o. o.0) (sym (s₁ ∙ s₂)) ∙ h in
        (
          opts,
          found,
          subst (Settled q opts) (ap (λ o. o.1) (sym (s₁ ∙ s₂)))
              (reconcile_with-settles db sdk q opts (canonical opts found) w₁ done).1,
        )

    sync_names-IsProvisioned :
        (names : List String) (result : SyncResult) (w : W) {r : SyncResult}
        → Distinct names
        → All (DeclaresCanonical backend) names
        → (sync_names db backend names result w).0 ≡ ok r
        → All (IsProvisioned backend (sync_names db backend names result w).1) names
    unfolding sync_names
    sync_names-IsProvisioned [] result w apart_names canonical h = tt
    sync_names-IsProvisioned (q ∷ names) result w (fresh, distinct) (canonical, others) h =
        let rest = λ (r : SyncResult). sync_names db backend names (extend db result r) in
        let (r, done, step) = >>=-eq-ok (reconcile_queue db backend q) rest w h in
        let w₁ = (reconcile_queue db backend q w).1 in
        let (opts, found, settled) = reconcile_queue-IsProvisioned q w canonical done in
        subst (λ w'. All (IsProvisioned backend w') (q ∷ names)) (ap (λ o. o.1) (sym step))
          (
            (
              opts,
              found,
              Settled-Same q opts w₁ (rest r w₁).1
                  (sync_names-Kept apart backend names (extend db result r) q fresh w₁) settled,
            ),
            sync_names-IsProvisioned names (extend db result r) w₁ distinct others
                (ap (λ o. o.0) (sym step) ∙ h),
          )

    -- Where the SDK's calls keep their laws and touch only the queue that they are called for, no queue
    -- is declared twice, and every queue's mutable options are declared in canonical form: a sync that
    -- returns leaves a database in which the plan of every declared queue is to do nothing.
    pub sync_queues-IsProvisioned :
        (w : W) {r : SyncResult}
        → Distinct (names_of (get_declared_queues backend))
        → All (DeclaresCanonical backend) (names_of (get_declared_queues backend))
        → (sync_queues db backend w).0 ≡ ok r
        → All
            (IsProvisioned backend (sync_queues db backend w).1)
            (names_of (get_declared_queues backend))
    unfolding sync_queues
    sync_queues-IsProvisioned w distinct canonical h =
        sync_names-IsProvisioned (names_of (get_declared_queues backend)) (no_changes db) w distinct
          canonical h
