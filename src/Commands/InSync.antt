-- ===== src/Commands/InSync.antt =====
-- What a provisioning leaves for `absurd_sync_queues --check` to report.
use django_absurd.Prelude.{
  String, ◌≡◌, refl, sym, ap, ◌∙◌, subst, Bool, true, false, not, ◌&&◌, ◌||◌, Option, none, List,
  [], ◌∷◌, map, All, if◌then◌else◌,
}
use django_absurd.Prelude.Keeping.{All-map}
use django_absurd.Exceptions.{refusal}
use django_absurd.Effect.{ok, Run, pure, throw, and_then, >>=-ok, >>=-eq-ok, ◌>>=◌, ◌>>◌}
use django_absurd.Connection.{validate_backend}
use django_absurd.Backend.{Backend, get_declared_queues}
use django_absurd.Queues.{
  Database, SyncResult, names_of, no_changes, plan_queue, plan_names, plan_queue_sync,
  summarize_queue_plans, require_installed_schema, sync_queues,
}
use django_absurd.Queues.Provision.{Sdk, nothing_to_do}
use django_absurd.Queues.Sync.{
  Apart, Distinct, DeclaresCanonical, IsProvisioned, Kept, >>=-Kept, Same, Settled-Same,
  validate-Kept, sync_queues-IsProvisioned,
}
use django_absurd.Queues.Boot.{lock_provisioning, provision_backend}
use django_absurd.Commands.Sync.{
  Report, no_queues_to_sync, report_sync_result, sync_backends, handle, has_changes, is_filled,
  created, reconciled, repaired, would_create, would_reconcile, would_repair,
}

module _ {W : Type 0} (db : Database W) where
  unchanged_plans :
      (names : List String)
      → summarize_queue_plans db (map (nothing_to_do db) names) ≡ no_changes db
  unfolding summarize_queue_plans
  unchanged_plans [] = refl
  unchanged_plans (name ∷ names) = rw (unchanged_plans names) refl

  require-ok : (w : W) → db.schema_absent w ≡ false → require_installed_schema db w ≡ (ok tt, w)
  unfolding require_installed_schema
  require-ok w h = rw h refl

  -- The plans of queues that are provisioned.
  plan_names-IsProvisioned :
      (backend : Backend) (names : List String) (w : W)
      → db.schema_absent w ≡ false
      → All (IsProvisioned db backend w) names
      → plan_names db backend names w ≡ (ok (map (nothing_to_do db) names), w)
  unfolding plan_names plan_queue
  plan_names-IsProvisioned backend [] w here done = refl
  plan_names-IsProvisioned backend (name ∷ names) w here ((opts, found, settled), done) =
      rw (found, require-ok w here, settled, plan_names-IsProvisioned backend names w here done)
        refl

  -- A plan made where every declared queue is provisioned: there is nothing to do.
  plan_queue_sync-IsProvisioned :
      (apart : Apart db) (backend : Backend) (w : W)
      → All (IsProvisioned db backend w) (names_of (get_declared_queues backend))
      → (validate_backend db.connections backend.database w).0 ≡ ok tt
      → db.schema_absent (validate_backend db.connections backend.database w).1 ≡ false
      → plan_queue_sync db backend w
        ≡ (ok (no_changes db), (validate_backend db.connections backend.database w).1)
  unfolding plan_queue_sync
  plan_queue_sync-IsProvisioned apart backend w done connected here =
      let w₁ = (validate_backend db.connections backend.database w).1 in
      let names = names_of (get_declared_queues backend) in
      let kept =
        All-map
          (λ q (opts, found, settled). (
            opts,
            found,
            Settled-Same db q opts w w₁ (validate-Kept db apart backend.database q w) settled,
          ))
          names done in
      >>=-ok (validate_backend db.connections backend.database) _ w tt connected
      ∙ >>=-ok (require_installed_schema db) _ w₁ tt (ap (λ r. r.0) (require-ok w₁ here))
      ∙ ap
          (λ r.
            (plan_names db backend names >>= λ plans. pure (summarize_queue_plans db plans)) r.1)
          (require-ok w₁ here)
      ∙ ap (λ r. (and_then r.0 (λ plans. pure (summarize_queue_plans db plans)) r.1))
          (plan_names-IsProvisioned backend names w₁ here kept)
      ∙ ap (λ r. (ok r, w₁)) (unchanged_plans names)

  module _ (atomic : String → Run W SyncResult → Run W SyncResult) (take_lock : Run W (Unit {0}))
      (rebuild_views : String → Run W (Unit {0}))
      (say : Option String → Report → Run W (Unit {0})) where
    -- A transaction that returns has run its block, and commits what it left; neither that nor the
    -- rebuilding of the views nor the output touches a queue, and writing to the output returns.
    pub record Transacts : Type 0 where
      pub commits :
          (using : String) (m : Run W SyncResult) (w : W) {r : SyncResult}
          → (atomic using m w).0 ≡ ok r
          → ((m w).0 ≡ ok r) × ((q : String) → Same db q (m w).1 (atomic using m w).1)
      pub rebuilds : (using q : String) → Kept db q (rebuild_views using)
      pub says : (label : Option String) (line : Report) (w : W) → (say label line w).0 ≡ ok tt
      pub says_only :
          (label : Option String) (line : Report) (q : String) → Kept db q (say label line)

    module _ (transacts : Transacts) (sdk : Sdk db) (apart : Apart db) (backend : Backend) where
      IsProvisioned-Same :
          (w w' : W) (q : String)
          → Same db q w w'
          → IsProvisioned db backend w q
          → IsProvisioned db backend w' q
      IsProvisioned-Same w w' q same (opts, found, settled) =
          (opts, found, Settled-Same db q opts w w' same settled)

      provision_backend-IsProvisioned :
          (w : W) {r : SyncResult}
          → Distinct (names_of (get_declared_queues backend))
          → All (DeclaresCanonical db backend) (names_of (get_declared_queues backend))
          → (provision_backend db atomic take_lock rebuild_views backend w).0 ≡ ok r
          → All
              (IsProvisioned db backend
                (provision_backend db atomic take_lock rebuild_views backend w).1)
              (names_of (get_declared_queues backend))
      unfolding provision_backend lock_provisioning
      provision_backend-IsProvisioned w distinct canonical h =
          let names = names_of (get_declared_queues backend) in
          let views =
            λ (result : SyncResult). rebuild_views backend.database >>= λ _. pure result in
          let body = take_lock >> (sync_queues db backend >>= views) in
          let (_, _, s₁) = >>=-eq-ok (validate_backend db.connections backend.database) _ w h in
          let w₁ = (validate_backend db.connections backend.database w).1 in
          let (_, _, s₂) =
            >>=-eq-ok (require_installed_schema db) (λ _. atomic backend.database body) w₁
              (ap (λ r. r.0) (sym s₁) ∙ h) in
          let w₂ = (require_installed_schema db w₁).1 in
          let (ran, same) =
            transacts.commits backend.database body w₂ (ap (λ r. r.0) (sym (s₁ ∙ s₂)) ∙ h) in
          let (_, _, s₃) = >>=-eq-ok take_lock (λ _. sync_queues db backend >>= views) w₂ ran in
          let w₃ = (take_lock w₂).1 in
          let (result, synced, s₄) =
            >>=-eq-ok (sync_queues db backend) views w₃ (ap (λ r. r.0) (sym s₃) ∙ ran) in
          let w₄ = (sync_queues db backend w₃).1 in
          let (_, _, s₅) =
            >>=-eq-ok (rebuild_views backend.database) (λ _. pure result) w₄
              (ap (λ r. r.0) (sym (s₃ ∙ s₄)) ∙ ran) in
          let whole = ap (λ r. r.1) (s₃ ∙ s₄ ∙ s₅) in
          subst (λ w'. All (IsProvisioned db backend w') names) (ap (λ r. r.1) (sym (s₁ ∙ s₂)))
            (All-map (λ q. IsProvisioned-Same (body w₂).1 _ q (same q)) names
              (subst (λ w'. All (IsProvisioned db backend w') names) (sym whole)
                (All-map
                  (λ q.
                    IsProvisioned-Same w₄ (rebuild_views backend.database w₄).1 q
                      (transacts.rebuilds backend.database q w₄))
                  names
                  (sync_queues-IsProvisioned db sdk apart backend w₃ distinct canonical synced))))

      said-Kept :
          (test : Bool) (label : Option String) (line : Report) (q : String)
          → Kept db q (if test then say label line else pure tt)
      said-Kept true label line q w = transacts.says_only label line q w
      said-Kept false label line q w = (refl, refl)

      said-then-Kept :
          (test : Bool) (label : Option String) (line : Report) (rest : Run W (Unit {0}))
          (q : String)
          → Kept db q rest
          → Kept db q ((if test then say label line else pure tt) >>= λ _. rest)
      said-then-Kept test label line rest q kept =
          >>=-Kept db q (if test then say label line else pure tt) (λ _. rest)
            (said-Kept test label line q) (λ _ _ _. kept)

      report-Kept :
          (result : SyncResult) (label : Option String) (dry_run : Bool) (q : String)
          → Kept db q
              (report_sync_result db atomic take_lock rebuild_views say result label dry_run)
      unfolding report_sync_result
      report-Kept result label dry_run q =
          let said = λ (test : Bool) (line : Report). if test then say label line else pure tt in
          let create = if dry_run then would_create result.created else created result.created in
          let reconcile =
            if dry_run then would_reconcile result.reconciled else reconciled result.reconciled in
          let repair = if dry_run then would_repair result.repaired else repaired result.repaired in
          let nothing = said (not (has_changes result)) no_queues_to_sync in
          let repairs = said (is_filled result.repaired) repair >>= λ _. nothing in
          let reconciles = said (is_filled result.reconciled) reconcile >>= λ _. repairs in
          said-then-Kept (is_filled result.created) label create reconciles q (
            said-then-Kept (is_filled result.reconciled) label reconcile repairs q (
              said-then-Kept (is_filled result.repaired) label repair nothing q
                (said-Kept (not (has_changes result)) label no_queues_to_sync q)))

      -- A check that finds every queue provisioned says so, and returns.
      check-IsProvisioned :
          (w : W)
          → All (IsProvisioned db backend w) (names_of (get_declared_queues backend))
          → (validate_backend db.connections backend.database w).0 ≡ ok tt
          → db.schema_absent (validate_backend db.connections backend.database w).1 ≡ false
          → (handle db atomic take_lock rebuild_views say true (backend ∷ []) w).0 ≡ ok tt
      unfolding handle sync_backends report_sync_result
      check-IsProvisioned w done connected here =
          let w₁ = (validate_backend db.connections backend.database w).1 in
          let report = λ (result : SyncResult).
            report_sync_result db atomic take_lock rebuild_views say result none true >>= λ _.
            pure (false || has_changes result) in
          let e = plan_queue_sync-IsProvisioned apart backend w done connected here in
          let step =
            >>=-ok (plan_queue_sync db backend) report w (no_changes db) (ap (λ r. r.0) e)
            ∙ ap (λ r. report (no_changes db) r.1) e
            ∙ >>=-ok
                (report_sync_result db atomic take_lock rebuild_views say (no_changes db) none true)
                (λ _. pure false) w₁ tt (transacts.says none no_queues_to_sync w₁) in
          ap
            (λ r.
              (and_then r.0
                (λ pending.
                  if true && pending then throw {A = Unit {0}} (refusal "NOT_IN_SYNC") else pure tt)
                r.1).0)
            step

      -- Where the SDK's calls keep their laws and touch only the queue that they are called for, no
      -- queue is declared twice, every queue's mutable options are declared in canonical form, and a
      -- transaction that returns has run its block: after an `absurd_sync_queues` of one backend that
      -- returned, an `absurd_sync_queues --check` that connects and finds the schema returns as well.
      pub check-after_sync :
          (w : W)
          → Distinct (names_of (get_declared_queues backend))
          → All (DeclaresCanonical db backend) (names_of (get_declared_queues backend))
          → (handle db atomic take_lock rebuild_views say false (backend ∷ []) w).0 ≡ ok tt
          → let w' = (handle db atomic take_lock rebuild_views say false (backend ∷ []) w).1 in
            (validate_backend db.connections backend.database w').0 ≡ ok tt
            → db.schema_absent (validate_backend db.connections backend.database w').1 ≡ false
            → (handle db atomic take_lock rebuild_views say true (backend ∷ []) w').0 ≡ ok tt
      unfolding handle sync_backends
      check-after_sync w distinct canonical h connected here =
          let names = names_of (get_declared_queues backend) in
          let provision = provision_backend db atomic take_lock rebuild_views backend in
          let report = λ (result : SyncResult).
            report_sync_result db atomic take_lock rebuild_views say result none false >>= λ _.
            pure (false || has_changes result) in
          let (pending, synced, s) = >>=-eq-ok (provision >>= report) (λ _. pure tt) w h in
          let (result, provisioned, s₁) = >>=-eq-ok provision report w synced in
          let w₁ = (provision w).1 in
          let settled =
            All-map
              (λ q. IsProvisioned-Same w₁ (report result w₁).1 q (
                >>=-Kept db q
                  (report_sync_result db atomic take_lock rebuild_views say result none false)
                  (λ _. pure (false || has_changes result)) (report-Kept result none false q)
                  (λ _ _ _ w. (refl, refl)) w₁))
              names (provision_backend-IsProvisioned w distinct canonical provisioned) in
          check-IsProvisioned
            (handle db atomic take_lock rebuild_views say false (backend ∷ []) w).1
            (subst (λ w'. All (IsProvisioned db backend w') names)
              (sym (ap (λ r. r.1) s ∙ ap (λ r. r.1) s₁)) settled)
            connected here
