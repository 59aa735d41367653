-- ===== src/Migrate/Backends.antt =====
-- Which backends a migrate provisions, and what it takes to stop it.
use django_absurd.Prelude.{
  String, ◌≡◌, refl, ap, ◌∙◌, Bool, not, ◌&&◌, is_empty, List, [], ◌∷◌, All, keep, ◌==◌, Bool-cases,
  inl, inr,
}
use django_absurd.Exceptions.{Exception, schema_not_installed}
use django_absurd.Effect.{Result, ok, raised, Run, pure, and_then}
use django_absurd.Backend.{Backend}
use django_absurd.Queues.{Database, SyncResult}
use django_absurd.Queues.Boot.{provision_backend}
use django_absurd.Migrate.{
  Line, not_provisioned, or_not_provisioned, result_lines, written, provision_one,
  provision_queues_after_migrate,
}

module _ {W : Type 0} (write : String → List Line → Run W (Unit {0})) (shows : Bool)
    (db : Database W) (atomic : String → Run W SyncResult → Run W SyncResult)
    (take_lock : Run W (Unit {0})) (rebuild_views : String → Run W (Unit {0})) where
  -- What is left of the provisioning of some backends, one after another, whatever each ends with.
  unfoldable pub provisioned : List Backend → W → W
  provisioned [] w = w
  provisioned (backend ∷ backends) w =
      provisioned backends (provision_backend db atomic take_lock rebuild_views backend w).1

  written-ok :
      ((alias : String) (lines : List Line) (w : W) → write alias lines w ≡ (ok tt, w))
      → (alias : String) (lines : List Line) (w : W)
      → written write shows alias lines w ≡ (ok tt, w)
  written-ok writes alias lines w = elim (Bool-cases (not (is_empty lines) && shows)) [
    | inl on ↦ rw on (writes alias lines w)
    | inr off ↦ rw off refl
  ]

  -- The end of a backend's provisioning, from its outcome.
  after_outcome :
      ((alias : String) (lines : List Line) (w : W) → write alias lines w ≡ (ok tt, w))
      → (alias : String) (w : W) (r : Result SyncResult)
      → ((e : Exception) → r ≡ raised e → e ≡ schema_not_installed)
      → let body : Result (List Line) × W = and_then r (λ result. pure (result_lines result)) w in
        let done : Result (List Line) × W = elim body.0 [
          | ok lines ↦ (ok lines, body.1)
          | raised e ↦ or_not_provisioned e body.1
        ] in
        and_then done.0 (written write shows alias) done.1 ≡ (ok tt, w)
  after_outcome writes alias w (ok result) forgiven =
      written-ok writes alias (result_lines result) w
  after_outcome writes alias w (raised e) forgiven =
      rw (forgiven e refl) (written-ok writes alias (not_provisioned ∷ []) w)

  -- Where writing returns and is no part of the state, and a provisioning raises nothing but
  -- `SchemaNotInstalledError`: a migrate of a database runs the provisioning of exactly the backends on
  -- that database, in their order, goes on after a missing schema, and returns.
  pub provision_queues_after_migrate-provisioned :
      (using : String) (backends : List Backend) (w : W)
      → ((alias : String) (lines : List Line) (w : W) → write alias lines w ≡ (ok tt, w))
      → All
          (λ backend.
            (w : W) (e : Exception)
            → (provision_backend db atomic take_lock rebuild_views backend w).0 ≡ raised e
            → e ≡ schema_not_installed)
          backends
      → provision_queues_after_migrate write shows db atomic take_lock rebuild_views using backends
          w
        ≡ (ok tt, provisioned (keep (λ backend. backend.database == using) backends) w)
  unfolding provision_queues_after_migrate provision_one provisioned
  provision_queues_after_migrate-provisioned using [] w writes forgiven = refl
  provision_queues_after_migrate-provisioned using (backend ∷ backends) w writes (forgiven, rest) =
      elim (Bool-cases (backend.database == using)) [
        | inl here ↦
            let w₁ = (provision_backend db atomic take_lock rebuild_views backend w).1 in
            let one =
              after_outcome writes backend.alias w₁
                (provision_backend db atomic take_lock rebuild_views backend w).0 (forgiven w) in
            rw here (
              ap
                (λ r.
                  and_then r.0
                    (λ _.
                      provision_queues_after_migrate write shows db atomic take_lock rebuild_views
                        using backends)
                    r.1)
                one
              ∙ provision_queues_after_migrate-provisioned using backends w₁ writes rest)
        | inr elsewhere ↦
            rw elsewhere (provision_queues_after_migrate-provisioned using backends w writes rest)
      ]
