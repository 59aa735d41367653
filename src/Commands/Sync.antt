-- ===== src/Commands/Sync.antt =====
-- absurd_sync_queues of django_absurd/management/commands.
use django_absurd.Prelude.{
  String, Bool, true, false, ◌&&◌, ◌||◌, not, Option, none, some, List, [], ◌∷◌, if◌then◌else◌,
}
use django_absurd.Exceptions.{backend_not_configured, refusal}
use django_absurd.Effect.{Run, pure, throw, ◌>>=◌, ◌>>◌}
use django_absurd.Backend.{Backend}
use django_absurd.Queues.{Database, SyncResult, plan_queue_sync}
use django_absurd.Queues.Boot.{provision_backend}

-- A line about a backend's queues; `would` lines tell what a dry run would do.
pub data Report : Type 0 where
  created reconciled repaired would_create would_reconcile would_repair : List String → Report
  no_queues_to_sync : Report

abbrev pub is_filled : List String → Bool
is_filled [] = false
is_filled (_ ∷ _) = true

-- `result.created or result.reconciled or result.repaired`
abbrev pub has_changes : SyncResult → Bool
has_changes result =
    is_filled result.created || is_filled result.reconciled || is_filled result.repaired

-- `say` writes a line under the alias of the backend that it is about.
module _ {W : Type 0} (db : Database W) (atomic : String → Run W SyncResult → Run W SyncResult)
    (take_lock : Run W (Unit {0})) (rebuild_views : String → Run W (Unit {0}))
    (say : Option String → Report → Run W (Unit {0})) where
  abbrev said_if : Bool → Option String → Report → Run W (Unit {0})
  said_if test label report = if test then say label report else pure tt

  unfoldable pub report_sync_result :
      SyncResult → Option String → (dry_run : Bool) → Run W (Unit {0})
  report_sync_result result label dry_run = do
    said_if (is_filled result.created) label
        (if dry_run then would_create result.created else created result.created)
    said_if (is_filled result.reconciled) label
        (if dry_run then would_reconcile result.reconciled else reconciled result.reconciled)
    said_if (is_filled result.repaired) label
        (if dry_run then would_repair result.repaired else repaired result.repaired)
    said_if (not (has_changes result)) label no_queues_to_sync

  abbrev pub plan_or_provision : (dry_run : Bool) → Backend → Run W SyncResult
  plan_or_provision dry_run backend =
      if dry_run
      then plan_queue_sync db backend
      else provision_backend db atomic take_lock rebuild_views backend

  -- The loop over the backends, with `pending` of those before.
  unfoldable pub sync_backends :
      (dry_run several : Bool) → (pending : Bool) → List Backend → Run W Bool
  sync_backends dry_run several pending [] = pure pending
  sync_backends dry_run several pending (backend ∷ backends) = do
    result ← plan_or_provision dry_run backend
    report_sync_result result (if several then some backend.alias else none) dry_run
    sync_backends dry_run several (pending || has_changes result) backends

  abbrev is_several : List Backend → Bool
  is_several (_ ∷ _ ∷ _) = true
  is_several _ = false

  unfoldable pub handle : (dry_run : Bool) → List Backend → Run W (Unit {0})
  handle dry_run [] = throw backend_not_configured
  handle dry_run (backend ∷ backends) = do
    pending ← sync_backends dry_run (is_several (backend ∷ backends)) false (backend ∷ backends)
    if dry_run && pending then throw (refusal "NOT_IN_SYNC") else pure tt
