-- ===== src/Queues/Boot.antt =====
-- `provision_backend`, `lock_provisioning` and `list_provisioned_queues` of django_absurd/queues.py.
use Prim.Native.Char.{code}
use django_absurd.Prelude.{
  String, Bool, true, false, ◌&&◌, ◌||◌, List, [], ◌∷◌, if◌then◌else◌, ltb, nat_beq,
}
use django_absurd.Effect.{Run, pure, ◌>>=◌, ◌>>◌}
use django_absurd.Connection.{validate_backend}
use django_absurd.Backend.{Backend}
use django_absurd.Queues.{Database, SyncResult, require_installed_schema, sync_queues}

-- Python's order of texts, by their characters' codes.
unfoldable pub is_before : String → String → Bool
is_before String.[] t = true
is_before (String.◌∷◌ c s) String.[] = false
is_before (String.◌∷◌ c s) (String.◌∷◌ d t) =
    ltb (code c) (code d) || (nat_beq (code c) (code d) && is_before s t)

abbrev insert : String → List String → List String
insert name [] = name ∷ []
insert name (n ∷ names) =
    let rest = insert name names in if is_before name n then name ∷ n ∷ names else n ∷ rest

-- `sorted(names)`
unfoldable pub sorted : List String → List String
sorted [] = []
sorted (name ∷ names) = insert name (sorted names)

-- `atomic` is Django's transaction round a block, `take_lock` the `select` of the advisory lock,
-- `rebuild_views` that of django_absurd/admin_views.py.
module _ {W : Type 0} (db : Database W) (atomic : String → Run W SyncResult → Run W SyncResult)
    (take_lock : Run W (Unit {0})) (rebuild_views : String → Run W (Unit {0})) where
  unfoldable pub lock_provisioning : String → Run W SyncResult → Run W SyncResult
  lock_provisioning using body = atomic using (do take_lock; body)

  unfoldable pub provision_backend : Backend → Run W SyncResult
  provision_backend backend = do
    validate_backend db.connections backend.database
    require_installed_schema db
    lock_provisioning backend.database
        (do result ← sync_queues db backend; rebuild_views backend.database; pure result)

-- `list_queues` is the SDK's.
module _ {W : Type 0} (db : Database W) (list_queues : Run W (List String)) where
  unfoldable pub list_provisioned_queues : Run W (List String)
  list_provisioned_queues = do require_installed_schema db; names ← list_queues; pure (sorted names)
