-- ===== src/Settings.antt =====
-- The backends of the TASKS setting, and the database that Absurd lives in: `get_absurd_backends` of
-- django_absurd/backends.py, `resolve_absurd_database` and `get_absurd_backend` of
-- django_absurd/queues.py.
use django_absurd.Prelude.{String, Option, none, some, List, [], ◌∷◌, all, if◌then◌else◌, ◌==◌}
use django_absurd.Backend.{Backend}

-- The one database that every backend names, or `default`. `backends` are the values of
-- `get_absurd_backends()`.
unfoldable pub resolve_absurd_database : List Backend → String
resolve_absurd_database [] = "default"
resolve_absurd_database (backend ∷ backends) =
    if all (λ b. b.database == backend.database) backends then backend.database else "default"

-- The first backend on a database.
unfoldable pub backend_on : String → List Backend → Option Backend
backend_on target [] = none
backend_on target (backend ∷ backends) =
    let rest = backend_on target backends in
    if backend.database == target then some backend else rest

unfoldable pub get_absurd_backend : List Backend → Option Backend
get_absurd_backend backends = backend_on (resolve_absurd_database backends) backends
