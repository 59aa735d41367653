-- ===== src/Router.antt =====
-- django_absurd/routers.py.
use django_absurd.Prelude.{
  String, Bool, Option, none, some, List, [], ◌∷◌, contains, ◌==◌, if◌then◌else◌,
}
use django_absurd.Backend.{Backend}
use django_absurd.Settings.{resolve_absurd_database}

abbrev pub absurd_app_labels : List String
absurd_app_labels = "django_absurd" ∷ "django_absurd_pg_cron" ∷ []

unfoldable pub db_for_read : List Backend → (app_label : String) → Option String
db_for_read backends app_label =
    if contains absurd_app_labels app_label then some (resolve_absurd_database backends) else none

unfoldable pub db_for_write : List Backend → (app_label : String) → Option String
db_for_write backends app_label =
    if contains absurd_app_labels app_label then some (resolve_absurd_database backends) else none

unfoldable pub allow_migrate : List Backend → (db app_label : String) → Option Bool
allow_migrate backends db app_label =
    if contains absurd_app_labels app_label
    then some (db == resolve_absurd_database backends)
    else none
