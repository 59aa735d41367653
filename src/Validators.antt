-- ===== src/Validators.antt =====
-- django_absurd/validators.py, over JSON values. A `ValidationError` without a code has the code "".
use django_absurd.Prelude.{String, Bool, if◌then◌else◌}
use django_absurd.Exceptions.{validation_error, is_exception}
use django_absurd.Effect.{Result, ok, raised}
use django_absurd.Json.{Json, null, text, arr, obj}
use django_absurd.Deferred.{Imported, imported_task, imported_value}

-- What an import found.
abbrev pub validate_imported : Result Imported → Result (Unit {0})
validate_imported (ok (imported_task _)) = ok tt
validate_imported (ok imported_value) = raised (validation_error "not_a_task")
validate_imported (raised e) =
    if is_exception e then raised (validation_error "task_import") else raised e

-- `import_string` of what is no text raises an `AttributeError`.
unfoldable pub validate_task_path : (String → Result Imported) → Json → Result (Unit {0})
validate_task_path import_string (text path) = validate_imported (import_string path)
validate_task_path import_string _ = raised (validation_error "task_import")

-- `is_serializable` is whether `json.dumps` returns.
unfoldable pub validate_serializable : (Json → Bool) → Json → Result (Unit {0})
validate_serializable is_serializable value =
    if is_serializable value then ok tt else raised (validation_error "")

unfoldable pub validate_args_is_list : Json → Result (Unit {0})
validate_args_is_list (arr _) = ok tt
validate_args_is_list _ = raised (validation_error "")

unfoldable pub validate_kwargs_is_dict : Json → Result (Unit {0})
validate_kwargs_is_dict (obj _) = ok tt
validate_kwargs_is_dict _ = raised (validation_error "")

unfoldable pub validate_headers_is_object : Json → Result (Unit {0})
validate_headers_is_object null = ok tt
validate_headers_is_object (obj _) = ok tt
validate_headers_is_object _ = raised (validation_error "")
