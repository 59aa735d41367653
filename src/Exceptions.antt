-- ===== src/Exceptions.antt =====
-- django_absurd/exceptions.py, and the other exceptions that the package raises or tells apart.
-- An exception keeps the values that a handler or a reader tells it by; message wording is left out.
use django_absurd.Prelude.{ℕ, String, List, Bool, true, false, ◌≡◌, refl}

-- What a `TypeError` of params.py is about, or that of test.py, whose instant has no offset.
pub data Complaint : Type 0 where
  routing_keyword invalid_argument : String → Complaint
  bind_takes_task decorator_above_task naive_instant : Complaint
  per_invocation_only : List String → Complaint

pub data Exception : Type 0 where
  -- django_absurd.exceptions
  queue_not_declared : (queue alias : String) (valid_queues : List String) → Exception
  queue_not_provisioned : String → Exception
  schema_not_installed backend_not_configured multiple_backends_configured queue_read_only
        view_not_provisioned :
      Exception
  -- Python's and Django's
  type_error : Complaint → Exception
  import_error key_error attribute_error improperly_configured invalid_task operational_error
        timeout_error runtime_error lookup_error value_error eof_error connection_does_not_exist
        internal_error :
      Exception
  result_does_not_exist : String → Exception
  -- `validation_error code`
  validation_error : String → Exception
  not_implemented : Exception
  -- django.core.management.base.CommandError: the translation of its `__cause__`, and those that the
  -- commands raise of themselves, by their message's name
  command_error : Exception → Exception
  refusal : String → Exception
  -- A conversion such as `list(value)` or `str(value)` of a value of another shape than the code
  -- expects; what Python makes of such a value is left out.
  bad_shape : Exception
  -- django.db.utils.ProgrammingError, with its `__cause__`
  programming_error : Exception → Exception
  -- any other django.db.utils.DatabaseError, with its `__cause__`
  database_error : Exception → Exception
  -- psycopg.errors, `undefined_table message_primary`
  undefined_table : String → Exception
  undefined_function invalid_schema_name : Exception
  -- any other psycopg.Error, by its SQLSTATE
  psycopg_error : String → Exception
  -- absurd_sdk's control flow
  suspend_task cancelled_task failed_task : Exception
  -- asyncio.CancelledError, a `BaseException` and no `Exception`
  cancelled_error : Exception
  other : ℕ → Exception

-- `isinstance(exc, Exception)`
abbrev pub is_exception : Exception → Bool
is_exception cancelled_error = false
is_exception _ = true

-- `isinstance(exc, (SuspendTask, CancelledTask, FailedTask))`
abbrev pub is_sdk_control : Exception → Bool
is_sdk_control suspend_task = true
is_sdk_control cancelled_task = true
is_sdk_control failed_task = true
is_sdk_control _ = false

-- `isinstance(exc, TimeoutError)`
abbrev pub is_timeout : Exception → Bool
is_timeout timeout_error = true
is_timeout _ = false

-- `isinstance(exc, ImportError)`
abbrev pub is_import_error : Exception → Bool
is_import_error import_error = true
is_import_error _ = false

-- `isinstance(exc, psycopg.Error)`
abbrev pub is_psycopg_error : Exception → Bool
is_psycopg_error (undefined_table _) = true
is_psycopg_error undefined_function = true
is_psycopg_error invalid_schema_name = true
is_psycopg_error (psycopg_error _) = true
is_psycopg_error _ = false

-- `isinstance(exc, django.db.DatabaseError)`
abbrev pub is_database_error : Exception → Bool
is_database_error operational_error = true
is_database_error internal_error = true
is_database_error (programming_error _) = true
is_database_error (database_error _) = true
is_database_error _ = false

-- Only a `BaseException` is no `Exception`.
pub not_exception : (e : Exception) → is_exception e ≡ false → e ≡ cancelled_error
not_exception cancelled_error h = refl
not_exception _ h = cc
