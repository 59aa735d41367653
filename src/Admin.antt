-- ===== src/Admin.antt =====
-- django_absurd/admin_views.py: the five kinds of rows that the admin shows, one union view for each.
pub mod Views
pub mod Models
pub mod Tables
pub mod Columns
pub mod Quoting
use django_absurd.Prelude.{String, Bool, true, false, List, [], ◌∷◌}

-- A column's type, by its name in `FIELD_TYPE_MAP` and `SQL_TYPE_NULLS`.
pub data ColumnType : Type 0 where
  uuid text int jsonb timestamptz : ColumnType

-- A composed statement of `psycopg.sql`: texts, quoted identifiers and quoted literals.
pub data Piece : Type 0 where
  sql literal : String → Piece
  identifier : List String → Piece

abbrev pub Composable : Type 0
Composable = List Piece

pub record EntitySpec : Type 0 where
  pub name : String
  pub prefix : String
  pub view_name : String
  pub model_name : String
  pub verbose : String
  pub natural_key_sql : Composable
  pub ordering : List String
  pub columns : List (String × ColumnType)
  pub has_state : Bool
  pub list_display : List String
  pub search_fields : List String

abbrev pub tasks_spec : EntitySpec
tasks_spec = record {
  name = "tasks";
  prefix = "t";
  view_name = "tasks_view";
  model_name = "Task";
  verbose = "task";
  natural_key_sql = sql "task_id::text" ∷ [];
  ordering = "-task_id" ∷ [];
  columns =
      ("task_id", uuid)
      ∷ ("task_name", text)
      ∷ ("params", jsonb)
      ∷ ("headers", jsonb)
      ∷ ("retry_strategy", jsonb)
      ∷ ("max_attempts", int)
      ∷ ("cancellation", jsonb)
      ∷ ("enqueue_at", timestamptz)
      ∷ ("first_started_at", timestamptz)
      ∷ ("state", text)
      ∷ ("attempts", int)
      ∷ ("last_attempt_run", uuid)
      ∷ ("completed_payload", jsonb)
      ∷ ("cancelled_at", timestamptz)
      ∷ ("idempotency_key", text)
      ∷ [];
  has_state = true;
  list_display =
      "natural_key" ∷ "queue" ∷ "task_name" ∷ "state" ∷ "attempts" ∷ "enqueue_at"
      ∷ "first_started_at" ∷ [];
  search_fields = "task_id" ∷ "task_name" ∷ [];
}

abbrev pub runs_spec : EntitySpec
runs_spec = record {
  name = "runs";
  prefix = "r";
  view_name = "runs_view";
  model_name = "Run";
  verbose = "run";
  natural_key_sql = sql "run_id::text" ∷ [];
  ordering = "-run_id" ∷ [];
  columns =
      ("run_id", uuid)
      ∷ ("task_id", uuid)
      ∷ ("attempt", int)
      ∷ ("state", text)
      ∷ ("claimed_by", text)
      ∷ ("claim_expires_at", timestamptz)
      ∷ ("available_at", timestamptz)
      ∷ ("wake_event", text)
      ∷ ("event_payload", jsonb)
      ∷ ("started_at", timestamptz)
      ∷ ("completed_at", timestamptz)
      ∷ ("failed_at", timestamptz)
      ∷ ("result", jsonb)
      ∷ ("failure_reason", jsonb)
      ∷ ("created_at", timestamptz)
      ∷ [];
  has_state = true;
  list_display =
      "natural_key" ∷ "queue" ∷ "task_id" ∷ "attempt" ∷ "state" ∷ "started_at" ∷ "completed_at"
      ∷ [];
  search_fields = "run_id" ∷ "task__task_id" ∷ "claimed_by" ∷ [];
}

abbrev pub checkpoints_spec : EntitySpec
checkpoints_spec = record {
  name = "checkpoints";
  prefix = "c";
  view_name = "checkpoints_view";
  model_name = "Checkpoint";
  verbose = "checkpoint";
  natural_key_sql = sql "task_id::text || ':' || checkpoint_name" ∷ [];
  ordering = "-task_id" ∷ "-checkpoint_name" ∷ [];
  columns =
      ("task_id", uuid)
      ∷ ("checkpoint_name", text)
      ∷ ("state", jsonb)
      ∷ ("status", text)
      ∷ ("owner_run_id", uuid)
      ∷ ("updated_at", timestamptz)
      ∷ [];
  has_state = false;
  list_display = "natural_key" ∷ "queue" ∷ "task_id" ∷ "checkpoint_name" ∷ "status" ∷ [];
  search_fields = "task__task_id" ∷ "checkpoint_name" ∷ [];
}

abbrev pub events_spec : EntitySpec
events_spec = record {
  name = "events";
  prefix = "e";
  view_name = "events_view";
  model_name = "Event";
  verbose = "event";
  natural_key_sql = sql "event_name::text" ∷ [];
  ordering = "natural_key" ∷ [];
  columns = ("event_name", text) ∷ ("payload", jsonb) ∷ ("emitted_at", timestamptz) ∷ [];
  has_state = false;
  list_display = "natural_key" ∷ "queue" ∷ "event_name" ∷ "emitted_at" ∷ [];
  search_fields = "event_name" ∷ [];
}

abbrev pub waits_spec : EntitySpec
waits_spec = record {
  name = "waits";
  prefix = "w";
  view_name = "waits_view";
  model_name = "Wait";
  verbose = "wait";
  natural_key_sql = sql "run_id::text || ':' || step_name" ∷ [];
  ordering = "-run_id" ∷ "-step_name" ∷ [];
  columns =
      ("task_id", uuid)
      ∷ ("run_id", uuid)
      ∷ ("step_name", text)
      ∷ ("event_name", text)
      ∷ ("timeout_at", timestamptz)
      ∷ ("created_at", timestamptz)
      ∷ [];
  has_state = false;
  list_display = "natural_key" ∷ "queue" ∷ "task_id" ∷ "run_id" ∷ "step_name" ∷ [];
  search_fields = "task__task_id" ∷ "run_id" ∷ "step_name" ∷ [];
}

abbrev pub admin_entity_specs : List EntitySpec
admin_entity_specs = tasks_spec ∷ runs_spec ∷ checkpoints_spec ∷ events_spec ∷ waits_spec ∷ []
