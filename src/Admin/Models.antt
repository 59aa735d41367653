-- ===== src/Admin/Models.antt =====
-- The models that django_absurd/admin_views.py builds, over the registry `PRIVATE_ADMIN_APPS`.
use Prim.Native.Char.{code}
use django_absurd.Prelude.{
  String, Bool, true, false, ◌&&◌, Option, none, some, List, [], ◌∷◌, ◌<>◌, Dict, ◌==◌,
  if◌then◌else◌, nat_beq,
}
use django_absurd.Prelude.Dicts
use django_absurd.Exceptions.{queue_read_only}
use django_absurd.Effect.{Run, throw}
use django_absurd.Admin.{ColumnType, uuid, text, int, jsonb, timestamptz, EntitySpec, tasks_spec}

pub data FieldClass : Type 0 where
  uuid_field text_field integer_field json_field date_time_field : FieldClass

-- A field of a model: of its own column, or a foreign key without a constraint.
pub data Field : Type 0 where
  own : FieldClass → (primary_key null unique has_choices : Bool) → Field
  foreign_key : (model_name to_field db_column related_name : String) → Field

pub record Model : Type 0 where
  pub model_name : String
  pub fields : Dict Field
  pub db_table : List String

-- The models of the registry, by their names in lower case.
abbrev pub Registry : Type 0
Registry = Dict Model

-- `FIELD_TYPE_MAP`
abbrev pub field_type : ColumnType → FieldClass
field_type uuid = uuid_field
field_type text = text_field
field_type int = integer_field
field_type jsonb = json_field
field_type timestamptz = date_time_field

unfoldable pub make_field : ColumnType → Field
make_field col_type = own (field_type col_type) false true false false

-- `save` and `delete` of every model.
unfoldable pub raise_view_read_only : {W A : Type 0} → Run W A
raise_view_read_only = throw queue_read_only

-- The related name of an entity's rows at their task, where they have one.
abbrev related_name : String → Option String
related_name name =
    if name == "runs"
    then some "runs"
    else if name == "checkpoints"
    then some "checkpoints"
    else if name == "waits"
    then some "waits"
    else none

unfoldable pub plain_field : EntitySpec → String → ColumnType → String × Field
plain_field spec col_name col_type =
    if spec.has_state && (col_name == "state")
    then (col_name, own text_field false true false true)
    else (col_name, make_field col_type)

abbrev or_plain : Option String → String × Field → String × Field
or_plain none plain = plain
or_plain (some related) plain =
    ("task", foreign_key tasks_spec.model_name "task_id" "task_id" related)

unfoldable pub build_model_field : EntitySpec → String → ColumnType → String × Field
build_model_field spec col_name col_type =
    let plain = plain_field spec col_name col_type in
    if (spec.name == "tasks") && (col_name == "task_id")
    then ("task_id", own uuid_field false true true false)
    else if col_name == "task_id"
    then or_plain (related_name spec.name) plain
    else plain

unfoldable pub put_fields : EntitySpec → List (String × ColumnType) → Dict Field → Dict Field
put_fields spec [] fields = fields
put_fields spec ((col_name, col_type) ∷ columns) fields =
    let (field_name, field) = build_model_field spec col_name col_type in
    put_fields spec columns (Dicts.put field_name field fields)

unfoldable pub admin_fields : EntitySpec → Dict Field
admin_fields spec = put_fields spec spec.columns (
    ("natural_key", own text_field true false false false)
    ∷ ("queue", own text_field false false false false)
    ∷ [])

abbrev admin_model : EntitySpec → Model
admin_model spec = record {
  model_name = spec.model_name;
  fields = admin_fields spec;
  db_table = "absurd" ∷ spec.view_name ∷ [];
}

-- `queue.replace("-", "_")`
unfoldable pub sanitized : String → String
sanitized String.[] = String.[]
sanitized (String.◌∷◌ c s) =
    let rest = sanitized s in if nat_beq (code c) b'-' then "_" <> rest else String.◌∷◌ c rest

unfoldable pub put_table_fields :
    (pk_col_name : String) → List (String × ColumnType) → Dict Field → Dict Field
put_table_fields pk_col_name [] fields = fields
put_table_fields pk_col_name ((col_name, col_type) ∷ columns) fields =
    let field =
      if col_name == pk_col_name
      then own (field_type col_type) true false false false
      else make_field col_type in
    put_table_fields pk_col_name columns (Dicts.put col_name field fields)

-- The first column, `spec.columns[0]`, is the primary key; every entity has columns.
abbrev pub table_fields : List (String × ColumnType) → Dict Field
table_fields [] = []
table_fields ((pk_col_name, col_type) ∷ columns) =
    put_table_fields pk_col_name ((pk_col_name, col_type) ∷ columns) []

abbrev is_foreign : Field → Bool
is_foreign (foreign_key _ _ _ _) = true
is_foreign (own _ _ _ _ _) = false

-- `lower` is Python's.
module _ (lower : String → String) where
  -- A model of the registry, or the one that is built and registered.
  abbrev registered : String → Model → Registry → Model × Registry
  registered key model registry = elim (Dicts.get key registry) [
    | some existing ↦ (existing, registry)
    | none ↦ (model, Dicts.put key model registry)
  ]

  -- The foreign keys of an entity build the model of the tasks, which itself has none.
  unfoldable pub build_targets : EntitySpec → List (String × ColumnType) → Registry → Registry
  build_targets spec [] registry = registry
  build_targets spec ((col_name, col_type) ∷ columns) registry = build_targets spec columns (
      if is_foreign (build_model_field spec col_name col_type).1
      then (registered (lower tasks_spec.model_name) (admin_model tasks_spec) registry).1
      else registry)

  unfoldable pub build_admin_model : EntitySpec → Registry → Model × Registry
  build_admin_model spec registry = elim (Dicts.get (lower spec.model_name) registry) [
    | some existing ↦ (existing, registry)
    | none ↦
        registered (lower spec.model_name) (admin_model spec)
          (build_targets spec spec.columns registry)
  ]

  unfoldable pub build_queue_table_model : EntitySpec → String → Registry → Model × Registry
  build_queue_table_model spec queue registry =
      let model_name = "QueueTable_" <> spec.prefix <> "_" <> sanitized queue in
      registered (lower model_name)
        (record {
          model_name = model_name;
          fields = table_fields spec.columns;
          db_table = "absurd" ∷ (spec.prefix <> "_" <> queue) ∷ [];
        })
        registry
