-- ===== src/Admin/Views.antt =====
-- The union views of django_absurd/admin_views.py.
use django_absurd.Prelude.{String, ◌&&◌, List, [], ◌∷◌, ◌++◌, ◌<>◌, map, ◌==◌, if◌then◌else◌}
use django_absurd.Exceptions.{Exception, operational_error, programming_error, view_not_provisioned}
use django_absurd.Effect.{Run, pure, throw, try_except, ◌>>=◌, ◌>>◌}
use django_absurd.Admin.{
  ColumnType, uuid, text, int, jsonb, timestamptz, sql, literal, identifier, Composable, EntitySpec,
  admin_entity_specs,
}

-- `psycopg.sql.SQL(separator).join(parts)`
abbrev pub join : String → List Composable → Composable
join separator [] = []
join separator (part ∷ []) = part
join separator (part ∷ next ∷ parts) = part ++ (sql separator ∷ join separator (next ∷ parts))

unfoldable pub compose_column_expr : EntitySpec → String → Composable
compose_column_expr spec col =
    if (spec.name == "runs") && (col == "available_at")
    then sql "nullif("
      ∷ identifier (col ∷ [])
      ∷ sql ", 'infinity'::timestamptz) AS "
      ∷ identifier (col ∷ [])
      ∷ []
    else identifier (col ∷ []) ∷ []

unfoldable pub compose_queue_arm : EntitySpec → String → Composable
compose_queue_arm spec queue =
    (sql "SELECT "
      ∷ literal queue
      ∷ sql "::text AS queue, "
      ∷ literal queue
      ∷ sql "::text || ':' || "
      ∷ [])
    ++ (spec.natural_key_sql
        ++ ((sql " AS natural_key, " ∷ [])
            ++ (join ", " (map (λ (col, _). compose_column_expr spec col) spec.columns)
                ++ (sql " FROM "
                    ∷ identifier ("absurd" ∷ (spec.prefix <> "_" <> queue) ∷ [])
                    ∷ []))))

-- `SQL_TYPE_NULLS`
abbrev pub sql_type_null : ColumnType → String
sql_type_null uuid = "NULL::uuid"
sql_type_null text = "NULL::text"
sql_type_null int = "NULL::int"
sql_type_null jsonb = "NULL::jsonb"
sql_type_null timestamptz = "NULL::timestamptz"

abbrev null_part : String × ColumnType → Composable
null_part (col_name, col_type) =
    sql (sql_type_null col_type) ∷ sql " AS " ∷ identifier (col_name ∷ []) ∷ []

unfoldable pub compose_empty_arm : EntitySpec → Composable
compose_empty_arm spec =
    (sql "SELECT NULL::text AS queue, NULL::text AS natural_key, " ∷ [])
    ++ (join ", " (map null_part spec.columns) ++ (sql " WHERE false" ∷ []))

abbrev pub view_body : EntitySpec → List String → Composable
view_body spec [] = compose_empty_arm spec
view_body spec (queue ∷ queues) = join " UNION ALL " (map (compose_queue_arm spec) (queue ∷ queues))

unfoldable pub build_union_view_sql : EntitySpec → List String → Composable
build_union_view_sql spec queues =
    let view = identifier ("absurd" ∷ spec.view_name ∷ []) in
    (sql "DROP VIEW IF EXISTS "
      ∷ view
      ∷ sql ";"
      ∷ sql "\n"
      ∷ sql "CREATE VIEW "
      ∷ view
      ∷ sql " AS "
      ∷ [])
    ++ view_body spec queues

-- `translate_view_errors`
unfoldable pub translate_view_errors : {W A : Type 0} → Run W A → Run W A
translate_view_errors fn = try_except fn (λ e. throw (as_view_error e))
  where
    as_view_error : Exception → Exception
    as_view_error operational_error = view_not_provisioned
    as_view_error (programming_error _) = view_not_provisioned
    as_view_error e = e

-- `execute` runs a composed statement on the database of an alias, `select_queues` is the catalog's
-- `SELECT queue_name … ORDER BY queue_name`, `atomic` Django's transaction round a block.
module _ {W : Type 0} (select_queues : String → Run W (List String))
    (execute : String → Composable → Run W (Unit {0}))
    (atomic : String → Run W (Unit {0}) → Run W (Unit {0})) where
  unfoldable pub fetch_catalog_queues : String → Run W (List String)
  fetch_catalog_queues using = select_queues using

  unfoldable pub rebuild_admin_view : EntitySpec → List String → String → Run W (Unit {0})
  rebuild_admin_view spec queues using =
      atomic using (execute using (build_union_view_sql spec queues))

  unfoldable pub rebuild_each : List EntitySpec → List String → String → Run W (Unit {0})
  rebuild_each [] queues using = pure tt
  rebuild_each (spec ∷ specs) queues using = do
    rebuild_admin_view spec queues using
    rebuild_each specs queues using

  unfoldable pub rebuild_views : String → Run W (Unit {0})
  rebuild_views using = do
    queues ← fetch_catalog_queues using
    atomic using (rebuild_each admin_entity_specs queues using)
