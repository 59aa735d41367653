-- ===== src/Admin/Quoting.antt =====
-- What the names of queues do to the statements of the admin's views.
use django_absurd.Prelude.{
  String, ◌≡◌, refl, sym, ap, ap₂, ◌∙◌, List, [], ◌∷◌, ◌++◌, map, length, arith,
}
use mathlib.Core.List.{map-append}
use django_absurd.Admin.{Piece, sql, literal, identifier, Composable, EntitySpec}
use django_absurd.Admin.Views.{
  join, compose_column_expr, compose_queue_arm, view_body, build_union_view_sql,
}

-- A piece without what it quotes.
abbrev pub unquoted : Piece → Piece
unquoted (sql text) = sql text
unquoted (literal _) = literal ""
unquoted (identifier parts) = identifier []

abbrev pub shape : Composable → Composable
shape = map unquoted

shape-after : (xs ys zs : Composable) → shape ys ≡ shape zs → shape (xs ++ ys) ≡ shape (xs ++ zs)
shape-after xs ys zs h =
    map-append unquoted xs ys ∙ ap (λ r. shape xs ++ r) h ∙ sym (map-append unquoted xs zs)

shape-append :
    (xs xs' ys ys' : Composable)
    → shape xs ≡ shape xs'
    → shape ys ≡ shape ys'
    → shape (xs ++ ys) ≡ shape (xs' ++ ys')
shape-append xs xs' ys ys' h k =
    map-append unquoted xs ys ∙ ap₂ (λ a b. a ++ b) h k ∙ sym (map-append unquoted xs' ys')

arm-shape :
    (spec : EntitySpec) (queue other : String)
    → shape (compose_queue_arm spec queue) ≡ shape (compose_queue_arm spec other)
unfolding compose_queue_arm
arm-shape spec queue other =
    let columns = join ", " (map (λ (col, _). compose_column_expr spec col) spec.columns) in
    ap
      (λ r.
        sql "SELECT "
        ∷ literal ""
        ∷ sql "::text AS queue, "
        ∷ literal ""
        ∷ sql "::text || ':' || "
        ∷ r)
      (shape-after spec.natural_key_sql _ _
        (ap (λ r. sql " AS natural_key, " ∷ r) (shape-after columns _ _ refl)))

arms-shape :
    (spec : EntitySpec) (queues others : List String)
    → length queues ≡ length others
    → shape (join " UNION ALL " (map (compose_queue_arm spec) queues))
      ≡ shape (join " UNION ALL " (map (compose_queue_arm spec) others))
arms-shape spec [] [] h = refl
arms-shape spec (q ∷ []) (o ∷ []) h = arm-shape spec q o
arms-shape spec (q ∷ r ∷ queues) (o ∷ p ∷ others) h =
    shape-append (compose_queue_arm spec q) (compose_queue_arm spec o) _ _ (arm-shape spec q o) (
      ap (λ rest. sql " UNION ALL " ∷ rest)
        (arms-shape spec (r ∷ queues) (p ∷ others) (omega (arith, h))))
arms-shape spec [] (_ ∷ _) h = absurd (omega (arith, h))
arms-shape spec (_ ∷ _) [] h = absurd (omega (arith, h))
arms-shape spec (_ ∷ []) (_ ∷ _ ∷ _) h = absurd (omega (arith, h))
arms-shape spec (_ ∷ _ ∷ _) (_ ∷ []) h = absurd (omega (arith, h))

body-shape :
    (spec : EntitySpec) (queues others : List String)
    → length queues ≡ length others
    → shape (view_body spec queues) ≡ shape (view_body spec others)
body-shape spec [] [] h = refl
body-shape spec (q ∷ queues) (o ∷ others) h = arms-shape spec (q ∷ queues) (o ∷ others) h
body-shape spec [] (_ ∷ _) h = absurd (omega (arith, h))
body-shape spec (_ ∷ _) [] h = absurd (omega (arith, h))

-- The names of the queues reach a view's statement only as quoted literals and identifiers: the
-- statements for two catalogs with as many queues differ in nothing else.
pub build_union_view_sql-shape :
    (spec : EntitySpec) (queues others : List String)
    → length queues ≡ length others
    → shape (build_union_view_sql spec queues) ≡ shape (build_union_view_sql spec others)
unfolding build_union_view_sql
build_union_view_sql-shape spec queues others h =
    let view = identifier ("absurd" ∷ spec.view_name ∷ []) in
    shape-after
      (sql "DROP VIEW IF EXISTS "
        ∷ view
        ∷ sql ";"
        ∷ sql "\n"
        ∷ sql "CREATE VIEW "
        ∷ view
        ∷ sql " AS "
        ∷ [])
      (view_body spec queues) (view_body spec others) (body-shape spec queues others h)
