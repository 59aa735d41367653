-- ===== src/Tests/Admins.antt =====
-- Tests of the admin's views and models.
use django_absurd.Prelude.{◌≡◌, refl, sym, ap, ◌≢◌, ◌∙◌, eq_iff, ◌⊎◌, inl, inr, [], ◌∷◌, map, All}
use mathlib.Core.Bool.{false≢true}
use django_absurd.Prelude.Dicts
use django_absurd.Admin.{tasks_spec, runs_spec, admin_entity_specs}
use django_absurd.Admin.Views.{compose_queue_arm, compose_empty_arm, build_union_view_sql}
use django_absurd.Admin.Models.{admin_fields, build_queue_table_model, sanitized}
use django_absurd.Admin.Tables.{Request, key_of, table_of, build_all, build_all-tables}
use django_absurd.Admin.Columns.{arms-columns, column_of, column_names, select_list}
use django_absurd.Admin.Quoting.{build_union_view_sql-shape, shape}

arms-columns_example :
    All
      (λ spec.
        (select_list (compose_queue_arm spec "a'b")
          ≡ "queue" ∷ "natural_key" ∷ column_names spec.columns)
        × (select_list (compose_empty_arm spec)
            ≡ "queue" ∷ "natural_key" ∷ column_names spec.columns)
        × (map column_of (admin_fields spec) ≡ "natural_key" ∷ "queue" ∷ column_names spec.columns))
      admin_entity_specs
arms-columns_example = arms-columns "a'b"

build_union_view_sql-shape_example :
    shape (build_union_view_sql runs_spec ("a" ∷ "b" ∷ []))
    ≡ shape (build_union_view_sql runs_spec ("x'; --" ∷ "y" ∷ []))
build_union_view_sql-shape_example =
    build_union_view_sql-shape runs_spec ("a" ∷ "b" ∷ []) ("x'; --" ∷ "y" ∷ []) refl

-- The runs and the tasks of two queues, with the runs of the first asked for twice.
abbrev Asked : Request → Type 0
Asked r = (r ≡ (runs_spec, "mail-out")) ⊎ (r ≡ (tasks_spec, "reports"))

keys_differ : key_of (λ s. s) (runs_spec, "mail-out") ≢ key_of (λ s. s) (tasks_spec, "reports")
unfolding sanitized
keys_differ e = false≢true (
    (eq_iff (key_of (λ s. s) (runs_spec, "mail-out")) (key_of (λ s. s) (tasks_spec, "reports"))).1
      e)

Asked-apart :
    (r s : Request)
    → Asked r
    → Asked s
    → key_of (λ s. s) r ≡ key_of (λ s. s) s
    → table_of r ≡ table_of s
Asked-apart r s (inl a) (inl b) e = ap table_of (a ∙ sym b)
Asked-apart r s (inr a) (inr b) e = ap table_of (a ∙ sym b)
Asked-apart r s (inl a) (inr b) e =
    absurd (keys_differ (sym (ap (key_of (λ s. s)) a) ∙ e ∙ ap (key_of (λ s. s)) b))
Asked-apart r s (inr a) (inl b) e =
    absurd (keys_differ (sym (ap (key_of (λ s. s)) b) ∙ sym e ∙ ap (key_of (λ s. s)) a))

build_all-tables_example :
    build_all
      (λ s. s)
      ((runs_spec, "mail-out") ∷ (tasks_spec, "reports") ∷ (runs_spec, "mail-out") ∷ [])
      []
    ≡ ("absurd" ∷ "r_mail-out" ∷ [])
      ∷ ("absurd" ∷ "t_reports" ∷ [])
      ∷ ("absurd" ∷ "r_mail-out" ∷ [])
      ∷ []
build_all-tables_example =
    build_all-tables (λ s. s) Asked Asked-apart
      ((runs_spec, "mail-out") ∷ (tasks_spec, "reports") ∷ (runs_spec, "mail-out") ∷ [])
      (inl refl, (inr refl, (inl refl, tt)))

-- Two queues whose names differ by a dash get one table.
shared_table :
    build_all (λ s. s) ((tasks_spec, "mail-out") ∷ (tasks_spec, "mail_out") ∷ []) []
    ≡ ("absurd" ∷ "t_mail-out" ∷ []) ∷ ("absurd" ∷ "t_mail-out" ∷ []) ∷ []
unfolding build_all build_queue_table_model sanitized Dicts.get Dicts.put
shared_table = refl
