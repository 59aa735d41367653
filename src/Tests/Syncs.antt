-- ===== src/Tests/Syncs.antt =====
-- Tests of a whole sync, over the database of Tests/Databases.
use django_absurd.Prelude.{true, false}
use django_absurd.Prelude.{
  String, ◌≡◌, ◌≢◌, refl, Option, none, some, [], ◌∷◌, Dict, All, eq_iff, Bool-cases, inl, inr,
  ◌==◌, subst,
}
use mathlib.Core.Bool.{false≢true}
use django_absurd.Prelude.Dicts
use django_absurd.Effect.{ok, ok-injective}
use django_absurd.Json.{Json, number, object}
use django_absurd.Backend.{Backend, get_declared_queues}
use django_absurd.Queues.{
  QueueRow, agrees, check_mutable_options_drifted, mutable_options, plan_from, plan_queue,
  apply_queue_plan, reconcile_with, summarize_queue_plans, require_installed_schema,
  declared_options, reconcile_queue, sync_names, sync_queues,
}
use django_absurd.Connection.{validate_backend}
use django_absurd.Queues.Provision.{IsCanonical}
use django_absurd.Queues.Sync.{Apart, DeclaresCanonical, IsProvisioned, sync_queues-IsProvisioned}
use django_absurd.Effect.{Run, pure}
use django_absurd.Queues.{SyncResult}
use django_absurd.Queues.Boot.{provision_backend, lock_provisioning}
use django_absurd.Commands.Sync.{Report, sync_backends, report_sync_result, handle}
use django_absurd.Commands.InSync.{Transacts, check-after_sync}
use django_absurd.Tests.Databases.{
  Rows, takes, set_row, write, create, set_policy, held, held-Sdk, over, empty_row, rows_before,
}

mail_apart : ◌≢◌ {A = String} "mail" "reports"
mail_apart e = false≢true ((eq_iff "mail" "reports").1 e)

write-apart :
    (name q : String) (row : QueueRow) (rows : Rows) → name ≢ q → write name row rows q ≡ rows q
write-apart name q row rows other = elim (Bool-cases (name == q)) [
  | inl same ↦ absurd (other ((eq_iff name q).0 same))
  | inr apart ↦ rw apart refl
]

set_row-apart :
    (o : Dict Json) (name q : String) (row : QueueRow) (rows : Rows)
    → name ≢ q
    → (set_row o name row rows).1 q ≡ rows q
set_row-apart o name q row rows other = elim (Bool-cases (takes o row)) [
  | inl t ↦ rw t (write-apart name q row rows other)
  | inr f ↦ rw f refl
]

create-apart :
    (name q : String) (o : Dict Json) (rows : Rows) → name ≢ q → (create name o rows).1 q ≡ rows q
create-apart name q o rows other = by_row (rows name) refl
  where
    by_row : (found : Option QueueRow) → rows name ≡ found → (create name o rows).1 q ≡ rows q
    by_row none e = rw (create, e) (set_row-apart o name q (over o empty_row) rows other)
    by_row (some existing) e = rw (create, e) refl

set_policy-apart :
    (name q : String) (o : Dict Json) (rows : Rows)
    → name ≢ q
    → (set_policy name o rows).1 q ≡ rows q
set_policy-apart name q o rows other = by_row (rows name) refl
  where
    by_row : (found : Option QueueRow) → rows name ≡ found → (set_policy name o rows).1 q ≡ rows q
    by_row none e = rw (set_policy, e) refl
    by_row (some existing) e =
        rw (set_policy, e) (set_row-apart o name q (over o existing) rows other)

held-Apart : Apart held
held-Apart = record {
  create = λ name q o other w. (create-apart name q o w other, refl);
  policy = λ name q o other w. (set_policy-apart name q o w other, refl);
  ensure = λ alias q w. (refl, refl);
  driver = λ alias q w. (refl, refl);
}

-- Two queues, of which one is there with another limit.
abbrev backend : Backend
backend = record {
  alias = "default";
  options =
      (
        "QUEUES",
        object (("reports", object (("cleanup_limit", number 5) ∷ [])) ∷ ("mail", object []) ∷ []),
      )
      ∷ [];
  queues = "reports" ∷ "mail" ∷ [];
  database = "default";
  default_max_attempts = number 5;
}

declares : All (DeclaresCanonical held backend) ("reports" ∷ "mail" ∷ [])
unfolding declared_options get_declared_queues mutable_options Dicts.get
declares = (
  λ opts e. subst (λ o. IsCanonical (mutable_options held o)) (ok-injective e) (refl, tt),
  (λ opts e. subst (λ o. IsCanonical (mutable_options held o)) (ok-injective e) tt, tt),
)

synced :
    (sync_queues held backend rows_before).0
    ≡ ok (record { created = "mail" ∷ []; reconciled = "reports" ∷ []; repaired = [] })
unfolding sync_queues sync_names reconcile_queue declared_options get_declared_queues
    validate_backend reconcile_with plan_queue require_installed_schema plan_from
    check_mutable_options_drifted agrees mutable_options apply_queue_plan summarize_queue_plans
    Dicts.get
synced = refl

sync_queues-IsProvisioned_example :
    All
      (IsProvisioned held backend (sync_queues held backend rows_before).1)
      ("reports" ∷ "mail" ∷ [])
unfolding get_declared_queues Dicts.get
sync_queues-IsProvisioned_example =
    sync_queues-IsProvisioned held held-Sdk held-Apart backend rows_before
      ((mail_apart, tt), (tt, tt)) declares synced

abbrev at_once : String → Run Rows SyncResult → Run Rows SyncResult
at_once using m = m

abbrev idle : Run Rows (Unit {0})
idle = pure tt

abbrev unheard : Option String → Report → Run Rows (Unit {0})
unheard label line = pure tt

at_once_transacts : Transacts held at_once idle (λ using. idle) unheard
at_once_transacts = record {
  commits = λ using m w h. (h, λ q. (refl, refl));
  rebuilds = λ using q w. (refl, refl);
  says = λ label line w. refl;
  says_only = λ label line q w. (refl, refl);
}

abbrev sync : Run Rows (Unit {0})
sync = handle held at_once idle (λ using. idle) unheard false (backend ∷ [])

check-after_sync_example :
    (handle held at_once idle (λ using. idle) unheard true (backend ∷ []) (sync rows_before).1).0
    ≡ ok tt
unfolding handle sync_backends report_sync_result provision_backend lock_provisioning sync_queues
    sync_names reconcile_queue declared_options get_declared_queues validate_backend reconcile_with
    plan_queue require_installed_schema plan_from check_mutable_options_drifted agrees
    mutable_options apply_queue_plan summarize_queue_plans Dicts.get
check-after_sync_example =
    check-after_sync held at_once idle (λ using. idle) unheard at_once_transacts held-Sdk held-Apart
      backend rows_before ((mail_apart, tt), (tt, tt)) declares refl refl refl
