-- ===== src/Tests/Databases.antt =====
-- Tests of queues.py, over a database that holds its queues' rows.
use django_absurd.Prelude.{
  String, ◌≡◌, refl, Bool, true, false, ◌&&◌, Option, none, some, [], ◌∷◌, Dict, with_default,
  nat_beq, if◌then◌else◌, ◌==◌, eq_refl, Bool-cases, inl, inr, contains,
}
use django_absurd.Prelude.Dicts
use django_absurd.Effect.{Result, ok, raised, raised-ne-ok, pure}
use mathlib.Core.Bool.{false≢true}
use django_absurd.Exceptions.{other}
use django_absurd.Json.{Json, number, null}
use django_absurd.Queues.{
  interval_option_keys, mutable_option_keys, Database, QueueRow, SyncResult, agrees,
  check_mutable_options_drifted, mutable_options, plan_from, plan_queue, apply_queue_plan,
  reconcile_with, summarize_queue_plans, require_installed_schema,
}
use django_absurd.Queues.Provision.{Sdk, IsCanonical, Stored, nothing_to_do, reconcile_with-settles}

abbrev pub Rows : Type 0
Rows = String → Option QueueRow

abbrev same_number : Json → Json → Bool
same_number (number a) (number b) = nat_beq a b
same_number _ _ = false

abbrev pub over : Dict Json → QueueRow → QueueRow
over opts old key = with_default (old key) (Dicts.get key opts)

abbrev pub empty_row : QueueRow
empty_row _ = null

abbrev old_row : Option QueueRow → QueueRow
old_row = with_default empty_row

-- The values that a row does not take are refused.
abbrev pub takes : Dict Json → QueueRow → Bool
takes [] existing = true
takes ((key, value) ∷ opts) existing = same_number value (existing key) && takes opts existing

abbrev pub write : String → QueueRow → Rows → Rows
write q row rows j = if q == j then some row else rows j

abbrev pub set_row : Dict Json → String → QueueRow → Rows → Result (Unit {0}) × Rows
set_row opts q row rows =
    if takes opts row then (ok tt, write q row rows) else (raised (other 1), rows)

abbrev pub create : String → Dict Json → Rows → Result (Unit {0}) × Rows
create q opts rows = elim (rows q) [
  | none ↦ set_row opts q (over opts empty_row) rows
  | some existing ↦ (ok tt, rows)
]

abbrev pub set_policy : String → Dict Json → Rows → Result (Unit {0}) × Rows
set_policy q opts rows = elim (rows q) [
  | none ↦ (raised (other 1), rows)
  | some existing ↦ set_row opts q (over opts existing) rows
]

abbrev pub held : Database Rows
held = record {
  connections = record { ensure_connection = λ _. pure tt; is_psycopg = λ _. pure true };
  schema_absent = λ _. false;
  row = λ q rows. rows q;
  missing = λ _ _. [];
  parse_interval = λ v. v;
  same = same_number;
  create_queue = create;
  set_queue_policy = set_policy;
}

either_way : (b : Bool) {x : Bool} → x ≡ true → (if b then x else x) ≡ true
either_way true h = h
either_way false h = h

takes-Stored : (opts : Dict Json) (row : QueueRow) → takes opts row ≡ true → Stored held opts row
unfolding agrees
takes-Stored [] row h = tt
takes-Stored ((key, value) ∷ opts) row h = elim (Bool-cases (same_number value (row key))) [
  | inl is ↦ (either_way (contains interval_option_keys key) is, takes-Stored opts row (rw is at h))
  | inr isnt ↦ absurd (false≢true (rw isnt at h))
]

mutable-Stored :
    (opts : Dict Json) (row : QueueRow)
    → Stored held opts row
    → Stored held (mutable_options held opts) row
unfolding mutable_options
mutable-Stored [] row h = tt
mutable-Stored ((key, value) ∷ opts) row h = elim (Bool-cases (contains mutable_option_keys key)) [
  | inl is ↦ rw is (h.0, mutable-Stored opts row h.1)
  | inr isnt ↦ rw isnt (mutable-Stored opts row h.1)
]

set_row-writes :
    (opts : Dict Json) (q : String) (row : QueueRow) (rows : Rows)
    → (set_row opts q row rows).0 ≡ ok tt
    → ((set_row opts q row rows).1 q ≡ some row) × Stored held opts row
set_row-writes opts q row rows h = elim (Bool-cases (takes opts row)) [
  | inl t ↦ rw (t, eq_refl q) (refl, takes-Stored opts row t)
  | inr f ↦ absurd (raised-ne-ok (rw f at h))
]

create_new :
    (q : String) (o : Dict Json) (rows : Rows)
    → IsCanonical (mutable_options held o)
    → rows q ≡ none
    → (create q o rows).0 ≡ ok tt
    → (existing : QueueRow) × ((create q o rows).1 q ≡ some existing)
      × Stored held (mutable_options held o) existing
create_new q o rows canonical new done =
    let (row, stored) = set_row-writes o q (over o empty_row) rows (rw (create, new) at done) in
    (over o empty_row, rw (create, new) row, mutable-Stored o _ stored)

create_old :
    (q : String) (o : Dict Json) (rows : Rows) (existing : QueueRow)
    → rows q ≡ some existing
    → (create q o rows).1 q ≡ some existing
create_old q o rows existing old = rw (create, old) old

set_policy_row :
    (q : String) (o : Dict Json) (rows : Rows) (existing : QueueRow)
    → IsCanonical o
    → rows q ≡ some existing
    → (set_policy q o rows).0 ≡ ok tt
    → (now : QueueRow) × ((set_policy q o rows).1 q ≡ some now) × Stored held o now
set_policy_row q o rows existing canonical old done =
    let (row, stored) = set_row-writes o q (over o existing) rows (rw (set_policy, old) at done) in
    (over o existing, rw (set_policy, old) row, stored)

pub held-Sdk : Sdk held
held-Sdk = record {
  create_schema = λ q o w. refl;
  create_new = create_new;
  create_old = λ q o w existing old done. create_old q o w existing old;
  create_tables = λ q o w done. refl;
  policy_schema = λ q o w. refl;
  policy_row = set_policy_row;
  policy_tables = λ q o w. refl;
}

-- A queue whose limit was 3 and is declared as 5.
abbrev pub rows_before : Rows
rows_before = write "reports" (over (("cleanup_limit", number 3) ∷ []) empty_row) (λ _. none)

abbrev declared : Dict Json
declared = ("storage_mode", number 1) ∷ ("cleanup_limit", number 5) ∷ []

abbrev reported_sync : SyncResult
reported_sync = record { created = []; reconciled = "reports" ∷ []; repaired = [] }

reconciled : (reconcile_with held "reports" declared rows_before).0 ≡ ok reported_sync
unfolding reconcile_with plan_queue require_installed_schema plan_from check_mutable_options_drifted
    agrees mutable_options apply_queue_plan summarize_queue_plans Dicts.get
reconciled = refl

reconcile_with-settles_example :
    (reported_sync
      ≡ summarize_queue_plans held
          (plan_from held "reports" declared (rows_before "reports") [] ∷ []))
    × (let rows = (reconcile_with held "reports" declared rows_before).1 in
        plan_from held "reports" declared (rows "reports") [] ≡ nothing_to_do held "reports")
unfolding mutable_options
reconcile_with-settles_example =
    reconcile_with-settles held held-Sdk "reports" declared (refl, tt) rows_before reconciled
