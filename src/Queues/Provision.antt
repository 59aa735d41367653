-- ===== src/Queues/Provision.antt =====
-- What provisioning leaves behind, and that the dry run and the write path agree.
use django_absurd.Prelude.{
  String, ◌≡◌, refl, sym, ◌∙◌, Bool, true, false, Option, none, some, List, [], ◌∷◌, Dict, All,
  if◌then◌else◌, arith, Bool-cases, inl, inr, ◌&&◌, ◌||◌, ◌==◌, contains,
}
use django_absurd.Exceptions.{schema_not_installed}
use django_absurd.Effect.{
  ok, raised, Run, pure, and_then, raised-ne-ok, ok-injective, >>=-eq-ok, ◌>>◌,
}
use django_absurd.Json.{Json, number, text}
use django_absurd.Queues.{
  interval_option_keys, is_filled, apply_policy, Database, QueueRow, QueuePlan, SyncResult, agrees,
  check_mutable_options_drifted, mutable_options, plan_from, plan_queue, apply_queue_plan,
  summarize_queue_plans, reconcile_with, require_installed_schema,
}

-- A declared value in the form in which its column gives it back. The SQL function
-- `absurd.set_queue_policy` casts `cleanup_limit` to an integer, trims `detach_mode` and puts it in
-- lower case, and reads the other mutable options as intervals.
abbrev pub is_canonical : String → Json → Bool
is_canonical key value =
    if contains interval_option_keys key
    then is_text value
    else if key == "cleanup_limit"
    then is_number value
    else if key == "detach_mode"
    then is_mode value
    else true
  where
    is_text : Json → Bool
    is_text (text _) = true
    is_text _ = false

    is_number : Json → Bool
    is_number (number _) = true
    is_number _ = false

    is_mode : Json → Bool
    is_mode (text mode) = (mode == "none") || (mode == "empty")
    is_mode _ = false

abbrev pub IsCanonical : Dict Json → Type 0
IsCanonical opts = All (λ o. is_canonical o.0 o.1 ≡ true) opts

module _ {W : Type 0} (db : Database W) where
  -- The columns hold what was declared.
  abbrev pub Stored : Dict Json → QueueRow → Type 0
  Stored opts existing = All (λ o. agrees db o.0 o.1 existing ≡ true) opts

  -- What the SDK's `create_queue` and `set_queue_policy` do where they return: a new queue gets a row
  -- with its options and all its tables, an old one keeps its row and gets the tables that it lacks,
  -- a policy is written to the row; what is declared in canonical form is stored as it is declared.
  pub record Sdk : Type 0 where
    pub create_schema :
        (q : String) (o : Dict Json) (w : W)
        → db.schema_absent (db.create_queue q o w).1 ≡ db.schema_absent w
    pub create_new :
        (q : String) (o : Dict Json) (w : W)
        → IsCanonical (mutable_options db o)
        → db.row q w ≡ none
        → (db.create_queue q o w).0 ≡ ok tt
        → (existing : QueueRow) × (db.row q (db.create_queue q o w).1 ≡ some existing)
          × Stored (mutable_options db o) existing
    pub create_old :
        (q : String) (o : Dict Json) (w : W) (existing : QueueRow)
        → db.row q w ≡ some existing
        → (db.create_queue q o w).0 ≡ ok tt
        → db.row q (db.create_queue q o w).1 ≡ some existing
    pub create_tables :
        (q : String) (o : Dict Json) (w : W)
        → (db.create_queue q o w).0 ≡ ok tt
        → db.missing q (db.create_queue q o w).1 ≡ []
    pub policy_schema :
        (q : String) (o : Dict Json) (w : W)
        → db.schema_absent (db.set_queue_policy q o w).1 ≡ db.schema_absent w
    pub policy_row :
        (q : String) (o : Dict Json) (w : W) (existing : QueueRow)
        → IsCanonical o
        → db.row q w ≡ some existing
        → (db.set_queue_policy q o w).0 ≡ ok tt
        → (now : QueueRow) × (db.row q (db.set_queue_policy q o w).1 ≡ some now) × Stored o now
    pub policy_tables :
        (q : String) (o : Dict Json) (w : W)
        → db.missing q (db.set_queue_policy q o w).1 ≡ db.missing q w

  -- The loop that compares returns `False` exactly if every column agrees.
  drifted-Stored :
      (opts : Dict Json) (existing : QueueRow)
      → Stored opts existing
      → check_mutable_options_drifted db opts existing ≡ false
  unfolding check_mutable_options_drifted
  drifted-Stored [] existing h = refl
  drifted-Stored ((k, v) ∷ opts) existing h = rw (h.0) (drifted-Stored opts existing h.1)

  -- A queue that needs nothing.
  pub record IsSettled (q : String) (opts : Dict Json) (w : W) : Type 0 where
    pub existing : QueueRow
    pub found : db.row q w ≡ some existing
    pub whole : db.missing q w ≡ []
    pub current : check_mutable_options_drifted db (mutable_options db opts) existing ≡ false

  abbrev pub nothing_to_do : String → QueuePlan
  nothing_to_do q = record {
    queue_name = q;
    create_options = none;
    repair = false;
    policy_options = none;
  }

  plan_from-IsSettled :
      (q : String) (opts : Dict Json) (w : W)
      → IsSettled q opts w
      → plan_from db q opts (db.row q w) (db.missing q w) ≡ nothing_to_do q
  unfolding plan_from
  plan_from-IsSettled q opts w s = rw (s.found, s.whole) (ground (arith, s.current))

  undrifted :
      (opts : Dict Json) (existing : QueueRow)
      → false ≡ (is_filled db opts && check_mutable_options_drifted db opts existing)
      → check_mutable_options_drifted db opts existing ≡ false
  unfolding check_mutable_options_drifted
  undrifted [] existing h = refl
  undrifted (x ∷ opts) existing h = sym h

  module _ (sdk : Sdk) (q : String) (opts : Dict Json)
      (canonical : IsCanonical (mutable_options db opts)) where
    abbrev PlanLeaves : Option QueueRow → List String → Type 0
    PlanLeaves found absent =
        (w : W)
        → db.row q w ≡ found
        → db.missing q w ≡ absent
        → (apply_queue_plan db (plan_from db q opts found absent) w).0 ≡ ok tt
        → IsSettled q opts (apply_queue_plan db (plan_from db q opts found absent) w).1

    -- A new queue is created, and nothing more.
    apply_new : (absent : List String) → PlanLeaves none absent
    unfolding apply_queue_plan plan_from
    apply_new absent w new _ done =
        let (_, made, step) = >>=-eq-ok (db.create_queue q opts) (λ _. pure tt >> pure tt) w done in
        let (existing, found, stored) = sdk.create_new q opts w canonical new made in
        rw step (record {
          existing = existing;
          found = found;
          whole = sdk.create_tables q opts w made;
          current = drifted-Stored (mutable_options db opts) existing stored;
        })

    -- An old queue has all its tables after the repair, and its row.
    repaired :
        (existing : QueueRow) (absent : List String) (w : W)
        → db.row q w ≡ some existing
        → db.missing q w ≡ absent
        → ((if is_filled db absent then db.create_queue q [] else pure tt) w).0 ≡ ok tt
        → let w' = ((if is_filled db absent then db.create_queue q [] else pure tt) w).1 in
          (db.row q w' ≡ some existing) × (db.missing q w' ≡ [])
    repaired existing [] w old lost done = (old, lost)
    repaired existing (t ∷ ts) w old lost done =
        (sdk.create_old q [] w existing old done, sdk.create_tables q [] w done)

    -- The policy is written where a declared option drifted, and is current after that.
    current :
        (existing : QueueRow) (b : Bool) (w : W)
        → b ≡ (
            is_filled db (mutable_options db opts)
            && check_mutable_options_drifted db (mutable_options db opts) existing)
        → db.row q w ≡ some existing
        → db.missing q w ≡ []
        → (apply_policy db q (if b then some (mutable_options db opts) else none) w).0 ≡ ok tt
        → IsSettled q opts
            (apply_policy db q (if b then some (mutable_options db opts) else none) w).1
    unfolding check_mutable_options_drifted
    current existing false w same old whole done = record {
      existing = existing;
      found = old;
      whole = whole;
      current = undrifted (mutable_options db opts) existing same;
    }
    current existing true w same old whole done =
        let (now, found, stored) =
          sdk.policy_row q (mutable_options db opts) w existing canonical old done in
        record {
          existing = now;
          found = found;
          whole = sdk.policy_tables q (mutable_options db opts) w ∙ whole;
          current = drifted-Stored (mutable_options db opts) now stored;
        }

    apply_old : (existing : QueueRow) (absent : List String) → PlanLeaves (some existing) absent
    unfolding apply_queue_plan plan_from
    apply_old existing absent w old lost done =
        let b =
          is_filled db (mutable_options db opts)
          && check_mutable_options_drifted db (mutable_options db opts) existing in
        let repair : Run W (Unit {0}) =
          if is_filled db absent then db.create_queue q [] else pure tt in
        let policy : Run W (Unit {0}) =
          apply_policy db q (if b then some (mutable_options db opts) else none) in
        let (_, fixed, step) = >>=-eq-ok repair (λ _. policy) w done in
        let (kept, whole) = repaired existing absent w old lost fixed in
        rw step (current existing b (repair w).1 refl kept whole (rw step at done))

    apply_plan : (found : Option QueueRow) (absent : List String) → PlanLeaves found absent
    apply_plan none = apply_new
    apply_plan (some existing) = apply_old existing

    plan_queue-present :
        (w : W)
        → db.schema_absent w ≡ false
        → plan_queue db q opts w ≡ (ok (plan_from db q opts (db.row q w) (db.missing q w)), w)
    unfolding plan_queue require_installed_schema
    plan_queue-present w present = rw (present, and_then) refl

    plan_queue-absent :
        (w : W)
        → db.schema_absent w ≡ true
        → plan_queue db q opts w ≡ (raised schema_not_installed, w)
    unfolding plan_queue require_installed_schema
    plan_queue-absent w absent = rw (absent, and_then) refl

    -- Where the SDK's calls do what `Sdk` says and the mutable options are declared in canonical form:
    -- reconciling a queue, where it returns, returns what the plan made of the database before says,
    -- which is what the dry run reports of it, and leaves a database in which the plan is to do nothing.
    pub reconcile_with-settles :
        (w : W) {r : SyncResult}
        → (reconcile_with db q opts w).0 ≡ ok r
        → (r ≡ summarize_queue_plans db (plan_from db q opts (db.row q w) (db.missing q w) ∷ []))
          × (let w' = (reconcile_with db q opts w).1 in
              plan_from db q opts (db.row q w') (db.missing q w') ≡ nothing_to_do q)
    unfolding reconcile_with
    reconcile_with-settles w {r} h = elim (Bool-cases (db.schema_absent w)) [
      | inl absent ↦ absurd (raised-ne-ok (rw (plan_queue-absent w absent, and_then) at h))
      | inr present ↦
          let plan = plan_from db q opts (db.row q w) (db.missing q w) in
          let planned = plan_queue-present w present in
          let h' = rw (planned, and_then) at h in
          let (_, done, step) =
            >>=-eq-ok (apply_queue_plan db plan) (λ _. pure (summarize_queue_plans db (plan ∷ [])))
              w h' in
          (
            sym (ok-injective (rw step at h')),
            rw (planned, and_then)
                (rw step (
                  plan_from-IsSettled q opts _
                    (apply_plan (db.row q w) (db.missing q w) w refl refl done))),
          )
    ]
