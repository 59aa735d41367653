-- ===== src/Checks/Policies.antt =====
-- A queue's policy that the checks accept, and what provisioning may write of it.
use django_absurd.Prelude.{
  String, ◌≡◌, refl, sym, ap, ◌∙◌, Bool, true, false, Option, none, some, List, [], ◌∷◌, ◌++◌, Dict,
  All, map, keep, contains, ◌==◌, eq_iff, eq_refl, Bool-cases, inl, inr, arith,
}
use mathlib.Core.Bool.{false≢true}
use django_absurd.Prelude.{not}
use django_absurd.Checks.{e003_mapping}
use django_absurd.Prelude.Dicts
use django_absurd.Json.{Json, as_dict}
use django_absurd.Queues.{Database, mutable_options, mutable_option_keys}
use django_absurd.Checks.{CheckMessage, e015_key, keys, e003_key}
use django_absurd.Checks.Entries.{append-eq-nil}
use django_absurd.Checks.Settings.{validate_queue_policy, storage_mode_errors, partition_only_keys}

-- The two columns of an unpartitioned queue that a policy may change.
abbrev pub cleanup_keys : List String
cleanup_keys = "cleanup_ttl" ∷ "cleanup_limit" ∷ []

map-eq-nil : {A B : Type 0} (f : A → B) (xs : List A) → map f xs ≡ [] → xs ≡ []
map-eq-nil f [] h = refl
map-eq-nil f (x ∷ xs) h = cc

keep-eq-nil : {A : Type 0} (p : A → Bool) (xs : List A) → keep p xs ≡ [] → All (λ x. p x ≡ false) xs
keep-eq-nil p [] h = tt
keep-eq-nil p (x ∷ xs) h = elim (Bool-cases (p x)) [
  | inl is ↦ cc (rw is at h)
  | inr isnt ↦ (isnt, keep-eq-nil p xs (rw isnt at h))
]

-- A key that a dict lacks is none of those that it has.
apart :
    (d : Dict Json) (j k : String)
    → Dicts.has_key j d ≡ false
    → Dicts.has_key k d ≡ true
    → (j == k) ≡ false
apart d j k lacks has = elim (Bool-cases (j == k)) [
  | inl same ↦
      absurd (false≢true (sym lacks ∙ ap (λ i. Dicts.has_key i d) ((eq_iff j k).0 same) ∙ has))
  | inr other ↦ other
]

has_key-tail :
    (k j : String) (v : Json) (d : Dict Json)
    → Dicts.has_key k d ≡ true
    → Dicts.has_key k ((j, v) ∷ d) ≡ true
unfolding Dicts.get
has_key-tail k j v d h = ground arith

has_key-head : (k : String) (v : Json) (d : Dict Json) → Dicts.has_key k ((k, v) ∷ d) ≡ true
unfolding Dicts.get
has_key-head k v d = ground (arith, eq_refl k)

module _ {W : Type 0} (db : Database W) (d : Dict Json)
    (unpartitioned : All (λ k. Dicts.has_key k d ≡ false) partition_only_keys) where
  mutable_is_cleanup :
      (k : String)
      → Dicts.has_key k d ≡ true
      → contains mutable_option_keys k ≡ true
      → contains cleanup_keys k ≡ true
  mutable_is_cleanup k has h =
      let (ahead, (back, (mode, (age, _)))) = unpartitioned in
      rw
        (
          apart d "partition_lookahead" k ahead has,
          apart d "partition_lookback" k back has,
          apart d "detach_mode" k mode has,
          apart d "detach_min_age" k age has,
        )
        at h

  mutable_options-cleanup :
      (opts : Dict Json)
      → All (λ o. Dicts.has_key o.0 d ≡ true) opts
      → All (λ o. contains cleanup_keys o.0 ≡ true) (mutable_options db opts)
  unfolding mutable_options
  mutable_options-cleanup [] has = tt
  mutable_options-cleanup ((k, v) ∷ opts) (here, rest) =
      elim (Bool-cases (contains mutable_option_keys k)) [
        | inl is ↦ rw is (mutable_is_cleanup k here is, mutable_options-cleanup opts rest)
        | inr isnt ↦ rw isnt (mutable_options-cleanup opts rest)
      ]

all_tail :
    (j : String) (v : Json) (d opts : Dict Json)
    → All (λ o. Dicts.has_key o.0 d ≡ true) opts
    → All (λ o. Dicts.has_key o.0 ((j, v) ∷ d) ≡ true) opts
all_tail j v d [] h = tt
all_tail j v d ((k, _) ∷ opts) (here, rest) = (has_key-tail k j v d here, all_tail j v d opts rest)

own_keys : (d : Dict Json) → All (λ o. Dicts.has_key o.0 d ≡ true) d
own_keys [] = tt
own_keys ((k, v) ∷ d) = (has_key-head k v d, all_tail k v d d (own_keys d))

-- Where the check of a queue's policy reports nothing, the policy is a dict, and what provisioning may
-- write of it to a queue that is there are the two columns of the cleanup, and none of the columns of
-- a partitioned queue.
pub validate_queue_policy-mutable_options :
    {W : Type 0} (db : Database W) (option_keys modes : List String) (queue : String)
    (policy : Json)
    → validate_queue_policy option_keys modes queue policy ≡ []
    → (opts : Dict Json) × (as_dict policy ≡ some opts)
      × All (λ o. contains cleanup_keys o.0 ≡ true) (mutable_options db opts)
unfolding validate_queue_policy
validate_queue_policy-mutable_options db option_keys modes queue policy = by_policy (as_dict policy)
  where
    by_policy :
        (o : Option (Dict Json))
        → let errors : List CheckMessage = elim o [
          | none ↦ e003_mapping queue ∷ []
          | some d ↦
              map (e003_key queue) (keep (λ key. not (contains option_keys key)) (keys d))
              ++ (storage_mode_errors option_keys modes queue (Dicts.get "storage_mode" d)
                  ++ map (e015_key queue) (keep (λ key. Dicts.has_key key d) partition_only_keys))
        ] in
          errors ≡ []
          → (opts : Dict Json) × (o ≡ some opts)
            × All (λ o. contains cleanup_keys o.0 ≡ true) (mutable_options db opts)
    by_policy none h = cc
    by_policy (some d) h =
        let (_, rest) =
          append-eq-nil
            (map (e003_key queue) (keep (λ key. not (contains option_keys key)) (keys d))) _ h in
        let (_, partitioned) =
          append-eq-nil (storage_mode_errors option_keys modes queue (Dicts.get "storage_mode" d)) _
            rest in
        (
          d,
          refl,
          mutable_options-cleanup db d
              (keep-eq-nil (λ key. Dicts.has_key key d) partition_only_keys
                (map-eq-nil (e015_key queue) _ partitioned))
              d (own_keys d),
        )
