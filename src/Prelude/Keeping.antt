-- ===== src/Prelude/Keeping.antt =====
-- Laws of `keep`, and the removal of items by their keys.
use Prim.Native.Nat.{ℕ}
use mathlib.Core.Path.{◌≡◌, refl, ap, subst, ◌∙◌}
use mathlib.Core.Logic.{◌⊎◌, inl, inr}
use mathlib.Core.Bool.{Bool, true, false, ◌||◌, ◌&&◌, not}
use mathlib.Core.List.{List, [], ◌∷◌, map}
use native.Mathlib.Omega.{arith}
use django_absurd.Prelude.Tests.{nat_beq, Bool-cases}
use django_absurd.Prelude.Lists.{keep, All}

module _ {ℓ} {A : Type ℓ} where
  pub All-map {κ μ} :
      {P : A → Type κ} {Q : A → Type μ}
      → ((x : A) → P x → Q x)
      → (xs : List A) → All P xs
      → All Q xs
  All-map f [] h = tt
  All-map f (x ∷ xs) h = (f x h.0, All-map f xs h.1)

  pub All-zip {κ μ ν} :
      {P : A → Type κ} {Q : A → Type μ} {R : A → Type ν}
      → ((x : A) → P x → Q x → R x)
      → (xs : List A) → All P xs
      → All Q xs
      → All R xs
  All-zip f [] h k = tt
  All-zip f (x ∷ xs) h k = (f x h.0 k.0, All-zip f xs h.1 k.1)

  pub All-every {κ} : {P : A → Type κ} → ((x : A) → P x) → (xs : List A) → All P xs
  All-every f [] = tt
  All-every f (x ∷ xs) = (f x, All-every f xs)

  pub keep-All : (p q : A → Bool) (xs : List A) → All (λ x. p x ≡ q x) xs → keep p xs ≡ keep q xs
  keep-All p q [] h = refl
  keep-All p q (x ∷ xs) h = rw (h.0, keep-All p q xs h.1)

  pub keep-true : (xs : List A) → keep (λ _. true) xs ≡ xs
  keep-true [] = refl
  keep-true (x ∷ xs) = ap (λ ys. x ∷ ys) (keep-true xs)

  pub keep_none : (p : A → Bool) (xs : List A) → keep p (keep (λ x. not (p x)) xs) ≡ []
  keep_none p [] = refl
  keep_none p (x ∷ xs) = elim (Bool-cases (p x)) [
    | inl is ↦ rw is (keep_none p xs)
    | inr isnt ↦ rw isnt (rw isnt (keep_none p xs))
  ]

  pub keep-keep : (p q : A → Bool) (xs : List A) → keep p (keep q xs) ≡ keep (λ x. q x && p x) xs
  keep-keep p q [] = refl
  keep-keep p q (x ∷ xs) = elim (Bool-cases (q x)) [
    | inl is ↦ rw (is, keep-keep p q xs)
    | inr isnt ↦ rw (isnt, keep-keep p q xs)
  ]

  -- A test that the first one implies.
  pub keep-keep_implied :
      (p q : A → Bool) (xs : List A)
      → ((x : A) → p x ≡ true → q x ≡ true)
      → keep p (keep q xs) ≡ keep p xs
  keep-keep_implied p q xs h =
      keep-keep p q xs
      ∙ keep-All (λ x. q x && p x) p xs (All-every (λ x. only (p x) (q x) (h x)) xs)
    where
      only : (a b : Bool) → (a ≡ true → b ≡ true) → (b && a) ≡ a
      only true b h = rw (h refl)
      only false true h = refl
      only false false h = refl

beq_sym : (i j : ℕ) → nat_beq i j ≡ false → nat_beq j i ≡ false
beq_sym i j h = ground arith

-- `i in ids`
abbrev pub contains_id : List ℕ → ℕ → Bool
contains_id [] i = false
contains_id (j ∷ ids) i = nat_beq j i || contains_id ids i

module _ {ℓ} {A : Type ℓ} (key : A → ℕ) where
  -- No two items have one key.
  abbrev pub NodupKeys : List A → Type 0
  NodupKeys [] = Unit
  NodupKeys (x ∷ xs) = All (λ y. nat_beq (key x) (key y) ≡ false) xs × NodupKeys xs

  absent :
      (p : A → Bool) (i : ℕ) (xs : List A)
      → All (λ y. nat_beq i (key y) ≡ false) xs
      → contains_id (map key (keep p xs)) i ≡ false
  absent p i [] h = refl
  absent p i (x ∷ xs) h = elim (Bool-cases (p x)) [
    | inl is ↦ rw is (ground (arith, h.0, absent p i xs h.1))
    | inr isnt ↦ rw isnt (absent p i xs h.1)
  ]

  keyed_first :
      (p : A → Bool) (x : A) (xs : List A)
      → contains_id (map key (keep p xs)) (key x) ≡ false
      → contains_id (map key (keep p (x ∷ xs))) (key x) ≡ p x
  keyed_first p x xs h = elim (Bool-cases (p x)) [
    | inl is ↦ rw is (ground arith)
    | inr isnt ↦ rw isnt h
  ]

  keyed_later :
      (p : A → Bool) (x : A) (xs : List A) (y : A)
      → nat_beq (key x) (key y) ≡ false
      → contains_id (map key (keep p xs)) (key y) ≡ p y
      → contains_id (map key (keep p (x ∷ xs))) (key y) ≡ p y
  keyed_later p x xs y apart h = elim (Bool-cases (p x)) [
    | inl is ↦ rw (is, apart) h
    | inr isnt ↦ rw isnt h
  ]

  keyed :
      (p : A → Bool) (xs : List A)
      → NodupKeys xs
      → All (λ x. contains_id (map key (keep p xs)) (key x) ≡ p x) xs
  keyed p [] h = tt
  keyed p (x ∷ xs) h = (
    keyed_first p x xs (absent p (key x) xs h.0),
    All-zip (keyed_later p x xs) xs h.0 (keyed p xs h.1),
  )

  -- Removing the keys of the items that pass a test is keeping those that do not.
  pub keep-keyed :
      (p : A → Bool) (xs : List A)
      → NodupKeys xs
      → keep (λ x. not (contains_id (map key (keep p xs)) (key x))) xs ≡ keep (λ x. not (p x)) xs
  keep-keyed p xs h = keep-All _ _ xs (All-map (λ x e. ap not e) xs (keyed p xs h))

module _ {ℓ} {A : Type ℓ} where
  -- The first item that is kept has what all items have.
  pub All-kept {κ} :
      (P : A → Type κ) (q : A → Bool) (xs : List A) (x : A) (rest : List A)
      → All P xs
      → keep q xs ≡ x ∷ rest
      → P x
  All-kept P q [] x rest h e = absurd (cc e)
  All-kept P q (y ∷ ys) x rest h e = elim (Bool-cases (q y)) [
    | inl is ↦ subst P (cc (rw is at e)) h.0
    | inr isnt ↦ All-kept P q ys x rest h.1 (rw isnt at e)
  ]

module _ {ℓ} {A : Type ℓ} (key : A → ℕ) where
  -- Where one item passes a test, every other has another key.
  pub keep-apart :
      (q : A → Bool) (xs : List A) (x : A)
      → NodupKeys key xs
      → keep q xs ≡ x ∷ []
      → All (λ y. (q y ≡ true) ⊎ (nat_beq (key x) (key y) ≡ false)) xs
  keep-apart q [] x h e = tt
  keep-apart q (y ∷ ys) x h e = elim (Bool-cases (q y)) [
    | inl is ↦
        let same : y ≡ x = cc (rw is at e) in
        (inl is, All-map (λ z apart. inr (rw (← same) apart)) ys h.0)
    | inr isnt ↦
        let e' = rw isnt at e in
        (
          inr (
              All-kept (λ z. nat_beq (key z) (key y) ≡ false) q ys x []
                (All-map (λ z. beq_sym (key y) (key z)) ys h.0) e'),
          keep-apart q ys x h.1 e',
        )
  ]
