-- ===== src/Effect.antt =====
-- Python code that changes a world `W` (the database, the log, the SDK's own state) and may raise:
-- what was written before a raise stays written, so the world comes back beside an exception too.
use django_absurd.Prelude.{Bool, true, false, if◌then◌else◌}
use django_absurd.Prelude.{◌≡◌, refl, ap, sym, ◌∙◌}
use django_absurd.Exceptions.{Exception}

pub data Result {ℓ} (A : Type ℓ) : Type ℓ where
  ok : A → Result A
  raised : Exception → Result A

abbrev pub Run {ℓ} : Type ℓ → Type ℓ → Type ℓ
Run W A = W → Result A × W

module _ {ℓ} {W A : Type ℓ} where
  abbrev pub pure : A → Run W A
  pure a w = (ok a, w)

  abbrev pub throw : Exception → Run W A
  throw e w = (raised e, w)

  abbrev pub lift : Result A → Run W A
  lift r w = (r, w)

  -- `try: body` / `except …: handler`; the handler raises again what its clauses do not name.
  abbrev pub try_except : Run W A → (Exception → Run W A) → Run W A
  try_except body handler w =
      let (r, w') = body w in elim r [ ok a ↦ (ok a, w') | raised e ↦ handler e w' ]

module _ {ℓ} {W A B : Type ℓ} where
  abbrev pub and_then : Result A → (A → Run W B) → Run W B
  and_then (ok a) f w = f a w
  and_then (raised e) f w = (raised e, w)

  infixl 10 ◌>>=◌ ◌>>◌
  abbrev pub ◌>>=◌ : Run W A → (A → Run W B) → Run W B
  ◌>>=◌ m f w = let (r, w') = m w in and_then r f w'

  abbrev pub ◌>>◌ : Run W A → Run W B → Run W B
  m >> n = m >>= λ _. n

  -- `try: body` / `finally: cleanup`: an exception of the cleanup replaces the body's outcome.
  abbrev pub try_finally : Run W A → Run W B → Run W A
  try_finally body cleanup w =
      let (r, w') = body w in
      let (c, w'') = cleanup w' in elim c [ ok b ↦ (r, w'') | raised e ↦ (raised e, w'') ]

-- Chains of pure fallible steps.
module _ {ℓ κ} {A : Type ℓ} {B : Type κ} where
  abbrev pub bind_result : Result A → (A → Result B) → Result B
  bind_result (ok a) f = f a
  bind_result (raised e) f = raised e

  pub bind_result-eq-ok :
      (m : Result A) (f : A → Result B) {b : B}
      → bind_result m f ≡ ok b
      → (a : A) × (m ≡ ok a) × (f a ≡ ok b)
  bind_result-eq-ok (ok a) f h = (a, refl, h)
  bind_result-eq-ok (raised e) f h = cc

pub ok-injective {ℓ} : {A : Type ℓ} {a b : A} → ok a ≡ ok b → a ≡ b
ok-injective e = cc

pub raised-ne-ok {ℓ} : {A : Type ℓ} {e : Exception} {a : A} → raised e ≡ ok a → ⊥
raised-ne-ok h = cc

module _ {ℓ} {W A B : Type ℓ} where
  -- One step of a block that did not raise.
  pub >>=-ok :
      (m : Run W A) (f : A → Run W B) (w : W) (a : A) → (m w).0 ≡ ok a → (m >>= f) w ≡ f a (m w).1
  >>=-ok m f w a h = ap (λ r. and_then r f (m w).1) h

  -- A cleanup that does not raise leaves the body's outcome.
  pub try_finally-ok :
      (body : Run W A) (cleanup : Run W B) (w : W) (b : B)
      → (cleanup (body w).1).0 ≡ ok b
      → try_finally body cleanup w ≡ ((body w).0, (cleanup (body w).1).1)
  try_finally-ok body cleanup w b h = rw (h, try_finally) refl

  -- A block that returned has run its first step to the end.
  pub >>=-eq-ok :
      (m : Run W A) (f : A → Run W B) (w : W) {b : B}
      → ((m >>= f) w).0 ≡ ok b
      → (a : A) × ((m w).0 ≡ ok a) × ((m >>= f) w ≡ f a (m w).1)
  >>=-eq-ok m f w h = by_outcome (m w).0 refl
    where
      by_outcome :
          (r : Result A) → (m w).0 ≡ r → (a : A) × ((m w).0 ≡ ok a) × ((m >>= f) w ≡ f a (m w).1)
      by_outcome (ok a) e = (a, e, >>=-ok m f w a e)
      by_outcome (raised x) e =
          absurd (raised-ne-ok (sym (ap (λ r. (and_then r f (m w).1).0) e) ∙ h))

pub raised-injective {ℓ} :
    {A : Type ℓ} {e f : Exception} → ◌≡◌ {A = Result A} (raised e) (raised f) → e ≡ f
raised-injective h = cc

module _ {ℓ} {W A B : Type ℓ} where
  -- A `try … finally` that returned has run its body to the end, and then its cleanup.
  pub try_finally-eq-ok :
      (body : Run W A) (cleanup : Run W B) (w : W) {a : A}
      → (try_finally body cleanup w).0 ≡ ok a
      → ((body w).0 ≡ ok a) × ((try_finally body cleanup w).1 ≡ (cleanup (body w).1).1)
  try_finally-eq-ok body cleanup w {a} = by_cleanup (cleanup (body w).1).0
    where
      by_cleanup :
          (c : Result B)
          → let done : Result A × W = elim c [
            | ok b ↦ ((body w).0, (cleanup (body w).1).1)
            | raised e ↦ (raised e, (cleanup (body w).1).1)
          ] in
            done.0 ≡ ok a → ((body w).0 ≡ ok a) × (done.1 ≡ (cleanup (body w).1).1)
      by_cleanup (ok b) h = (h, refl)
      by_cleanup (raised e) h = absurd (raised-ne-ok h)

module _ {ℓ} {W A : Type ℓ} where
  -- Translating exceptions changes nothing where the body returned.
  pub translated-eq-ok :
      (body : Run W A) (f : Exception → Exception) (w : W) {a : A}
      → (try_except body (λ e. throw (f e)) w).0 ≡ ok a
      → ((body w).0 ≡ ok a) × ((try_except body (λ e. throw (f e)) w).1 ≡ (body w).1)
  translated-eq-ok body f w {a} = by_body (body w).0
    where
      by_body :
          (r : Result A)
          → let done : Result A × W = elim r [
            | ok b ↦ (ok b, (body w).1)
            | raised e ↦ (raised (f e), (body w).1)
          ] in
            done.0 ≡ ok a → (r ≡ ok a) × (done.1 ≡ (body w).1)
      by_body (ok b) h = (h, refl)
      by_body (raised e) h = absurd (raised-ne-ok h)

module _ {ℓ} {W A B : Type ℓ} where
  -- What holds of the world after a block: after its first step, if that raised, or after the rest.
  pub >>=-after {κ} :
      (P : W → Type κ) (m : Run W A) (f : A → Run W B) (w : W)
      → P (m w).1
      → ((a : A) → (m w).0 ≡ ok a → P (f a (m w).1).1)
      → P ((m >>= f) w).1
  >>=-after P m f w here rest = by_outcome (m w).0 refl
    where
      by_outcome : (r : Result A) → (m w).0 ≡ r → P (and_then r f (m w).1).1
      by_outcome (ok a) e = rest a e
      by_outcome (raised x) e = here

module _ {W S : Type 0} (state : W → S) where
  -- A call that leaves the state as it is, whether it raises or not.
  abbrev pub Idle : {A : Type 0} → Run W A → Type 0
  Idle m = (w : W) → state (m w).1 ≡ state w

  pub >>=-Idle :
      {A B : Type 0} (m : Run W A) (f : A → Run W B)
      → Idle m
      → ((a : A) → ((w : W) → (m w).0 ≡ ok a → state (f a (m w).1).1 ≡ state (m w).1))
      → Idle (m >>= f)
  >>=-Idle m f idle rest w =
      >>=-after (λ w'. state w' ≡ state w) m f w (idle w) (λ a h. rest a w h ∙ idle w)

  pub if-Idle :
      {A : Type 0} (b : Bool) (m n : Run W A)
      → (b ≡ true → Idle m)
      → (b ≡ false → Idle n)
      → Idle (if b then m else n)
  if-Idle true m n on off = on refl
  if-Idle false m n on off = off refl

module _ {ℓ} {W A B : Type ℓ} where
  -- However a `try … finally` ends, its world is what the cleanup makes of the body's.
  pub try_finally-world :
      (body : Run W A) (cleanup : Run W B) (w : W)
      → (try_finally body cleanup w).1 ≡ (cleanup (body w).1).1
  try_finally-world body cleanup w = by_cleanup (cleanup (body w).1).0
    where
      by_cleanup :
          (c : Result B)
          → let done : Result A × W = elim c [
            | ok b ↦ ((body w).0, (cleanup (body w).1).1)
            | raised e ↦ (raised e, (cleanup (body w).1).1)
          ] in
            done.1 ≡ (cleanup (body w).1).1
      by_cleanup (ok b) = refl
      by_cleanup (raised e) = refl
