-- ===== src/Frozen/Ahead.antt =====
-- However a move of the clock is interrupted, Postgres's clock is not ahead of Python's.
use django_absurd.Prelude.{
  ℕ, ◌≤◌, Bool, true, false, Option, none, some, ◌≡◌, refl, sym, ap, ◌∙◌, with_default, ltb,
  if◌then◌else◌, ◌⊎◌, inl, inr, arith,
}
use django_absurd.Effect.{Result, ok, Run, pure, throw, >>=-after, >>=-eq-ok, ◌>>=◌}
use django_absurd.Exceptions.{improperly_configured}
use django_absurd.Frozen.{
  Clocks, Runtime, outside, set_frozen, move_python_clock, write_fake_now, move_both,
  apply_clock_move,
}

-- A call that moves one clock to an instant and leaves the other alone; where it raises, the clock is
-- at the instant or where it was.
pub record Moves {V : Type 0} (moved other : V → ℕ) (instant : ℕ) (m : Run V (Unit {0}))
    : Type 0 where
  pub returned : (v : V) → (m v).0 ≡ ok tt → moved (m v).1 ≡ instant
  pub either : (v : V) → (moved (m v).1 ≡ instant) ⊎ (moved (m v).1 ≡ moved v)
  pub apart : (v : V) → other (m v).1 ≡ other v

abbrev pub Still : {V : Type 0} → (one other : V → ℕ) → Run V (Unit {0}) → Type 0
Still {V} one other m = (v : V) → (one (m v).1 ≡ one v) × (other (m v).1 ≡ other v)

module _ {V : Type 0} (moved other : V → ℕ) (instant : ℕ) (m n : Run V (Unit {0})) where
  -- A move, and then a call that moves neither clock.
  then-Moves :
      Moves moved other instant m → Still moved other n → Moves moved other instant (m >>= λ _. n)
  then-Moves is still = record {
    returned = λ v h.
        let (_, done, s) = >>=-eq-ok m (λ _. n) v h in
        ap (λ r. moved r.1) s ∙ (still (m v).1).0 ∙ is.returned v done;
    either = λ v.
        >>=-after (λ v'. (moved v' ≡ instant) ⊎ (moved v' ≡ moved v)) m (λ _. n) v (is.either v)
          (λ _ _. elim (is.either v) [
            | inl there ↦ inl ((still (m v).1).0 ∙ there)
            | inr here ↦ inr ((still (m v).1).0 ∙ here)
          ]);
    apart = λ v.
        >>=-after (λ v'. other v' ≡ other v) m (λ _. n) v (is.apart v)
          (λ _ _. (still (m v).1).1 ∙ is.apart v);
  }

module _ {V : Type 0} (python postgres : V → ℕ) (instant : ℕ) (move write : Run V (Unit {0}))
    (moves : Moves python postgres instant move)
    (writes : Moves postgres python instant write) where
  forward :
      (v : V)
      → postgres v ≤ python v
      → python v ≤ instant
      → postgres ((move >>= λ _. write) v).1 ≤ python ((move >>= λ _. write) v).1
  forward v ahead later =
      >>=-after (λ v'. postgres v' ≤ python v') move (λ _. write) v
        (elim (moves.either v) [
          | inl there ↦ omega (arith, there, moves.apart v)
          | inr here ↦ omega (arith, here, moves.apart v)
        ])
        (λ _ done. elim (writes.either (move v).1) [
          | inl there ↦ omega (arith, there, writes.apart (move v).1, moves.returned v done)
          | inr here ↦
              omega (arith, here, writes.apart (move v).1, moves.returned v done, moves.apart v)
        ])

  backward :
      (v : V)
      → postgres v ≤ python v
      → instant ≤ python v
      → postgres ((write >>= λ _. move) v).1 ≤ python ((write >>= λ _. move) v).1
  backward v ahead earlier =
      >>=-after (λ v'. postgres v' ≤ python v') write (λ _. move) v
        (elim (writes.either v) [
          | inl there ↦ omega (arith, there, writes.apart v)
          | inr here ↦ omega (arith, here, writes.apart v)
        ])
        (λ _ done. elim (moves.either (write v).1) [
          | inl there ↦ omega (arith, there, moves.apart (write v).1, writes.returned v done)
          | inr here ↦
              omega (arith, here, moves.apart (write v).1, writes.returned v done, writes.apart v)
        ])

module _ {W : Type 0} (clocks : Clocks W) (postgres : W → ℕ) where
  open clocks use {python}

  -- What time-machine and Postgres do; `postgres` is the clock of a new session.
  pub record Works : Type 0 where
    pub starts : (instant : ℕ) → Moves python postgres instant (clocks.start instant)
    pub moves : (instant : ℕ) → Moves python postgres instant (clocks.move_to instant)
    pub alters : (instant : ℕ) → Moves postgres python instant (clocks.alter_database instant)
    pub sessions : (instant : ℕ) → Still postgres python (clocks.set_session instant)
    pub connects : Still postgres python clocks.ensure_connection

  abbrev python_at : Runtime W → ℕ
  python_at t = python t.world

  abbrev postgres_at : Runtime W → ℕ
  postgres_at t = postgres t.world

  module _ (works : Works) where
    in_either :
        {A : Type 0} (P : A → Type 0) (b : Bool) {x y : A} → P x → P y → P (if b then x else y)
    in_either P true on off = on
    in_either P false on off = off

    write_fake_now-Moves :
        (instant : ℕ) → Moves postgres_at python_at instant (write_fake_now clocks instant)
    unfolding write_fake_now
    write_fake_now-Moves instant =
        let is =
          then-Moves postgres python instant (clocks.alter_database instant)
            (clocks.set_session instant) (works.alters instant) (works.sessions instant) in
        record {
          returned = λ t h. is.returned t.world h;
          either = λ t. is.either t.world;
          apart = λ t. is.apart t.world;
        }

    start-Moves :
        (instant : ℕ)
        → Moves python_at postgres_at instant
            (outside clocks (clocks.start instant) >>= λ _. set_frozen clocks true)
    start-Moves instant =
        then-Moves python_at postgres_at instant (outside clocks (clocks.start instant))
          (set_frozen clocks true)
          (record {
            returned = λ t h. (works.starts instant).returned t.world h;
            either = λ t. (works.starts instant).either t.world;
            apart = λ t. (works.starts instant).apart t.world;
          })
          (λ t. (refl, refl))

    move_python_clock-Moves :
        (instant : ℕ) → Moves python_at postgres_at instant (move_python_clock clocks instant)
    unfolding move_python_clock
    move_python_clock-Moves instant = record {
      returned = λ t.
          in_either (λ (r : Result (Unit {0}) × Runtime W). r.0 ≡ ok tt → python_at r.1 ≡ instant)
            t.frozen ((works.moves instant).returned t.world) ((start-Moves instant).returned t);
      either = λ t.
          in_either
            (λ (r : Result (Unit {0}) × Runtime W).
              (python_at r.1 ≡ instant) ⊎ (python_at r.1 ≡ python_at t))
            t.frozen ((works.moves instant).either t.world) ((start-Moves instant).either t);
      apart = λ t.
          in_either (λ (r : Result (Unit {0}) × Runtime W). postgres_at r.1 ≡ postgres_at t)
            t.frozen ((works.moves instant).apart t.world) ((start-Moves instant).apart t);
    }

    move_both-Ahead :
        (back : Bool) (instant current : ℕ) (t : Runtime W)
        → ltb instant current ≡ back
        → current ≡ python_at t
        → postgres_at t ≤ python_at t
        → postgres_at (move_both clocks back instant t).1
          ≤ python_at (move_both clocks back instant t).1
    move_both-Ahead true instant current t e now ahead =
        backward python_at postgres_at instant (move_python_clock clocks instant)
          (write_fake_now clocks instant) (move_python_clock-Moves instant)
          (write_fake_now-Moves instant) t ahead (ground (arith, e, now))
    move_both-Ahead false instant current t e now ahead =
        forward python_at postgres_at instant (move_python_clock clocks instant)
          (write_fake_now clocks instant) (move_python_clock-Moves instant)
          (write_fake_now-Moves instant) t ahead (ground (arith, e, now))

    abbrev Ahead : Runtime W → Type 0
    Ahead t = postgres_at t ≤ python_at t

    guarded-Ahead :
        (b : Bool) (m : Run (Runtime W) (Unit {0})) (t : Runtime W)
        → Ahead t
        → Ahead (m t).1
        → Ahead (((if b then pure tt else throw improperly_configured) >>= λ _. m) t).1
    guarded-Ahead true m t before after = after
    guarded-Ahead false m t before after = before

    -- The reading that a move's direction is taken from.
    read_now :
        (reference : Option ℕ) (t t₁ : Runtime W)
        → ((now : ℕ) → reference ≡ some now → now ≡ python_at t)
        → python_at t₁ ≡ python_at t
        → with_default (python t₁.world) reference ≡ python_at t₁
    read_now none t t₁ read same = refl
    read_now (some now) t t₁ read same = read now refl ∙ sym same

    -- Where each write moves one clock or none, a new session's clock is not ahead of Python's, and a
    -- reference that is given is a reading of Python's: after a move of the frozen clock to any
    -- destination, however it ends, a new session's clock is not ahead of Python's.
    pub apply_clock_move-Ahead :
        (when reference : Option ℕ) (t : Runtime W)
        → ((now : ℕ) → reference ≡ some now → now ≡ python_at t)
        → Ahead t
        → Ahead (apply_clock_move clocks when reference t).1
    unfolding apply_clock_move
    apply_clock_move-Ahead none reference t read ahead = ahead
    apply_clock_move-Ahead (some instant) reference t read ahead =
        let t₁ = (outside clocks clocks.ensure_connection t).1 in
        let mover = λ (t : Runtime W).
          move_both clocks (ltb instant (with_default (python t.world) reference)) instant t in
        let (still_postgres, still_python) = works.connects t.world in
        let ahead₁ : Ahead t₁ = omega (arith, ahead, still_postgres, still_python) in
        >>=-after Ahead (outside clocks clocks.ensure_connection) _ t ahead₁ (λ _ _.
          guarded-Ahead clocks.has_time_machine mover t₁ ahead₁ (
            move_both-Ahead (ltb instant (with_default (python t₁.world) reference)) instant
              (with_default (python t₁.world) reference) t₁ refl
              (read_now reference t t₁ read still_python) ahead₁))
