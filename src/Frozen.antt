-- ===== src/Frozen.antt =====
-- The frozen clock of django_absurd/test.py: `freeze_time`, which moves Python's clock and Postgres's.
pub mod Ahead
pub mod Release
use django_absurd.Prelude.{
  ℕ, ◌+◌, ◌≤◌, ◌<◌, Bool, true, false, Option, none, some, ◌≡◌, refl, sym, ap, ◌∙◌, subst,
  with_default, ltb, if◌then◌else◌, Bool-cases, inl, inr, arith,
}
use django_absurd.Exceptions.{type_error, naive_instant, runtime_error, improperly_configured}
use django_absurd.Effect.{Result, ok, raised, Run, pure, throw, try_finally, >>=-after, ◌>>=◌, ◌>>◌}

-- What the clock calls: time-machine, and Postgres's `absurd.fake_now` at the database's level and at
-- that of Django's session. Moments are numbers; `python` is `datetime.now`.
pub record Clocks (W : Type 0) : Type 0 where
  pub python : W → ℕ
  pub ensure_connection : Run W (Unit {0})
  pub has_time_machine : Bool
  pub start : ℕ → Run W (Unit {0})
  pub move_to : ℕ → Run W (Unit {0})
  pub stop : Run W (Unit {0})
  pub alter_database : ℕ → Run W (Unit {0})
  pub set_session : ℕ → Run W (Unit {0})
  pub reset_database : Run W (Unit {0})
  pub reset_session : Run W (Unit {0})

-- `AbsurdTestRuntime`, with whether its `time_travel` is set, beside the world.
pub record Runtime (W : Type 0) : Type 0 where
  pub frozen : Bool
  pub world : W

module _ {W : Type 0} (clocks : Clocks W) where
  open clocks use {
    python, ensure_connection, has_time_machine, start, move_to, stop, alter_database, set_session,
    reset_database, reset_session,
  }

  -- A call that leaves the runtime's own fields alone.
  abbrev pub outside : {A : Type 0} → Run W A → Run (Runtime W) A
  outside m t = let (r, w) = m t.world in (r, record { frozen = t.frozen; world = w })

  abbrev pub set_frozen : Bool → Run (Runtime W) (Unit {0})
  set_frozen b t = (ok tt, record { frozen = b; world = t.world })

  unfoldable pub move_python_clock : ℕ → Run (Runtime W) (Unit {0})
  move_python_clock instant t =
      if t.frozen
      then outside (move_to instant) t
      else (do outside (start instant); set_frozen true) t

  unfoldable pub write_fake_now : ℕ → Run (Runtime W) (Unit {0})
  write_fake_now instant = outside (do alter_database instant; set_session instant)

  abbrev pub move_both : (backward : Bool) → ℕ → Run (Runtime W) (Unit {0})
  move_both true instant = do write_fake_now instant; move_python_clock instant
  move_both false instant = do move_python_clock instant; write_fake_now instant

  -- `when` is an instant, or none where it is no datetime with an offset; without a `reference` the
  -- clock is read.
  unfoldable pub apply_clock_move :
      (when : Option ℕ) → (reference : Option ℕ) → Run (Runtime W) (Unit {0})
  apply_clock_move none reference = throw (type_error naive_instant)
  apply_clock_move (some instant) reference = do
    outside ensure_connection
    if has_time_machine then pure tt else throw improperly_configured
    λ t. move_both (ltb instant (with_default (python t.world) reference)) instant t

  unfoldable pub release_clock : Run (Runtime W) (Unit {0})
  release_clock t =
      if t.frozen
      then (do
        set_frozen false
        try_finally (outside stop) (outside (do reset_database; reset_session)))
          t
      else pure tt t

  -- `FrozenTime.shift` and the entry of a block without an instant: the clock is read once.
  unfoldable pub shift : ℕ → Run (Runtime W) (Unit {0})
  shift delta t = apply_clock_move (some (python t.world + delta)) (some (python t.world)) t

  abbrev pub enter : Option (Option ℕ) → Run (Runtime W) (Unit {0})
  enter none = shift 0
  enter (some instant) = apply_clock_move instant none

  -- A block whose body moves the clock; a handle that escapes its block, which only raises, has no model.
  unfoldable pub freeze_time :
      {A : Type 0} → Option (Option ℕ) → Run (Runtime W) A → Run (Runtime W) A
  freeze_time instant body t =
      if t.frozen
      then throw runtime_error t
      else try_finally (do enter instant; body) release_clock t
