-- ===== src/Frozen/Release.antt =====
-- However a block of `freeze_time` ends, it leaves no frozen clock.
use django_absurd.Prelude.{Bool-cases, ◌⊎◌, inl, inr}
use django_absurd.Prelude.{
  ℕ, Bool, true, false, Option, none, ◌≡◌, refl, sym, ap, ◌∙◌, if◌then◌else◌,
}
use mathlib.Core.Bool.{false≢true}
use django_absurd.Exceptions.{runtime_error}
use django_absurd.Effect.{
  Result, ok, Run, pure, throw, try_finally, try_finally-world, >>=-ok, ◌>>=◌,
}
use django_absurd.Frozen.{Clocks, Runtime, outside, set_frozen, enter, release_clock, freeze_time}

module _ {W : Type 0} (clocks : Clocks W) (fake_now : W → Option ℕ) where
  -- Resetting the database's `fake_now` returns and unsets it; resetting the session's leaves that.
  pub record Resets : Type 0 where
    pub unset :
        (w : W)
        → ((clocks.reset_database w).0 ≡ ok tt) × (fake_now (clocks.reset_database w).1 ≡ none)
    pub session_apart : (w : W) → fake_now (clocks.reset_session w).1 ≡ fake_now w

  module _ (resets : Resets) where
    reset_both :
        (w : W) → fake_now ((clocks.reset_database >>= λ _. clocks.reset_session) w).1 ≡ none
    reset_both w =
        let (done, gone) = resets.unset w in
        ap (λ r. fake_now r.1) (>>=-ok clocks.reset_database (λ _. clocks.reset_session) w tt done)
        ∙ resets.session_apart (clocks.reset_database w).1
        ∙ gone

    abbrev resetting : Run (Runtime W) (Unit {0})
    resetting = outside clocks (clocks.reset_database >>= λ _. clocks.reset_session)

    abbrev releasing : Run (Runtime W) (Unit {0})
    releasing = set_frozen clocks false >>= λ _. try_finally (outside clocks clocks.stop) resetting

    releasing-resets :
        (t : Runtime W) → ((releasing t).1.frozen ≡ false) × (fake_now (releasing t).1.world ≡ none)
    releasing-resets t =
        let t₁ : Runtime W = record { frozen = false; world = t.world } in
        let e = try_finally-world (outside clocks clocks.stop) resetting t₁ in
        (
          ap (λ t. t.frozen) e,
          ap (λ t. fake_now t.world) e ∙ reset_both (outside clocks clocks.stop t₁).1.world,
        )

    release_clock-resets :
        (t : Runtime W)
        → ((release_clock clocks t).1.frozen ≡ false)
          × (t.frozen ≡ true → fake_now (release_clock clocks t).1.world ≡ none)
    unfolding release_clock
    release_clock-resets t = by_frozen t.frozen refl (λ on. releasing-resets t)
      where
        by_frozen :
            (b : Bool)
            → t.frozen ≡ b
            → (t.frozen ≡ true
                → ((releasing t).1.frozen ≡ false) × (fake_now (releasing t).1.world ≡ none))
            → let done : Result (Unit {0}) × Runtime W = if b then releasing t else pure tt t in
              (done.1.frozen ≡ false) × (t.frozen ≡ true → fake_now done.1.world ≡ none)
        by_frozen true e on = ((on e).0, λ _. (on e).1)
        by_frozen false e on = (e, λ frozen. absurd (false≢true (sym e ∙ frozen)))

    -- Where resetting the database's `fake_now` returns and unsets it, and the session's leaves that: a
    -- block of `freeze_time` that is not nested leaves the runtime with no open freeze, however it ends,
    -- and unless its end finds none open the database then has no `fake_now`.
    pub freeze_time-releases :
        {A : Type 0} (instant : Option (Option ℕ)) (body : Run (Runtime W) A) (t : Runtime W)
        → t.frozen ≡ false
        → ((freeze_time clocks instant body t).1.frozen ≡ false)
          × ((((enter clocks instant >>= λ _. body) t).1.frozen ≡ false)
              ⊎ (fake_now (freeze_time clocks instant body t).1.world ≡ none))
    unfolding freeze_time
    freeze_time-releases instant body t fresh =
        let block = enter clocks instant >>= λ _. body in
        let e = try_finally-world block (release_clock clocks) t in
        let (closed, unset) = release_clock-resets (block t).1 in
        let whole =
          ap
            (λ b.
              (if b then throw runtime_error t else try_finally block (release_clock clocks) t).1)
            fresh
          ∙ e in
        (
          ap (λ t. t.frozen) whole ∙ closed,
          elim (Bool-cases (block t).1.frozen) [
            | inl open_freeze ↦ inr (ap (λ t. fake_now t.world) whole ∙ unset open_freeze)
            | inr never ↦ inl never
          ],
        )
