-- ===== src/Tests/Clocks.antt =====
-- Tests of the frozen clock, over a world of Python's instant and the database's `fake_now`.
use django_absurd.Prelude.{◌⊎◌}
use django_absurd.Prelude.{
  ℕ, ◌≤◌, ◌≡◌, refl, false, true, Option, none, some, inl, with_default, arith,
}
use django_absurd.Exceptions.{other}
use django_absurd.Effect.{pure, throw, ok, ◌>>=◌}
use django_absurd.Frozen.{Clocks, Runtime, apply_clock_move, enter, freeze_time, shift}
use django_absurd.Frozen.Ahead.{Works, apply_clock_move-Ahead}
use django_absurd.Frozen.Release.{Resets, freeze_time-releases}

abbrev Hands : Type 0
Hands = ℕ × Option ℕ

-- The clock of a new session; without a `fake_now` it is the real time, which is 0 here.
abbrev postgres : Hands → ℕ
postgres (python, fake) = with_default 0 fake

-- Writing the session's `fake_now` and stopping time-machine always raise here.
abbrev hands : Clocks Hands
hands = record {
  python = λ w. w.0;
  ensure_connection = pure tt;
  has_time_machine = true;
  start = λ instant w. (ok tt, (instant, w.1));
  move_to = λ instant w. (ok tt, (instant, w.1));
  stop = throw (other 1);
  alter_database = λ instant w. (ok tt, (w.0, some instant));
  set_session = λ instant. throw (other 2);
  reset_database = λ w. (ok tt, (w.0, none));
  reset_session = pure tt;
}

hands_works : Works hands postgres
hands_works = record {
  starts = λ instant. record { returned = λ w h. refl; either = λ w. inl refl; apart = λ w. refl };
  moves = λ instant. record { returned = λ w h. refl; either = λ w. inl refl; apart = λ w. refl };
  alters = λ instant. record { returned = λ w h. refl; either = λ w. inl refl; apart = λ w. refl };
  sessions = λ instant w. (refl, refl);
  connects = λ w. (refl, refl);
}

abbrev frozen_at : ℕ → Runtime Hands
frozen_at n = record { frozen = true; world = (n, some n) }

abbrev moved : ℕ → Runtime Hands
moved n = (apply_clock_move hands (some n) none (frozen_at 50)).1

apply_clock_move-Ahead_example : postgres (moved 20).world ≤ (moved 20).world.0
apply_clock_move-Ahead_example =
    apply_clock_move-Ahead hands postgres hands_works (some 20) none (frozen_at 50)
      (λ now h. absurd (cc)) (omega arith)

hands_resets : Resets hands (λ w. w.1)
hands_resets = record { unset = λ w. (refl, refl); session_apart = λ w. refl }

abbrev thawed : Runtime Hands
thawed = record { frozen = false; world = (0, none) }

freeze_time-releases_example :
    let left = (freeze_time hands (some (some 7)) (shift hands 3) thawed).1 in
    (left.frozen ≡ false)
    × ((((enter hands (some (some 7)) >>= λ _. shift hands 3) thawed).1.frozen ≡ false)
        ⊎ (left.world.1 ≡ none))
freeze_time-releases_example =
    freeze_time-releases hands (λ w. w.1) hands_resets (some (some 7)) (shift hands 3) thawed refl
