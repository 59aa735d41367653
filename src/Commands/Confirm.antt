-- ===== src/Commands/Confirm.antt =====
-- A flush that nobody confirms.
use django_absurd.Prelude.{
  String, Bool, true, false, ◌&&◌, not, ◌≡◌, ◌≢◌, refl, sym, ap, ◌∙◌, List, ◌==◌, eq_iff,
  if◌then◌else◌, is_empty,
}
use mathlib.Core.Bool.{false≢true}
use django_absurd.Exceptions.{Exception, backend_not_configured}
use django_absurd.Effect.{Idle, >>=-Idle, if-Idle}
use django_absurd.Effect.{Result, ok, raised, Run, pure, throw, try_except, >>=-eq-ok, raised-ne-ok}
use django_absurd.Backend.{Backend}
use django_absurd.PgCron.Detection.{Environment}
use django_absurd.PgCron.Catalog.{PgCron}
use django_absurd.PgCron.Rows.{Orm}
use django_absurd.Flush.{Flusher}
use django_absurd.Commands.Flush.{
  Said, will_drop, pg_cron_warning, flush_cancelled, no_queues_to_flush, is_eof, confirmation,
  flush_queues, handle,
}

-- An answer that does not confirm: the end of the input, or anything but `yes`.
abbrev pub Declines : {W : Type 0} → Run W String → Type 0
Declines {W} input = (w : W) → (input w).0 ≢ ok "yes"

module _ {W S : Type 0} (state : W → S) (flusher : Flusher W) (env : Environment) (cron : PgCron W)
    (orm : Orm W) (is_installed : Bool) (say : Said → Run W (Unit {0})) (input : Run W String)
    (quiet : (said : Said) → Idle state (say said)) (asks : Idle state input) where
  abbrev cancel_at_end : Exception → Run W String
  cancel_at_end e = if is_eof e then pure "no" else throw e

  abbrev answered : Run W String
  answered = try_except input cancel_at_end

  ended-declines :
      (b : Bool) (e : Exception) (w : W)
      → ((if b then pure {A = String} "no" else throw e) w).0 ≢ ok "yes"
  ended-declines true e w h =
      false≢true (ap (λ r. elim r [ ok a ↦ a == "yes" | raised _ ↦ true ]) h)
  ended-declines false e w h = raised-ne-ok h

  ended-Idle :
      (b : Bool) (e : Exception) → Idle state {A = String} (if b then pure "no" else throw e)
  ended-Idle true e w = refl
  ended-Idle false e w = refl

  answered-Idle : Idle state answered
  answered-Idle w = by_outcome (input w).0
    where
      by_outcome :
          (r : Result String)
          → let done : Result String × W = elim r [
            | ok a ↦ (ok a, (input w).1)
            | raised e ↦ cancel_at_end e (input w).1
          ] in
            state done.1 ≡ state w
      by_outcome (ok a) = asks w
      by_outcome (raised e) = ended-Idle (is_eof e) e (input w).1 ∙ asks w

  answered-Declines : Declines input → (w : W) → (answered w).0 ≢ ok "yes"
  answered-Declines declines w = by_outcome (input w).0 refl
    where
      by_outcome :
          (r : Result String)
          → (input w).0 ≡ r
          → let done : Result String × W = elim r [
            | ok a ↦ (ok a, (input w).1)
            | raised e ↦ cancel_at_end e (input w).1
          ] in
            done.0 ≢ ok "yes"
      by_outcome (ok a) e h = declines w (e ∙ h)
      by_outcome (raised x) e h = ended-declines (is_eof x) x (input w).1 h

  confirmation-Idle :
      (queues : List String)
      → Idle state (confirmation flusher env cron orm is_installed say input true queues)
  unfolding confirmation
  confirmation-Idle queues =
      >>=-Idle state (if is_empty queues then pure tt else say (will_drop queues)) _
        (if-Idle state (is_empty queues) (pure tt) (say (will_drop queues)) (λ _ w. refl)
          (λ _. quiet (will_drop queues)))
        (λ _ w _.
          >>=-Idle state (if is_installed then say pg_cron_warning else pure tt) _
            (if-Idle state is_installed (say pg_cron_warning) (pure tt) (λ _. quiet pg_cron_warning)
              (λ _ w. refl))
            (λ _ w _. answered-Idle _) _)

  confirmation-Declines :
      Declines input
      → (queues : List String) (w : W)
      → (confirmation flusher env cron orm is_installed say input true queues w).0 ≢ ok "yes"
  unfolding confirmation
  confirmation-Declines declines queues w h =
      let (_, _, s₁) =
        >>=-eq-ok (if is_empty queues then pure tt else say (will_drop queues)) _ w h in
      let w₁ = ((if is_empty queues then pure tt else say (will_drop queues)) w).1 in
      let (_, _, s₂) =
        >>=-eq-ok (if is_installed then say pg_cron_warning else pure tt) (λ _. answered) w₁
          (ap (λ r. r.0) (sym s₁) ∙ h) in
      answered-Declines declines _ (ap (λ r. r.0) (sym (s₁ ∙ s₂)) ∙ h)

  -- Where writing a line, asking and listing the queues leave a state of the world alone: unless the
  -- answer to the question is `yes`, an interactive flush leaves that state as it is, however it ends.
  pub handle-declined :
      (backends : List Backend)
      → Idle state flusher.list_provisioned_queues
      → Declines input
      → Idle state (handle flusher env cron orm is_installed say input backends true)
  unfolding handle flush_queues
  handle-declined backends lists declines =
      >>=-Idle state (if is_empty backends then throw backend_not_configured else pure tt) _
        (if-Idle state (is_empty backends) (throw backend_not_configured) (pure tt) (λ _ w. refl)
          (λ _ w. refl))
        (λ _ w _.
          >>=-Idle state flusher.list_provisioned_queues _ lists
            (λ queues w _.
              if-Idle state (is_empty queues && not is_installed) (say no_queues_to_flush) _
                (λ _. quiet no_queues_to_flush)
                (λ _.
                  >>=-Idle state
                    (confirmation flusher env cron orm is_installed say input true queues) _
                    (confirmation-Idle queues)
                    (λ confirm w answer.
                      if-Idle state (confirm == "yes") _ (say flush_cancelled)
                        (λ same. absurd (
                          confirmation-Declines declines queues w
                            (answer ∙ ap ok ((eq_iff confirm "yes").0 same))))
                        (λ _. quiet flush_cancelled) _))
                _)
            _)
