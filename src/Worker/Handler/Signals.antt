-- ===== src/Worker/Handler/Signals.antt =====
-- Which of Django's signals a run sends, and how it ends.
use mathlib.Core.List.{append-nil, append_assoc}
use django_absurd.Prelude.{
  ℕ, String, ◌≡◌, ◌≢◌, refl, sym, ◌∙◌, ap, Bool, true, false, ◌&&◌, not, ◌==◌, Option, none, some,
  List, [], ◌∷◌, ◌++◌, Dict, if◌then◌else◌, leb, arith, Bool-cases, inl, inr,
}
use django_absurd.Exceptions.{
  Exception, is_exception, is_sdk_control, not_exception, cancelled_error,
}
use django_absurd.Effect.{Result, ok, raised, throw, try_finally, and_then, >>=-ok, try_finally-ok}
use django_absurd.Json.{Json}
use django_absurd.Task.{Task}
use django_absurd.Task.Merge.{using-ok}
use django_absurd.Backend.{Backend, TaskResult, Status, running, successful, failed}
use django_absurd.Dispatch.{send_task_signal}
use django_absurd.Worker.Handler.{
  Claimed, Signal, task_started, task_finished, Host, is_terminal_attempt, on_worker,
  running_result, build_running_task_result, emit, mark_task_result_failed,
  send_finished_if_terminal, run_task, finish, handle,
}

-- Whether an attempt is the last that the run's ceiling admits.
abbrev pub reaches_ceiling : ℕ → Option ℕ → Bool
reaches_ceiling attempt none = false
reaches_ceiling attempt (some max_attempts) = leb max_attempts attempt

is_terminal_attempt-ceiling :
    (attempt : ℕ) (max_attempts : Option ℕ)
    → is_terminal_attempt attempt max_attempts ≡ reaches_ceiling attempt max_attempts
unfolding is_terminal_attempt
is_terminal_attempt-ceiling attempt none = refl
is_terminal_attempt-ceiling attempt (some max_attempts) = ground arith

-- The signals that should follow `task_started`, by how the task's function ended.
abbrev pub final_signals : Claimed → Result Json → List (Signal × Status)
final_signals claimed (ok value) = (task_finished, successful) ∷ []
final_signals claimed (raised e) =
    if not (is_sdk_control e)
      && (is_exception e && reaches_ceiling claimed.attempt claimed.max_attempts)
    then (task_finished, failed) ∷ []
    else []

abbrev pub is_ok {ℓ} : {A : Type ℓ} → Result A → Bool
is_ok (ok _) = true
is_ok (raised _) = false

-- A host whose sends can be told from its world: only `send` adds to the signals sent, receivers
-- raise nothing beyond an `Exception`, logging and closing connections do not raise.
pub record Observed {W : Type 0} (host : Host W) : Type 0 where
  pub sent : W → List (Signal × Status)
  pub send_sent :
      (s : Signal) (r : TaskResult) (w : W)
      → sent (host.send s r w).1 ≡ sent w ++ (s, r.status) ∷ []
  pub send_raises :
      (s : Signal) (r : TaskResult) (w : W) → (host.send s r w).0 ≢ raised cancelled_error
  pub log_sent : (e : Exception) (w : W) → sent (host.log_exception e w).1 ≡ sent w
  pub log_ok : (e : Exception) (w : W) → (host.log_exception e w).0 ≡ ok tt
  pub close_sent : (w : W) → sent (host.close_old_connections w).1 ≡ sent w
  pub close_ok : (w : W) → (host.close_old_connections w).0 ≡ ok tt
  pub func_sent :
      (t : Task) (c : Option TaskResult) (args : List Json) (kwargs : Dict Json) (w : W)
      → sent (host.func t c args kwargs w).1 ≡ sent w

module _ {W : Type 0} (host : Host W) (o : Observed host) (backend : Backend) (queue : String) where
  contained :
      (out : Result (Unit {0})) (w : W)
      → out ≢ raised cancelled_error
      → let done : Result (Unit {0}) × W = elim out [
        | ok a ↦ (ok a, w)
        | raised e ↦ (if is_exception e then host.log_exception e else throw e) w
      ] in
        (done.0 ≡ ok tt) × (o.sent done.1 ≡ o.sent w)
  contained (ok a) w h = (refl, refl)
  contained (raised e) w h = elim (Bool-cases (is_exception e)) [
    | inl caught ↦ rw caught (o.log_ok e w, o.log_sent e w)
    | inr escapes ↦ absurd (h (ap raised (not_exception e escapes)))
  ]

  -- One send is one signal, and a receiver that fails does not reach the sender.
  emit_sent :
      (s : Signal) (r : TaskResult) (w : W)
      → ((emit host backend queue s r w).0 ≡ ok tt)
        × (o.sent (emit host backend queue s r w).1 ≡ o.sent w ++ (s, r.status) ∷ [])
  unfolding send_task_signal
  emit_sent s r w =
      let (done, same) = contained (host.send s r w).0 (host.send s r w).1 (o.send_raises s r w) in
      (done, same ∙ o.send_sent s r w)

  run_task_sent :
      (task : Task) (r : TaskResult) (args : List Json) (kwargs : Dict Json) (w : W)
      (out : Result Json)
      → ((c : Option TaskResult) (w : W) → (host.func task c args kwargs w).0 ≡ out)
      → ((run_task host backend queue task r args kwargs w).0 ≡ out)
        × (o.sent (run_task host backend queue task r args kwargs w).1 ≡ o.sent w)
  unfolding run_task
  run_task_sent task r args kwargs w out ends =
      let c : Option TaskResult = if task.takes_context then some r else none in
      let opened = (host.close_old_connections w).1 in
      let called = (host.func task c args kwargs opened).1 in
      elim (Bool-cases (host.is_coroutine task)) [
        | inl on_loop ↦ rw on_loop (ends c w, o.func_sent task c args kwargs w)
        | inr in_thread ↦
            let step =
              >>=-ok host.close_old_connections
                (λ _. try_finally (host.func task c args kwargs) host.close_old_connections) w tt
                (o.close_ok w)
              ∙ try_finally-ok (host.func task c args kwargs) host.close_old_connections opened tt
                  (o.close_ok called) in
            rw (in_thread, step)
              (
                ends c opened,
                o.close_sent called ∙ o.func_sent task c args kwargs opened ∙ o.close_sent w,
              )
      ]

  -- A failed run is reported if its attempt reached the ceiling.
  send_finished_sent :
      (claimed : Claimed) (e : Exception) (r : TaskResult) (w : W)
      → ((send_finished_if_terminal host backend queue claimed e r w).0 ≡ ok tt)
        × (o.sent (send_finished_if_terminal host backend queue claimed e r w).1
            ≡ o.sent w
              ++ (if reaches_ceiling claimed.attempt claimed.max_attempts
                  then (task_finished, failed) ∷ []
                  else []))
  unfolding send_finished_if_terminal mark_task_result_failed
  send_finished_sent claimed e r w =
      rw (is_terminal_attempt-ceiling claimed.attempt claimed.max_attempts)
        (elim (Bool-cases (reaches_ceiling claimed.attempt claimed.max_attempts)) [
          | inr again ↦ rw again (refl, sym (append-nil (o.sent w)))
          | inl last ↦
              rw last (emit_sent task_finished (mark_task_result_failed host backend queue e r w) w)
        ])

  finish_sent :
      (claimed : Claimed) (r : TaskResult) (out : Result Json) (w : W)
      → ((v : Json) → (stored : Json) × (host.normalize_json v ≡ ok stored))
      → ((finish host backend queue claimed r out w).0 ≡ out)
        × (o.sent (finish host backend queue claimed r out w).1
            ≡ o.sent w ++ final_signals claimed out)
  unfolding finish
  finish_sent claimed r (ok value) w serializes =
      let (stored, e) = serializes value in
      let (done, sent) =
        emit_sent task_finished
          (record r {
            status = successful;
            finished_at = some (host.now w);
            return_value = some stored;
          })
          w in
      rw (e, and_then) (rw (done, and_then) (refl, sent))
  finish_sent claimed r (raised e) w serializes = elim (Bool-cases (is_sdk_control e)) [
    | inl control ↦ rw control (refl, sym (append-nil (o.sent w)))
    | inr plain ↦ elim (Bool-cases (is_exception e)) [
      | inl reported ↦
          let (done, sent) = send_finished_sent claimed e r w in
          rw (plain, reported, done) (refl, sent)
      | inr base ↦ rw (plain, base) (refl, sym (append-nil (o.sent w)))
    ]
  ]

  on_worker_ok :
      (task : Task)
      → ((t : Task) → host.validate t ≡ ok tt)
      → (own : Task) × (on_worker host backend queue task ≡ ok own)
  unfolding on_worker
  on_worker_ok task accepts =
      elim (Bool-cases ((task.queue_name == queue) && (task.backend == backend.alias))) [
        | inl same ↦ (task, rw same)
        | inr other ↦
            let (moved, e) =
              using-ok host.validate (some queue) (some backend.alias) task accepts in
            (moved, rw other e)
      ]

  build_running_ok :
      (task : Task) (claimed : Claimed) (args : List Json) (kwargs : Dict Json) (w : W)
      → ((t : Task) → host.validate t ≡ ok tt)
      → (r : TaskResult) × (build_running_task_result host backend queue task claimed args kwargs w
          ≡ (ok r, w))
        × (r.status ≡ running)
  unfolding build_running_task_result
  build_running_ok task claimed args kwargs w accepts =
      let (own, e) = on_worker_ok task accepts in
      (
        running_result host backend queue own claimed args kwargs (host.now w),
        rw (e, and_then),
        refl,
      )

  -- Where Django accepts the rebuilt task and every value serializes, the handler ends as the task's
  -- function ends, and sends these signals and no others: `task_started`, then `task_finished` if the
  -- function returned, or if it raised an `Exception` that is not Absurd's own on an attempt whose
  -- number is `max_attempts` or more; without a `max_attempts` no failure is reported.
  pub handle_signals :
      (task : Task) (claimed : Claimed) (args : List Json) (kwargs : Dict Json) (w : W)
      (out : Result Json)
      → ((t : Task) → host.validate t ≡ ok tt)
      → ((v : Json) → (stored : Json) × (host.normalize_json v ≡ ok stored))
      → ((c : Option TaskResult) (w' : W) → (host.func task c args kwargs w').0 ≡ out)
      → ((handle host backend queue task claimed args kwargs w).0 ≡ out)
        × (o.sent (handle host backend queue task claimed args kwargs w).1
            ≡ o.sent w ++ (task_started, running) ∷ final_signals claimed out)
  unfolding handle
  handle_signals task claimed args kwargs w out accepts serializes ends =
      let (r, built, status) = build_running_ok task claimed args kwargs w accepts in
      let (started, s₁) = emit_sent task_started r w in
      let w₁ = (emit host backend queue task_started r w).1 in
      let (ran, s₂) = run_task_sent task r args kwargs w₁ out ends in
      let w₂ = (run_task host backend queue task r args kwargs w₁).1 in
      let (ended, s₃) = finish_sent claimed r out w₂ serializes in
      rw (built, and_then)
        (rw (started, and_then)
          (rw ran (
            ended,
            s₃
                ∙ ap (λ l. l ++ final_signals claimed out) (s₂ ∙ s₁)
                ∙ append_assoc (o.sent w) _ _
                ∙ ap (λ s. o.sent w ++ (task_started, s) ∷ final_signals claimed out) status,
          )))
