-- ===== src/Dispatch.antt =====
-- django_absurd/dispatch.py: sending one of Django's task signals.
use django_absurd.Prelude.{if◌then◌else◌}
use django_absurd.Exceptions.{Exception, is_exception}
use django_absurd.Effect.{Run, try_except, throw}

module _ {W : Type 0} where
  -- `send` is `signal.send(sender, task_result=…)`, which runs the receivers; `log_exception` is the
  -- `logger.exception` call. A `BaseException` that is no `Exception` goes on to the caller.
  unfoldable pub send_task_signal :
      (log_exception : Exception → Run W (Unit {0})) (send : Run W (Unit {0})) → Run W (Unit {0})
  send_task_signal log_exception send =
      try_except send (λ e. if is_exception e then log_exception e else throw e)
