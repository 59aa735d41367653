-- ===== src/Tests/Replays.antt =====
-- Tests of durable steps, over checkpoints kept by step name, with a later attempt whose steps raise.
use django_absurd.Prelude.{Dict, ◌≡◌, refl, ap, sym, List, [], ◌∷◌, eq_iff, arith}
use django_absurd.Prelude.Dicts.{get, put, get-put}
use django_absurd.Exceptions.{failed_task}
use django_absurd.Effect.{ok, ok-injective, pure, throw}
use django_absurd.Json.{Json, null, number}
use django_absurd.Context.{TaskContext, step, begin_step, complete_step}
use django_absurd.Context.Durable.{Durable, handle_of}
use django_absurd.Context.Replay.{Step, attempt, attempt-replays}

abbrev by_name : TaskContext (Dict Json)
by_name = record {
  sdk_begin_step = λ name d. (ok (handle_of name (get name d)), d);
  sdk_complete_step = λ handle value d. (ok value, put handle.checkpoint_name value d);
  sdk_heartbeat = λ seconds. pure tt;
  sdk_sleep_for = λ step_name duration. pure tt;
  sdk_sleep_until = λ step_name wake_at. pure tt;
  sdk_await_event = λ event_name step_name timeout. pure null;
  sdk_emit_event = λ event_name payload. pure tt;
  log = λ line. pure tt;
}

by_name_durable : Durable by_name
by_name_durable = record {
  saved = λ d name. get name d;
  next = λ d name. name;
  begun = λ name d h. sym (ok-injective h);
  begins_saved = λ name d state h. ap (λ o. ok (handle_of name o)) h;
  begin_saved = λ name d n. refl;
  begin_next = λ name d d' same n. refl;
  completed = λ handle value result d h. ground (
    arith,
    get-put handle.checkpoint_name handle.checkpoint_name value d,
    eq_iff handle.checkpoint_name handle.checkpoint_name,
    ok-injective h,
  );
  complete_apart = λ handle value d n other.
      ground (arith, get-put handle.checkpoint_name n value d, eq_iff handle.checkpoint_name n);
  complete_next = λ handle value d n. refl;
  logs = λ line d. refl;
  log_saved = λ line d n. refl;
  log_next = λ line d n. refl;
}

abbrev steps : List (Step (Dict Json))
steps =
    record { name = "fetch"; first = pure (number 3); again = throw failed_task }
    ∷ record { name = "store"; first = pure (number 5); again = throw failed_task }
    ∷ []

attempt-replays_example :
    (attempt by_name (λ s. s.again) steps (attempt by_name (λ s. s.first) steps []).1).0
    ≡ ok (number 3 ∷ number 5 ∷ [])
unfolding attempt step begin_step complete_step get put by_name_durable
attempt-replays_example =
    attempt-replays by_name by_name_durable steps [] (attempt by_name (λ s. s.first) steps []).1
      ((λ w n. (refl, refl)), ((λ w n. (refl, refl)), tt)) refl (λ n. refl) (λ n state h. h)
