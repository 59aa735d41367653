-- ===== src/Context/Durable.antt =====
-- What the SDK documents of checkpoints, and what a step makes of them.
use django_absurd.Prelude.{
  String, ◌≡◌, ◌≢◌, refl, sym, ap, ◌∙◌, subst, Bool, true, false, Option, none, some, Bool-cases,
  inl, inr, is_some, with_default,
}
use django_absurd.Effect.{ok, Run, pure, >>=-ok, >>=-eq-ok, ◌>>=◌}
use mathlib.Core.Bool.{false≢true}
use django_absurd.Context
use django_absurd.Context.{complete_step}
use django_absurd.Prelude.{if◌then◌else◌}
use django_absurd.Effect.{>>=-after, ok-injective}
use django_absurd.Json.{Json, null}
use django_absurd.Context.{TaskContext, StepHandle, step_replayed, step_completed, begin_step, step}

-- A handle on a checkpoint.
abbrev pub handle_of : String → Option Json → StepHandle
handle_of checkpoint_name state = record {
  checkpoint_name = checkpoint_name;
  done = is_some state;
  state = with_default null state;
}

module _ {W : Type 0} (context : TaskContext W) where
  -- What the SDK documents of its checkpoints: `saved` are those of the task's attempts so far, and
  -- `next` the name that the next step of a name takes in this attempt. Beginning a step hands out what
  -- is saved under its name; completing it saves its value; neither touches another checkpoint.
  pub record Durable : Type 0 where
    pub saved : W → String → Option Json
    pub next : W → String → String
    pub begun :
        (name : String) (w : W) {handle : StepHandle}
        → (context.sdk_begin_step name w).0 ≡ ok handle
        → handle ≡ handle_of (next w name) (saved w (next w name))
    pub begins_saved :
        (name : String) (w : W) (state : Json)
        → saved w (next w name) ≡ some state
        → (context.sdk_begin_step name w).0 ≡ ok (handle_of (next w name) (some state))
    pub begin_saved :
        (name : String) (w : W) (n : String) → saved (context.sdk_begin_step name w).1 n ≡ saved w n
    pub begin_next :
        (name : String) (w w' : W)
        → ((n : String) → next w' n ≡ next w n)
        → (n : String)
        → next (context.sdk_begin_step name w').1 n ≡ next (context.sdk_begin_step name w).1 n
    pub completed :
        (handle : StepHandle) (value result : Json) (w : W)
        → (context.sdk_complete_step handle value w).0 ≡ ok result
        → saved (context.sdk_complete_step handle value w).1 handle.checkpoint_name ≡ some result
    pub complete_apart :
        (handle : StepHandle) (value : Json) (w : W) (n : String)
        → n ≢ handle.checkpoint_name
        → saved (context.sdk_complete_step handle value w).1 n ≡ saved w n
    pub complete_next :
        (handle : StepHandle) (value : Json) (w : W) (n : String)
        → next (context.sdk_complete_step handle value w).1 n ≡ next w n
    pub logs : (line : Context.Line) (w : W) → (context.log line w).0 ≡ ok tt
    pub log_saved :
        (line : Context.Line) (w : W) (n : String) → saved (context.log line w).1 n ≡ saved w n
    pub log_next :
        (line : Context.Line) (w : W) (n : String) → next (context.log line w).1 n ≡ next w n

  module _ (durable : Durable) where
    open durable use {saved, next}

    -- A function that takes no steps of its own.
    abbrev pub Quiet : {A : Type 0} → Run W A → Type 0
    Quiet m = (w : W) (n : String) → (saved (m w).1 n ≡ saved w n) × (next (m w).1 n ≡ next w n)

    abbrev pub checkpoint : W → String → Option Json
    checkpoint w name = saved w (next w name)

    abbrev replay_line : StepHandle → Run W (Unit {0})
    replay_line handle =
        if handle.done then context.log (step_replayed handle.checkpoint_name) else pure tt

    replay_line-ok : (handle : StepHandle) (w : W) → (replay_line handle w).0 ≡ ok tt
    replay_line-ok handle w = elim (Bool-cases handle.done) [
      | inl done ↦ rw done (durable.logs (step_replayed handle.checkpoint_name) w)
      | inr fresh ↦ rw fresh refl
    ]

    replay_line-Quiet : (handle : StepHandle) → Quiet (replay_line handle)
    replay_line-Quiet handle w n = elim (Bool-cases handle.done) [
      | inl done ↦ rw done (
        durable.log_saved (step_replayed handle.checkpoint_name) w n,
        durable.log_next (step_replayed handle.checkpoint_name) w n,
      )
      | inr fresh ↦ rw fresh (refl, refl)
    ]

    abbrev after_begin : StepHandle → Run W StepHandle
    after_begin handle = replay_line handle >>= λ _. pure handle

    after_begin_lem :
        (handle : StepHandle) (w : W) → after_begin handle w ≡ (ok handle, (replay_line handle w).1)
    after_begin_lem handle w =
        >>=-ok (replay_line handle) (λ _. pure handle) w tt (replay_line-ok handle w)

    pub begin_step-saved :
        (name : String) (w : W) (n : String) → saved (begin_step context name w).1 n ≡ saved w n
    unfolding begin_step
    begin_step-saved name w n =
        >>=-after (λ w'. saved w' n ≡ saved w n) (context.sdk_begin_step name) after_begin w
          (durable.begin_saved name w n)
          (λ handle _.
            ap (λ r. saved r.1 n) (after_begin_lem handle (context.sdk_begin_step name w).1)
            ∙ (replay_line-Quiet handle (context.sdk_begin_step name w).1 n).0
            ∙ durable.begin_saved name w n)

    pub begin_step-next :
        (name : String) (w : W) (n : String)
        → next (begin_step context name w).1 n ≡ next (context.sdk_begin_step name w).1 n
    unfolding begin_step
    begin_step-next name w n =
        >>=-after (λ w'. next w' n ≡ next (context.sdk_begin_step name w).1 n)
          (context.sdk_begin_step name) after_begin w refl
          (λ handle _.
            ap (λ r. next r.1 n) (after_begin_lem handle (context.sdk_begin_step name w).1)
            ∙ (replay_line-Quiet handle (context.sdk_begin_step name w).1 n).1)

    begin_step-handle :
        (name : String) (w : W) {handle : StepHandle}
        → (begin_step context name w).0 ≡ ok handle
        → handle ≡ handle_of (next w name) (checkpoint w name)
    unfolding begin_step
    begin_step-handle name w h =
        let (handle, begun, s) = >>=-eq-ok (context.sdk_begin_step name) after_begin w h in
        sym (
          ok-injective (
            ap (λ r. r.0) (sym (s ∙ after_begin_lem handle (context.sdk_begin_step name w).1)) ∙ h))
        ∙ durable.begun name w begun

    begin_step-replayed :
        (name : String) (w : W) (state : Json)
        → checkpoint w name ≡ some state
        → (begin_step context name w).0 ≡ ok (handle_of (next w name) (some state))
    unfolding begin_step
    begin_step-replayed name w state h =
        let handle = handle_of (next w name) (some state) in
        ap (λ r. r.0)
          (>>=-ok (context.sdk_begin_step name) after_begin w handle
              (durable.begins_saved name w state h)
            ∙ after_begin_lem handle (context.sdk_begin_step name w).1)

    -- What `step` does with a handle on a fresh checkpoint.
    abbrev complete : StepHandle → Json → Run W Json
    complete handle rv = context.sdk_complete_step handle rv >>= λ result.
        context.log (step_completed handle.checkpoint_name) >>= λ _. pure result

    abbrev finish : Run W Json → StepHandle → Run W Json
    finish fn handle = if handle.done then pure handle.state else (fn >>= complete handle)

    -- The replay of a saved step, whatever its function would do.
    pub step_replayed_lem :
        (name : String) (fn : Run W Json) (w : W) (state : Json)
        → checkpoint w name ≡ some state
        → step context name fn w ≡ (ok state, (begin_step context name w).1)
    unfolding step complete_step
    step_replayed_lem name fn w state h =
        >>=-ok (begin_step context name) (finish fn) w (handle_of (next w name) (some state))
          (begin_step-replayed name w state h)

    if_after :
        (P : W → Type 0) (b : Bool) (x y : Run W Json) (w : W)
        → (b ≡ true → P (x w).1)
        → (b ≡ false → P (y w).1)
        → P ((if b then x else y) w).1
    if_after P true x y w on off = on refl
    if_after P false x y w on off = off refl

    -- A handle on a saved checkpoint is done.
    saved_done :
        (handle : StepHandle) (w : W) (name n : String) (state : Json)
        → handle ≡ handle_of (next w name) (checkpoint w name)
        → handle.done ≡ false
        → saved w n ≡ some state
        → n ≢ handle.checkpoint_name
    saved_done handle w name n state is fresh h e = false≢true (
        sym fresh
        ∙ ap (λ r. r.done) is
        ∙ ap is_some (ap (saved w) (sym (e ∙ ap (λ r. r.checkpoint_name) is)) ∙ h))

    completing :
        (fn : Run W Json)
        → Quiet fn
        → (P : W → Type 0) (handle : StepHandle) (w : W)
        → ((w' : W) → ((n : String) → (saved w' n ≡ saved w n) × (next w' n ≡ next w n)) → P w')
        → ((w' : W)
            → ((n : String) → n ≢ handle.checkpoint_name → saved w' n ≡ saved w n)
            → ((n : String) → next w' n ≡ next w n)
            → P w')
        → P ((fn >>= complete handle) w).1
    completing fn quiet P handle w untouched written =
        >>=-after P fn (complete handle) w (untouched (fn w).1 (quiet w)) (λ rv _.
          let w₁ = (fn w).1 in
          let w₂ = (context.sdk_complete_step handle rv w₁).1 in
          let apart = λ (n : String) (other : n ≢ handle.checkpoint_name).
            durable.complete_apart handle rv w₁ n other ∙ (quiet w n).0 in
          let named = λ (n : String). durable.complete_next handle rv w₁ n ∙ (quiet w n).1 in
          >>=-after P (context.sdk_complete_step handle rv) _ w₁ (written w₂ apart named)
            (λ result _.
              let line = step_completed handle.checkpoint_name in
              let w₃ = (context.log line w₂).1 in
              let there =
                written w₃ (λ n other. durable.log_saved line w₂ n ∙ apart n other)
                  (λ n. durable.log_next line w₂ n ∙ named n) in
              >>=-after P (context.log line) (λ _. pure result) w₂ there (λ _ _. there)))

    -- A step that completed is saved.
    completes :
        (fn : Run W Json) (handle : StepHandle) (w : W) (result : Json)
        → ((fn >>= complete handle) w).0 ≡ ok result
        → saved ((fn >>= complete handle) w).1 handle.checkpoint_name ≡ some result
    completes fn handle w result h =
        let line = step_completed handle.checkpoint_name in
        let (rv, _, s₁) = >>=-eq-ok fn (complete handle) w h in
        let w₁ = (fn w).1 in
        let h₁ = ap (λ r. r.0) (sym s₁) ∙ h in
        let (written, done, s₂) =
          >>=-eq-ok (context.sdk_complete_step handle rv)
            (λ result. context.log line >>= λ _. pure result) w₁ h₁ in
        let w₂ = (context.sdk_complete_step handle rv w₁).1 in
        let s₃ = >>=-ok (context.log line) (λ _. pure written) w₂ tt (durable.logs line w₂) in
        let same = ok-injective (ap (λ r. r.0) (sym (s₁ ∙ s₂ ∙ s₃)) ∙ h) in
        ap (λ r. saved r.1 handle.checkpoint_name) (s₁ ∙ s₂ ∙ s₃)
        ∙ durable.log_saved line w₂ handle.checkpoint_name
        ∙ durable.completed handle rv written w₁ done
        ∙ ap some same

    module _ (name : String) (fn : Run W Json) (quiet : Quiet fn) where
      -- The name that the next step takes does not depend on what this one's function did.
      pub step-next :
          (w : W) (n : String)
          → next (step context name fn w).1 n ≡ next (context.sdk_begin_step name w).1 n
      unfolding step complete_step
      step-next w n =
          let P = λ (w' : W). next w' n ≡ next (context.sdk_begin_step name w).1 n in
          let w₁ = (begin_step context name w).1 in
          >>=-after P (begin_step context name) (finish fn) w (begin_step-next name w n)
            (λ handle _.
              if_after P handle.done (pure handle.state) (fn >>= complete handle) w₁
                (λ _. begin_step-next name w n)
                (λ _.
                  completing fn quiet P handle w₁ (λ w' same. (same n).1 ∙ begin_step-next name w n)
                    (λ w' apart named. named n ∙ begin_step-next name w n)))

      -- A saved checkpoint stays as it is.
      pub step-grows :
          (w : W) (n : String) (state : Json)
          → saved w n ≡ some state
          → saved (step context name fn w).1 n ≡ some state
      unfolding step complete_step
      step-grows w n state h =
          let P = λ (w' : W). saved w' n ≡ some state in
          let w₁ = (begin_step context name w).1 in
          let kept : saved w₁ n ≡ some state = begin_step-saved name w n ∙ h in
          >>=-after P (begin_step context name) (finish fn) w kept (λ handle begun.
            if_after P handle.done (pure handle.state) (fn >>= complete handle) w₁ (λ _. kept)
              (λ fresh.
                completing fn quiet P handle w₁ (λ w' same. (same n).0 ∙ kept)
                  (λ w' apart named.
                    apart n
                      (saved_done handle w name n state (begin_step-handle name w begun) fresh h)
                    ∙ kept)))

      -- What is done with the handle that a step begins with.
      saves_checkpoint :
          (w : W) (handle : StepHandle) (o : Option Json) (result : Json)
          → checkpoint w name ≡ o
          → handle ≡ handle_of (next w name) (checkpoint w name)
          → (finish fn handle (begin_step context name w).1).0 ≡ ok result
          → saved (finish fn handle (begin_step context name w).1).1 (next w name) ≡ some result
      saves_checkpoint w handle none result fresh is h =
          let w₁ = (begin_step context name w).1 in
          subst
            (λ handle.
              (finish fn handle w₁).0 ≡ ok result
              → saved (finish fn handle w₁).1 (next w name) ≡ some result)
            (sym (is ∙ ap (handle_of (next w name)) fresh))
            (completes fn (handle_of (next w name) none) w₁ result) h
      saves_checkpoint w handle (some state) result found is h =
          let w₁ = (begin_step context name w).1 in
          subst
            (λ handle.
              (finish fn handle w₁).0 ≡ ok result
              → saved (finish fn handle w₁).1 (next w name) ≡ some result)
            (sym (is ∙ ap (handle_of (next w name)) found))
            (λ returned.
              begin_step-saved name w (next w name) ∙ found ∙ ap some (ok-injective returned))
            h

      -- A step that returned is saved, under the name that it took.
      pub step-saved :
          (w : W) (result : Json)
          → (step context name fn w).0 ≡ ok result
          → saved (step context name fn w).1 (next w name) ≡ some result
      unfolding step complete_step
      step-saved w result h =
          let (handle, begun, s) = >>=-eq-ok (begin_step context name) (finish fn) w h in
          ap (λ r. saved r.1 (next w name)) s
          ∙ saves_checkpoint w handle (checkpoint w name) result refl
              (begin_step-handle name w begun) (ap (λ r. r.0) (sym s) ∙ h)
