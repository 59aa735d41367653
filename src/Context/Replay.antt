-- ===== src/Context/Replay.antt =====
-- Durable steps: what an attempt's completed steps leave to the attempts after it.
use django_absurd.Prelude.{String, ◌≡◌, sym, ap, ◌∙◌, some, List, [], ◌∷◌, All}
use django_absurd.Effect.{ok, Run, pure, and_then, >>=-ok, >>=-eq-ok, ◌>>=◌}
use django_absurd.Effect.{>>=-after}
use django_absurd.Json.{Json}
use django_absurd.Context.{TaskContext, begin_step, step}
use django_absurd.Context.Durable.{
  Durable, Quiet, step-next, step-grows, step-saved, step_replayed_lem, begin_step-next,
  begin_step-saved,
}

-- A step of a task, with its function in one attempt and in a later one.
pub record Step (W : Type 0) : Type 0 where
  pub name : String
  pub first : Run W Json
  pub again : Run W Json

module _ {W : Type 0} (context : TaskContext W) where
  -- The body of a task that runs its steps in order.
  unfoldable pub attempt : (Step W → Run W Json) → List (Step W) → Run W (List Json)
  attempt pick [] = pure []
  attempt pick (s ∷ steps) = do
    result ← step context s.name (pick s)
    results ← attempt pick steps
    pure (result ∷ results)

  module _ (durable : Durable context) where
    open durable use {saved, next}

    attempt-grows :
        (steps : List (Step W)) (w : W) (n : String) (state : Json)
        → All (λ s. Quiet context durable s.first) steps
        → saved w n ≡ some state
        → saved (attempt (λ s. s.first) steps w).1 n ≡ some state
    unfolding attempt
    attempt-grows [] w n state quiet h = h
    attempt-grows (s ∷ steps) w n state (first, rest) h =
        let P = λ (w' : W). saved w' n ≡ some state in
        let grown = step-grows context durable s.name s.first first w n state h in
        let w₁ = (step context s.name s.first w).1 in
        let done = attempt-grows steps w₁ n state rest grown in
        >>=-after P (step context s.name s.first) _ w grown
          (λ _ _. >>=-after P (attempt (λ s. s.first) steps) _ w₁ done (λ _ _. done))

    -- Where the SDK keeps its checkpoints and no function of the earlier attempt takes steps of its own:
    -- if an attempt's steps returned, then a later attempt that finds their checkpoints, and names its
    -- steps as the earlier one did, returns the same results from them, whatever its functions would do.
    pub attempt-replays :
        (steps : List (Step W)) (w w' : W) {results : List Json}
        → All (λ s. Quiet context durable s.first) steps
        → (attempt (λ s. s.first) steps w).0 ≡ ok results
        → ((n : String) → next w' n ≡ next w n)
        → ((n : String) (state : Json)
            → saved (attempt (λ s. s.first) steps w).1 n ≡ some state
            → saved w' n ≡ some state)
        → (attempt (λ s. s.again) steps w').0 ≡ ok results
    unfolding attempt
    attempt-replays [] w w' quiet h named found = h
    attempt-replays (s ∷ steps) w w' (first, rest) h named found =
        let w₁ = (step context s.name s.first w).1 in
        let (result, done, s₁) =
          >>=-eq-ok (step context s.name s.first)
            (λ r. attempt (λ s. s.first) steps >>= λ rs. pure (r ∷ rs)) w h in
        let (results, more, s₂) =
          >>=-eq-ok (attempt (λ s. s.first) steps) (λ rs. pure (result ∷ rs)) w₁
            (ap (λ r. r.0) (sym s₁) ∙ h) in
        let whole = s₁ ∙ s₂ in
        let there : saved w' (next w' s.name) ≡ some result =
          ap (saved w') (named s.name)
          ∙ found (next w s.name) result (
              ap (λ r. saved r.1 (next w s.name)) whole
              ∙ attempt-grows steps w₁ (next w s.name) result rest
                  (step-saved context durable s.name s.first first w result done)) in
        let w₁' = (begin_step context s.name w').1 in
        let named' = λ (n : String).
          begin_step-next context durable s.name w' n
          ∙ durable.begin_next s.name w w' named n
          ∙ sym (step-next context durable s.name s.first first w n) in
        let found' =
          λ (n : String) (state : Json)
              (k : saved (attempt (λ s. s.first) steps w₁).1 n ≡ some state).
            begin_step-saved context durable s.name w' n
            ∙ found n state (ap (λ r. saved r.1 n) whole ∙ k) in
        let ih = attempt-replays steps w₁ w₁' rest more named' found' in
        let replayed = step_replayed_lem context durable s.name s.again w' result there in
        ap (λ r. (and_then r.0 (λ r. attempt (λ s. s.again) steps >>= λ rs. pure (r ∷ rs)) r.1).0)
          replayed
        ∙ ap (λ r. r.0)
            (>>=-ok (attempt (λ s. s.again) steps) (λ rs. pure (result ∷ rs)) w₁' results ih)
        ∙ sym (ap (λ r. r.0) whole)
        ∙ h
