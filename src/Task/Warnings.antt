-- ===== src/Task/Warnings.antt =====
-- `warn_if_params_are_inert` of tasks.py: one warning for each task path whose params are dropped.
use django_absurd.Prelude.{
  ℕ, ◌+◌, String, ◌≡◌, refl, Bool, ◌&&◌, ◌||◌, not, Option, none, some, List, [], ◌∷◌, contains,
  any, is_some, if◌then◌else◌, arith, ◌==◌, eq_iff,
}
use django_absurd.Task.{Task, django_task, absurd_task, SpawnKwargs}

-- The module's `WARNED_TASK_PATHS`, and the warnings logged so far, newest first.
pub record Warned : Type 0 where
  pub paths : List String
  pub logged : List String

-- `task.absurd_params`; a plain Django task has no such field and is never passed here.
abbrev pub own_params : Task → Option SpawnKwargs
own_params task = elim task.class [ django_task ↦ none | absurd_task own ↦ own ]

-- `is_absurd` tells whether the backend of this alias builds `AbsurdTask`s.
module _ (is_absurd : String → Bool) where
  pub warn_if_params_are_inert : Task → Warned → Warned
  warn_if_params_are_inert task w = elim (own_params task) [
    | none ↦ w
    | some params ↦
        if is_absurd task.backend
        then w
        else if contains w.paths task.module_path
        then w
        else record { paths = task.module_path ∷ w.paths; logged = task.module_path ∷ w.logged }
  ]

  -- `AbsurdTask.enqueue` and `aenqueue`, for their warnings, over a run of calls.
  pub enqueue_all : List Task → Warned → Warned
  enqueue_all [] w = w
  enqueue_all (task ∷ rest) w = enqueue_all rest (warn_if_params_are_inert task w)

  -- The enqueue of this task drops params, and is reported under this path.
  abbrev pub drops : String → Task → Bool
  drops path task =
      (task.module_path == path) && (is_some (own_params task) && not (is_absurd task.backend))

abbrev pub count : String → List String → ℕ
count p [] = 0
count p (q ∷ qs) = let rest = count p qs in if q == p then rest + 1 else rest

module _ (is_absurd : String → Bool) where
  abbrev InStep : String → Warned → Type 0
  InStep p w = count p w.logged ≡ (if contains w.paths p then 1 else 0)

  warn_step :
      (p : String) (task : Task) (w : Warned)
      → InStep p w
      → InStep p (warn_if_params_are_inert is_absurd task w)
        × (contains (warn_if_params_are_inert is_absurd task w).paths p
            ≡ drops is_absurd p task || contains w.paths p)
  unfolding warn_if_params_are_inert
  warn_step p task w h =
      (ground (arith, eq_iff task.module_path p), ground (arith, eq_iff task.module_path p))

  enqueue_all-warned :
      (p : String) (tasks : List Task) (w : Warned)
      → InStep p w
      → InStep p (enqueue_all is_absurd tasks w)
        × (contains (enqueue_all is_absurd tasks w).paths p
            ≡ any (drops is_absurd p) tasks || contains w.paths p)
  unfolding enqueue_all
  enqueue_all-warned p [] w h = (h, refl)
  enqueue_all-warned p (task ∷ rest) w h =
      let (kept, seen) = warn_step p task w h in
      let (counted, found) =
        enqueue_all-warned p rest (warn_if_params_are_inert is_absurd task w) kept in
      (counted, ground (arith, drops is_absurd p task, any (drops is_absurd p) rest))

  -- Over any run of enqueues in one process, a task path is warned of once if some task on it has
  -- params and goes to a backend that is not Absurd's, and it is never warned of otherwise.
  pub enqueue_all-warns_once :
      (p : String) (tasks : List Task)
      → count p (enqueue_all is_absurd tasks (record { paths = []; logged = [] })).logged
        ≡ (if any (drops is_absurd p) tasks then 1 else 0)
  enqueue_all-warns_once p tasks =
      ground (arith, enqueue_all-warned p tasks (record { paths = []; logged = [] }) refl)
