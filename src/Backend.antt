-- ===== src/Backend.antt =====
-- django_absurd/backends.py: the backend's settings, `enqueue` and `get_result`.
pub mod Enqueue
pub mod Deferral
pub mod Results
use django_absurd.Prelude.{
  ℕ, String, Bool, true, false, Option, none, some, List, [], ◌∷◌, Dict, map,
}
use django_absurd.Prelude.Dicts
use django_absurd.Json.{Json, obj, dict_of, object}
use django_absurd.Task.{Moment, Task}

pub record Backend : Type 0 where
  pub alias : String
  -- `OPTIONS` of the TASKS entry
  pub options : Dict Json
  -- `set(OPTIONS["QUEUES"])`, or Django's own set of names where that is absent
  pub queues : List String
  pub database : String
  pub default_max_attempts : Json

pub data Status : Type 0 where
  ready running successful failed : Status

pub record TaskError : Type 0 where
  pub exception_class_path : Json
  pub traceback : Json

pub record TaskResult : Type 0 where
  pub task : Task
  pub id : String
  pub status : Status
  pub enqueued_at : Option ℕ
  pub started_at : Option ℕ
  pub finished_at : Option ℕ
  pub last_attempted_at : Option ℕ
  pub args : List Json
  pub kwargs : Dict Json
  pub backend : String
  pub errors : List TaskError
  pub worker_ids : List String
  -- `_return_value`, where it was set
  pub return_value : Option Json

abbrev mapping_or_empty : Json → Dict Json
mapping_or_empty (obj d) = dict_of d
mapping_or_empty _ = []

-- A malformed `OPTIONS["QUEUES"]` declares nothing; without the option every queue of the backend is
-- declared, with no policy.
unfoldable pub get_declared_queues : Backend → Dict Json
get_declared_queues backend = elim (Dicts.get "QUEUES" backend.options) [
  | some declared ↦ mapping_or_empty declared
  | none ↦ map (λ name. (name, object [])) backend.queues
]
