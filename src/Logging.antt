-- ===== src/Logging.antt =====
-- django_absurd/logging.py: the handler of the commands that run in the foreground.
use django_absurd.Prelude.{
  ℕ, suc, String, Bool, false, ◌||◌, not, Option, none, some, List, [], ◌∷◌, Dict, any, ◌==◌,
  if◌then◌else◌, nat_beq,
}
use django_absurd.Prelude.Dicts
use django_absurd.Prelude.Texts.{starts_with}
use django_absurd.Json.{Json, as_dict}

abbrev pub logger_name : String
logger_name = "django_absurd"

-- `logging.NOTSET` and `logging.INFO`
abbrev pub notset : ℕ
notset = 0

abbrev pub info : ℕ
info = 20

-- The package's own logger: how many handlers it has, and its level.
pub record PackageLogger : Type 0 where
  pub handlers : ℕ
  pub level : ℕ

abbrev keys : Dict Json → List String
keys [] = []
keys ((k, _) ∷ d) = k ∷ keys d

-- `value.get(key)` of a value that is a dict
abbrev get_of : String → Option Json → Option Json
get_of key none = none
get_of key (some value) = elim (as_dict value) [ none ↦ none | some d ↦ Dicts.get key d ]

abbrev is_package_name : String → Bool
is_package_name name = (name == logger_name) || starts_with "django_absurd." name

-- `config` is `settings.LOGGING`, where it is set.
unfoldable pub declares_absurd_logger : Option Json → Bool
declares_absurd_logger config = elim (get_of "loggers" config) [
  | none ↦ false
  | some loggers ↦ elim (as_dict loggers) [ none ↦ false | some d ↦ any is_package_name (keys d) ]
]

-- `bool` is Python's.
module _ (bool : Json → Bool) where
  abbrev has_handlers : Option Json → Bool
  has_handlers entry = elim (get_of "handlers" entry) [ none ↦ false | some value ↦ bool value ]

  unfoldable pub declares_root_handlers : Option Json → Bool
  declares_root_handlers config =
      has_handlers (get_of "root" config) || has_handlers (get_of "" (get_of "loggers" config))

  unfoldable pub attach_console_handler : Option Json → PackageLogger → PackageLogger
  attach_console_handler config logger =
      if declares_absurd_logger config
      then logger
      else if not (nat_beq logger.handlers 0) || not (nat_beq logger.level notset)
      then logger
      else record {
        handlers = if declares_root_handlers config then logger.handlers else suc logger.handlers;
        level = info;
      }
