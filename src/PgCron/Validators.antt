-- ===== src/PgCron/Validators.antt =====
-- django_absurd/pg_cron/validators.py: the grammar of a pg_cron schedule, the names and the queues.
use Prim.Native.Char.{code}
use Prim.Native.Nat.{◌*◌, ◌-◌}
use django_absurd.Prelude.{
  ℕ, suc, ◌+◌, String, Bool, true, false, ◌&&◌, ◌||◌, not, Option, none, some, List, [], ◌∷◌,
  contains, nat_beq, leb, ◌==◌, if◌then◌else◌,
}
use django_absurd.Prelude.Texts.{starts_with}
use django_absurd.Exceptions.{validation_error, attribute_error}
use django_absurd.Effect.{Result, ok, raised, bind_result}
use django_absurd.Json.{Json, text}
use django_absurd.Deferred.{Imported, imported_task, imported_value}
use django_absurd.Validators.{validate_task_path}

abbrev pub refused : Result (Unit {0})
refused = raised (validation_error "")

abbrev is_between : ℕ → ℕ → ℕ → Bool
is_between low high n = leb low n && leb n high

abbrev pub is_digit : ℕ → Bool
is_digit = is_between b'0' b'9'

abbrev is_letter : ℕ → Bool
is_letter n = is_between b'A' b'Z' n || is_between b'a' b'z' n

-- `[A-Za-z0-9_-]`
abbrev is_name_char : ℕ → Bool
is_name_char n = is_letter n || is_digit n || nat_beq n b'_' || nat_beq n b'-'

unfoldable pub all_chars : (ℕ → Bool) → String → Bool
all_chars p String.[] = true
all_chars p (String.◌∷◌ c s) = p (code c) && all_chars p s

unfoldable pub validate_name_charset : Json → Result (Unit {0})
validate_name_charset (text name) =
    if not (name == "") && all_chars is_name_char name then ok tt else refused
validate_name_charset _ = refused

-- The task whose path was validated.
abbrev task_queue : Result Imported → Result String
task_queue (ok (imported_task task)) = ok task.queue_name
task_queue (ok imported_value) = raised attribute_error
task_queue (raised e) = raised e

abbrev task_path_text : Json → String
task_path_text (text path) = path
task_path_text _ = ""

-- The queue of a schedule, and whether it is declared. A task path that is refused is passed over.
unfoldable pub validate_declared_queue :
    (String → Result Imported) → String → Json → List String → Result (Unit {0})
validate_declared_queue import_string queue task_path declared_queues =
    if not (queue == "")
    then (if contains declared_queues queue then ok tt else refused)
    else elim (validate_task_path import_string task_path) [
      | raised (validation_error _) ↦ ok tt
      | raised e ↦ raised e
      | ok _ ↦
          bind_result (task_queue (import_string (task_path_text task_path)))
            λ effective. if contains declared_queues effective then ok tt else refused
    ]

-- `\s` under `re.ASCII`
abbrev is_ascii_space : ℕ → Bool
is_ascii_space n = nat_beq n b' ' || is_between 9 13 n

unfoldable pub skip : (ℕ → Bool) → String → String
skip p String.[] = String.[]
skip p (String.◌∷◌ c s) = let rest = skip p s in if p (code c) then rest else String.◌∷◌ c s

-- The sign of an interval, whether it is a minus, and what follows.
unfoldable pub read_sign : String → Bool × String
read_sign String.[] = (false, String.[])
read_sign (String.◌∷◌ c s) =
    if nat_beq (code c) b'-'
    then (true, s)
    else if nat_beq (code c) b'+'
    then (false, s)
    else (false, String.◌∷◌ c s)

-- `[0-9]+` after digits of this value, with the value of them all.
unfoldable pub read_digits : ℕ → String → ℕ × String
read_digits n String.[] = (n, String.[])
read_digits n (String.◌∷◌ c s) =
    let rest = read_digits (10 * n + (code c - b'0')) s in
    if is_digit (code c) then rest else (n, String.◌∷◌ c s)

unfoldable pub read_number : String → Option (ℕ × String)
read_number String.[] = none
read_number (String.◌∷◌ c s) =
    if is_digit (code c) then some (read_digits (code c - b'0') s) else none

abbrev lower : ℕ → ℕ
lower n = if is_between b'A' b'Z' n then n + 32 else n

-- What follows a word, matched under `re.IGNORECASE`; the word is in lower case.
unfoldable pub after_word : String → String → Option String
after_word String.[] s = some s
after_word (String.◌∷◌ c word) String.[] = none
after_word (String.◌∷◌ c word) (String.◌∷◌ d s) =
    let rest = after_word word s in if nat_beq (code c) (lower (code d)) then rest else none

abbrev is_s : ℕ → Bool
is_s n = nat_beq (lower n) b's'

-- `seconds?\s*` up to the end
abbrev ends_unit : String → Bool
ends_unit s = elim (after_word "seconds" s) [
  | some rest ↦ skip is_ascii_space rest == ""
  | none ↦ elim (after_word "second" s) [
    | some rest ↦ skip is_ascii_space rest == ""
    | none ↦ false
  ]
]

-- `INTERVAL.fullmatch`: whether the number has a minus, and its digits' value.
unfoldable pub read_interval : String → Option (Bool × ℕ)
read_interval expression =
    let signed = read_sign (skip is_ascii_space expression) in
    elim (read_number signed.1) [
      | none ↦ none
      | some (n, rest) ↦ if ends_unit (skip is_ascii_space rest) then some (signed.0, n) else none
    ]

-- `MIN_INTERVAL_SECONDS <= seconds <= MAX_INTERVAL_SECONDS`, of no number with a minus
unfoldable pub validate_interval_seconds : Bool × ℕ → Result (Unit {0})
validate_interval_seconds (minus, n) = if not minus && is_between 1 59 n then ok tt else refused

abbrev pub recurring_aliases : List String
recurring_aliases =
    "@yearly" ∷ "@annually" ∷ "@monthly" ∷ "@weekly" ∷ "@daily" ∷ "@midnight" ∷ "@hourly" ∷ []

abbrev pub non_recurring_aliases : List String
non_recurring_aliases = "@reboot" ∷ "@restart" ∷ []

unfoldable pub validate_alias : String → Result (Unit {0})
validate_alias expression =
    if contains non_recurring_aliases expression
    then refused
    else if contains recurring_aliases expression
    then ok tt
    else refused

-- `[LWRHlwrh]`
abbrev is_modifier : ℕ → Bool
is_modifier n =
    nat_beq (lower n) b'l'
    || nat_beq (lower n) b'w'
    || nat_beq (lower n) b'r'
    || nat_beq (lower n) b'h'

abbrev starts_letter : String → Bool
starts_letter String.[] = false
starts_letter (String.◌∷◌ c s) = is_letter (code c)

-- `UNSUPPORTED_SYNTAX.search`, after a letter or not
unfoldable pub has_unsupported_syntax : Bool → String → Bool
has_unsupported_syntax after_letter String.[] = false
has_unsupported_syntax after_letter (String.◌∷◌ c s) =
    nat_beq (code c) b'#'
    || nat_beq (code c) b'?'
    || (not after_letter && is_modifier (code c) && not (starts_letter s))
    || has_unsupported_syntax (is_letter (code c)) s

-- `is_space` is `str.isspace` of a character, `is_valid_cron` is `croniter.is_valid`.
module _ (is_space : ℕ → Bool) (is_valid_cron : String → Bool) where
  unfoldable pub strip_end : String → String
  strip_end String.[] = String.[]
  strip_end (String.◌∷◌ c s) =
      let rest = strip_end s in
      if is_space (code c) && (rest == "") then String.[] else String.◌∷◌ c rest

  -- `str.strip`
  unfoldable pub strip : String → String
  strip s = strip_end (skip is_space s)

  -- `len(s.split())`, inside a field or not
  unfoldable pub field_count : Bool → String → ℕ
  field_count inside String.[] = 0
  field_count inside (String.◌∷◌ c s) =
      let rest = field_count (not (is_space (code c))) s in
      if is_space (code c) || inside then rest else suc rest

  unfoldable pub validate_fields : String → Result (Unit {0})
  validate_fields expression =
      if not (has_unsupported_syntax false expression)
        && nat_beq (field_count false expression) 5
        && is_valid_cron expression
      then ok tt
      else refused

  unfoldable pub validate_pg_cron_schedule : String → Result (Unit {0})
  validate_pg_cron_schedule cron =
      let expression = strip cron in
      if starts_with "@" expression
      then validate_alias expression
      else elim (read_interval expression) [
        | some interval ↦ validate_interval_seconds interval
        | none ↦ validate_fields expression
      ]
