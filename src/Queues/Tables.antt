-- ===== src/Queues/Tables.antt =====
-- The tables of a queue, and `names_a_queue_table` of django_absurd/queues.py.
use Prim.Native.Char.{code}
use django_absurd.Prelude.{
  ℕ, String, Bool, false, ◌&&◌, ◌||◌, not, List, [], ◌∷◌, any, ◌<>◌, nat_beq,
}

abbrev pub queue_table_prefixes : List String
queue_table_prefixes = "t" ∷ "r" ∷ "c" ∷ "e" ∷ "w" ∷ []

-- `f"{prefix}_{queue}"`
abbrev pub table_name : String → String → String
table_name queue prefix = prefix <> "_" <> queue

-- `is_word` tells which characters `\w` stands for, by their codes.
module _ (is_word : ℕ → Bool) where
  -- `\b` stands between a word character and another, or an end of the text.
  abbrev pub boundary : Bool → Bool → Bool
  boundary before after = (before && not after) || (not before && after)

  abbrev pub starts_word : String → Bool
  starts_word String.[] = false
  starts_word (String.◌∷◌ c s) = is_word (code c)

  -- `s` begins with `word`, whose end is a word boundary; `before` tells of the character in front of
  -- what is left of `word`.
  unfoldable pub matches_word : Bool → String → String → Bool
  matches_word before String.[] s = boundary before (starts_word s)
  matches_word before (String.◌∷◌ c word) String.[] = false
  matches_word before (String.◌∷◌ c word) (String.◌∷◌ d s) =
      nat_beq (code c) (code d) && matches_word (is_word (code c)) word s

  -- `re.search(rf"\b{re.escape(word)}\b", s)`, for a word that is not empty
  unfoldable pub finds_word : Bool → String → String → Bool
  finds_word before word String.[] = false
  finds_word before word (String.◌∷◌ c s) =
      (boundary before (is_word (code c)) && matches_word before word (String.◌∷◌ c s))
      || finds_word (is_word (code c)) word s

  unfoldable pub names_a_queue_table : String → String → Bool
  names_a_queue_table message queue =
      any (λ prefix. finds_word false (table_name queue prefix) message) queue_table_prefixes
