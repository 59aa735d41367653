-- ===== src/Admin/Columns.antt =====
-- The columns of the admin's views, read off their statements, and those that its models select.
use Prim.Native.Char.{code}
use django_absurd.Prelude.{
  ℕ, suc, ◌-◌, String, Bool, ◌||◌, ◌&&◌, ◌≡◌, refl, List, [], ◌∷◌, ◌++◌, ◌<>◌, map, All,
  if◌then◌else◌, ◌==◌, nat_beq,
}
use django_absurd.Prelude.Dicts
use django_absurd.Admin.{
  ColumnType, Piece, sql, literal, identifier, Composable, admin_entity_specs,
}
use django_absurd.Admin.Views.{compose_column_expr, compose_queue_arm, compose_empty_arm}
use django_absurd.Admin.Models.{
  Field, own, foreign_key, build_model_field, plain_field, put_fields, make_field, admin_fields,
}

-- The words of a SELECT.
pub data Token : Type 0 where
  word name : String → Token
  value comma open_paren close_paren : Token

abbrev flushed : String → List Token → List Token
flushed w rest = if w == "" then rest else word w ∷ rest

abbrev is_break : ℕ → Bool
is_break c = nat_beq c b' ' || nat_beq c b',' || nat_beq c b'(' || nat_beq c b')'

abbrev mark : ℕ → List Token → List Token
mark c rest =
    if nat_beq c b','
    then comma ∷ rest
    else if nat_beq c b'('
    then open_paren ∷ rest
    else if nat_beq c b')'
    then close_paren ∷ rest
    else rest

-- The tokens of a text, of which `w` is the word that it begins with.
unfoldable pub tokens_of : (w : String) → String → List Token
tokens_of w String.[] = flushed w []
tokens_of w (String.◌∷◌ c s) =
    let rest = tokens_of (if is_break (code c) then "" else w <> String.◌∷◌ c String.[]) s in
    if is_break (code c) then flushed w (mark (code c) rest) else rest

abbrev last_of : List String → String
last_of [] = ""
last_of (x ∷ []) = x
last_of (_ ∷ y ∷ ys) = last_of (y ∷ ys)

abbrev tokens_of_piece : Piece → List Token
tokens_of_piece (sql text) = tokens_of "" text
tokens_of_piece (identifier parts) = name (last_of parts) ∷ []
tokens_of_piece (literal _) = value ∷ []

abbrev tokens_of_statement : Composable → List Token
tokens_of_statement [] = []
tokens_of_statement (piece ∷ pieces) = tokens_of_piece piece ++ tokens_of_statement pieces

-- The names of the items up to FROM or WHERE: an item's name is its last word, `last` so far.
unfoldable pub item_names : (depth : ℕ) → (last : String) → List Token → List String
item_names depth last [] = last ∷ []
item_names depth last (comma ∷ tokens) =
    let rest = item_names depth last tokens in if nat_beq depth 0 then last ∷ rest else rest
item_names depth last (word w ∷ tokens) =
    let rest = item_names depth w tokens in
    if nat_beq depth 0 && (w == "FROM" || w == "WHERE") then last ∷ [] else rest
item_names depth last (name n ∷ tokens) = item_names depth n tokens
item_names depth last (value ∷ tokens) = item_names depth last tokens
item_names depth last (open_paren ∷ tokens) = item_names (suc depth) last tokens
item_names depth last (close_paren ∷ tokens) = item_names (depth - 1) last tokens

-- The names of the columns that a SELECT gives.
abbrev pub select_list : Composable → List String
select_list statement = item_names 0 "" (tokens_of_statement statement)

-- The column of a model's field.
abbrev pub column_of : String × Field → String
column_of (field_name, own _ _ _ _ _) = field_name
column_of (field_name, foreign_key _ _ db_column _) = db_column

abbrev pub column_names : List (String × ColumnType) → List String
column_names [] = []
column_names ((col_name, _) ∷ columns) = col_name ∷ column_names columns

-- For each of the five entities: the arm of any queue and the arm of an empty catalog give the same
-- columns in the same order, the queue, the natural key and the entity's own, and its model selects
-- exactly those, a foreign key by its column.
pub arms-columns :
    (queue : String)
    → All
        (λ spec.
          (select_list (compose_queue_arm spec queue)
            ≡ "queue" ∷ "natural_key" ∷ column_names spec.columns)
          × (select_list (compose_empty_arm spec)
              ≡ "queue" ∷ "natural_key" ∷ column_names spec.columns)
          × (map column_of (admin_fields spec)
              ≡ "natural_key" ∷ "queue" ∷ column_names spec.columns))
        admin_entity_specs
unfolding compose_queue_arm compose_column_expr compose_empty_arm tokens_of item_names admin_fields
    put_fields build_model_field plain_field make_field Dicts.put Dicts.get
arms-columns queue = (
  (refl, refl, refl),
  ((refl, refl, refl), ((refl, refl, refl), ((refl, refl, refl), ((refl, refl, refl), tt)))),
)
