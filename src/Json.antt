-- ===== src/Json.antt =====
-- The JSON values that a task's arguments, its spawn options and the settings are made of.
use django_absurd.Prelude.{ℕ, String, Bool, ◌≡◌, refl, ap, Option, none, some, List, [], ◌∷◌, Dict}

mutual
  pub data Json : Type 0 where
    null : Json
    flag : Bool → Json
    number : ℕ → Json
    -- a value that the code never looks into: a float, a negative number
    opaque_value : ℕ → Json
    text : String → Json
    arr : Items → Json
    obj : Fields → Json

  pub data Items : Type 0 where
    nil : Items
    cons : Json → Items → Items

  pub data Fields : Type 0 where
    end : Fields
    field : String → Json → Fields → Fields

abbrev pub items_of : List Json → Items
items_of [] = nil
items_of (x ∷ xs) = cons x (items_of xs)

abbrev pub list_of : Items → List Json
list_of nil = []
list_of (cons x xs) = x ∷ list_of xs

abbrev pub fields_of : Dict Json → Fields
fields_of [] = end
fields_of ((k, v) ∷ d) = field k v (fields_of d)

abbrev pub dict_of : Fields → Dict Json
dict_of end = []
dict_of (field k v d) = (k, v) ∷ dict_of d

abbrev pub array : List Json → Json
array xs = arr (items_of xs)

abbrev pub object : Dict Json → Json
object d = obj (fields_of d)

-- `list(value)` and `dict(value)`, of a list and of a dict; of anything else there is none here.
abbrev pub as_list : Json → Option (List Json)
as_list (arr xs) = some (list_of xs)
as_list _ = none

abbrev pub as_dict : Json → Option (Dict Json)
as_dict (obj d) = some (dict_of d)
as_dict _ = none

pub list_of-items_of : (xs : List Json) → list_of (items_of xs) ≡ xs
list_of-items_of [] = refl
list_of-items_of (x ∷ xs) = ap (λ r. x ∷ r) (list_of-items_of xs)

pub dict_of-fields_of : (d : Dict Json) → dict_of (fields_of d) ≡ d
dict_of-fields_of [] = refl
dict_of-fields_of ((k, v) ∷ d) = ap (λ r. (k, v) ∷ r) (dict_of-fields_of d)
