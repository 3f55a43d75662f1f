-- ===== src/Json.antt =====
-- The dynamic values that travel between nodes: what `json.loads` returns, and what the builders of
-- snapshots and messages hand to `json.dumps`. A tuple is written and read as a list. `float m k` is
-- m / 2^k, as every finite float is; the infinities and NaN are not modelled.
use propagul.Prelude.{
  ℕ, ◌≡◌, refl, ap, Bool, true, false, Option, none, some, List, [], ◌∷◌, Text, ℤ, pos,
}
use propagul.Prelude.Dict.{Dict}

mutual
  pub data Json : Type 0 where
    null : Json
    bool : Bool → Json
    int : ℤ → Json
    float : ℤ → ℕ → Json
    str : Text → Json
    arr : Items → Json
    obj : Fields → Json

  pub data Items : Type 0 where
    nil : Items
    cons : Json → Items → Items

  pub data Fields : Type 0 where
    end : Fields
    field : Text → Json → Fields → Fields

unfoldable pub to_list : Items → List Json
to_list nil = []
to_list (cons j js) = j ∷ to_list js

unfoldable pub of_list : List Json → Items
of_list [] = nil
of_list (j ∷ js) = cons j (of_list js)

unfoldable pub to_dict : Fields → Dict Json
to_dict end = []
to_dict (field k j fs) = (k, j) ∷ to_dict fs

unfoldable pub of_dict : Dict Json → Fields
of_dict [] = end
of_dict ((k, j) ∷ d) = field k j (of_dict d)

-- A list and a dict literal.
abbrev pub list : List Json → Json
list js = arr (of_list js)

abbrev pub dict : Dict Json → Json
dict d = obj (of_dict d)

-- `isinstance(j, dict)`, with the dict
unfoldable pub as_dict : Json → Option (Dict Json)
unfolding to_dict
as_dict (obj fs) = some (to_dict fs)
as_dict _ = none

-- `isinstance(j, list)`, with the list
unfoldable pub as_list : Json → Option (List Json)
unfolding to_list
as_list (arr js) = some (to_list js)
as_list _ = none

-- `isinstance(j, str)`, with the text
unfoldable pub as_text : Json → Option Text
as_text (str s) = some s
as_text _ = none

-- `isinstance(j, int)`: Python's `bool` is a subclass of `int`, and `True == 1`
unfoldable pub as_int : Json → Option ℤ
as_int (int z) = some z
as_int (bool true) = some (pos 1)
as_int (bool false) = some (pos 0)
as_int _ = none

pub to_list-of_list : (js : List Json) → to_list (of_list js) ≡ js
unfolding to_list of_list
to_list-of_list [] = refl
to_list-of_list (j ∷ js) = ap (◌∷◌ j) (to_list-of_list js)

pub to_dict-of_dict : (d : Dict Json) → to_dict (of_dict d) ≡ d
unfolding to_dict of_dict
to_dict-of_dict [] = refl
to_dict-of_dict ((k, j) ∷ d) = ap (◌∷◌ (k, j)) (to_dict-of_dict d)

pub as_list-list : (js : List Json) → as_list (list js) ≡ some js
unfolding as_list
as_list-list js = ap some (to_list-of_list js)

pub as_dict-dict : (d : Dict Json) → as_dict (dict d) ≡ some d
unfolding as_dict
as_dict-dict d = ap some (to_dict-of_dict d)
