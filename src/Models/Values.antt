-- ===== src/Models/Values.antt =====
-- The values of a `dict[str, Any]` that came from JSON or YAML, and `str` of them.
use compliance_framework.Prelude.{
  String, ◌<>◌, Bool, true, false, Option, none, some, List, [], ◌∷◌, Dict, ℤ, str_int,
}

-- A float is given by the text that `repr` makes of it.
mutual
  pub data Value : Type 0 where
    null : Value
    bool : Bool → Value
    int : ℤ → Value
    float : String → Value
    str : String → Value
    obj : Fields → Value
    arr : Items → Value

  pub data Fields : Type 0 where
    end : Fields
    pair : String → Value → Fields → Fields

  pub data Items : Type 0 where
    nil : Items
    cons : Value → Items → Items

abbrev pub fields : Fields → Dict Value
fields end = []
fields (pair k v fs) = (k, v) ∷ fields fs

-- A dictionary as a value, and a list of texts as one.
abbrev pub dict : Dict Value → Fields
dict [] = end
dict ((k, v) ∷ d) = pair k v (dict d)

abbrev pub texts : List String → Items
texts [] = nil
texts (s ∷ ss) = cons (str s) (texts ss)

-- `None` for a missing key and for a key whose value is `None`, which `get` does not tell apart.
abbrev pub not_none : Option Value → Option Value
not_none none = none
not_none (some null) = none
not_none (some v) = some v

-- `repr` of a text is the interpreter's.
module _ (repr : String → String) where
  mutual
    repr_value : Value → String
    repr_value null = "None"
    repr_value (bool true) = "True"
    repr_value (bool false) = "False"
    repr_value (int n) = str_int n
    repr_value (float t) = t
    repr_value (str s) = repr s
    repr_value (arr xs) = "[" <> repr_items xs <> "]"
    repr_value (obj fs) = "{" <> repr_fields fs <> "}"

    repr_items : Items → String
    repr_items nil = ""
    repr_items (cons x nil) = repr_value x
    repr_items (cons x (cons y xs)) = repr_value x <> ", " <> repr_items (cons y xs)

    repr_fields : Fields → String
    repr_fields end = ""
    repr_fields (pair k v end) = repr k <> ": " <> repr_value v
    repr_fields (pair k v (pair j w fs)) =
        repr k <> ": " <> repr_value v <> ", " <> repr_fields (pair j w fs)

  -- `str(value)`
  unfoldable pub str_value : Value → String
  unfolding repr_value repr_items repr_fields
  str_value (str s) = s
  str_value v = repr_value v

  repr_tail : List String → String
  repr_tail [] = "]"
  repr_tail (x ∷ xs) = ", " <> repr x <> repr_tail xs

  -- `str` of a list of texts
  unfoldable pub repr_texts : List String → String
  unfolding repr_tail
  repr_texts [] = "[]"
  repr_texts (x ∷ xs) = "[" <> repr x <> repr_tail xs
