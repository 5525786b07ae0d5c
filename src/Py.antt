-- ===== src/Py.antt =====
-- The values of Python that the program keeps in `dict[str, Any]`: what JSON can hold. Numbers
-- are integers: no value that the modelled code reads or writes is a float.
pub mod Dict
pub mod Str
use voxera_os.Base.{
  ℕ, zero, suc, String, Bool, true, false, List, [], ◌∷◌, map, not, ◌==◌, Option, none, some,
}
use voxera_os.Base.Int.{ℤ, pos, negsuc}

mutual
  pub data Value : Type 0 where
    null : Value
    bool : Bool → Value
    int : ℤ → Value
    text : String → Value
    array : Items → Value
    object : Fields → Value

  pub data Items : Type 0 where
    nil : Items
    cons : Value → Items → Items

  pub data Fields : Type 0 where
    end : Fields
    field : String → Value → Fields → Fields

-- A Python list of values as a list.
abbrev pub to_list : Items → List Value
to_list nil = []
to_list (cons v vs) = v ∷ to_list vs

abbrev pub of_list : List Value → Items
of_list [] = nil
of_list (v ∷ vs) = cons v (of_list vs)

-- `bool(v)`
unfoldable pub truthy : Value → Bool
truthy null = false
truthy (bool b) = b
truthy (int (pos zero)) = false
truthy (int _) = true
truthy (text s) = not (s == "")
truthy (array nil) = false
truthy (array _) = true
truthy (object end) = false
truthy (object _) = true

-- `isinstance(v, str)` and the like, with the value
abbrev pub as_text : Value → Option String
as_text (text s) = some s
as_text _ = none

abbrev pub as_bool : Value → Option Bool
as_bool (bool b) = some b
as_bool _ = none

abbrev pub as_object : Value → Option Fields
as_object (object d) = some d
as_object _ = none

abbrev pub as_array : Value → Option Items
as_array (array xs) = some xs
as_array _ = none

-- A list of texts, and an optional text, as values.
abbrev pub texts : List String → Value
texts ss = array (of_list (map text ss))

abbrev pub optional_text : Option String → Value
optional_text none = null
optional_text (some s) = text s
