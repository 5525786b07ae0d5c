-- ===== src/Py/Str.antt =====
-- `str(v)` and `repr(v)`. In the `repr` of a text the control characters other than tab, newline
-- and carriage return stand as they are.
use Prim.Native.Char.{Char, code}
use voxera_os.Base.{ℕ, String, Bool, true, false, not, ◌&&◌, ◌||◌, nat_eq, if◌then◌else◌}
use voxera_os.Base.Text.{◌+s◌, has_substring}
use voxera_os.Base.Int.{int_text}
use voxera_os.Py.{Value, null, bool, int, text, array, object, Items, nil, cons, Fields, end, field}

escape_char : ℕ → Char → String
escape_char quote c =
    if nat_eq (code c) quote || nat_eq (code c) 92
    then "\\" +s String.◌∷◌ c ""
    else if nat_eq (code c) 10
    then "\\n"
    else if nat_eq (code c) 13
    then "\\r"
    else if nat_eq (code c) 9
    then "\\t"
    else String.◌∷◌ c ""

escape_text : ℕ → String → String
unfolding escape_char
escape_text quote String.[] = ""
escape_text quote (String.◌∷◌ c s) = escape_char quote c +s escape_text quote s

-- Single quotes, or double ones round a text that has a single quote and no double one.
unfoldable pub repr_text : String → String
unfolding escape_text has_substring
repr_text s =
    if has_substring "'" s && not (has_substring "\"" s)
    then "\"" +s escape_text 34 s +s "\""
    else "'" +s escape_text 39 s +s "'"

abbrev bool_text : Bool → String
bool_text true = "True"
bool_text false = "False"

unfoldable mutual
  unfolding repr_text

  pub repr : Value → String
  repr null = "None"
  repr (bool b) = bool_text b
  repr (int z) = int_text z
  repr (text s) = repr_text s
  repr (array xs) = "[" +s repr_items xs +s "]"
  repr (object d) = "{" +s repr_fields d +s "}"

  pub repr_items : Items → String
  repr_items nil = ""
  repr_items (cons v nil) = repr v
  repr_items (cons v vs) = repr v +s ", " +s repr_items vs

  pub repr_fields : Fields → String
  repr_fields end = ""
  repr_fields (field k v end) = repr_text k +s ": " +s repr v
  repr_fields (field k v d) = repr_text k +s ": " +s repr v +s ", " +s repr_fields d

-- `str(v)`
unfoldable pub py_str : Value → String
unfolding repr
py_str (text s) = s
py_str v = repr v
