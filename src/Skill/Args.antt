-- ===== src/Skill/Args.antt =====
-- src/voxera/skills/arg_normalizer.py: the canonical form of a skill's arguments. Python's floats
-- are not modelled: `float` of a text, cut to an `int`, is the argument `read_float`.
pub mod Shlex
pub mod Laws
use voxera_os.Base.{
  ℕ, min, String, Bool, true, false, Option, none, some, List, [], ◌∷◌, ◌||◌, not, ◌==◌, any,
  contains, if◌then◌else◌,
}
use voxera_os.Base.Text.{strip, lower, has_substring, is_empty, decimal}
use voxera_os.Base.Int.{ℤ, pos, to_ℕ}
use voxera_os.Py.{
  Value, null, bool, int, text, array, object, Items, nil, cons, Fields, of_list, texts,
}
use voxera_os.Py.Dict.{find, get, has, put}
use voxera_os.Py.Str.{py_str}
use voxera_os.Skill.Args.Shlex.{SplitResult, shlex_split}

-- What `int(float(text))` gives: a `ValueError`, an `OverflowError` or a number.
pub data FloatRead : Type 0 where
  value_error overflow_error : FloatRead
  whole : ℤ → FloatRead

-- A result, or the exception that leaves the function.
pub data Canonical (A : Type 0) : Type 0 where
  done : A → Canonical A
  raised : String → Canonical A

open_app_alias : List (String × String)
open_app_alias =
    ("firefox", "firefox")
    ∷ ("mozilla firefox", "firefox")
    ∷ ("terminal", "gnome-terminal")
    ∷ ("gnome terminal", "gnome-terminal")
    ∷ ("gnome-terminal", "gnome-terminal")
    ∷ ("calculator", "gnome-calculator")
    ∷ ("gnome calculator", "gnome-calculator")
    ∷ ("gnome-calculator", "gnome-calculator")
    ∷ ("settings", "gnome-control-center")
    ∷ ("system settings", "gnome-control-center")
    ∷ ("gnome-control-center", "gnome-control-center")
    ∷ []

alias_of : String → List (String × String) → String
alias_of name [] = name
alias_of name ((k, v) ∷ rest) = if k == name then v else alias_of name rest

-- `args.get(k, "")`
abbrev get_or_empty : String → Fields → Value
get_or_empty k args = elim (find k args) [ none ↦ text "" | some v ↦ v ]

unfoldable pub canonical_open_app : Fields → Fields
unfolding open_app_alias alias_of
canonical_open_app args =
    let name = lower (strip (py_str (get_or_empty "name" args))) in
    if is_empty name then args else put "name" (text (alias_of name open_app_alias)) args

-- `str(min(100, max(0, value)))`
abbrev pub clamped : ℤ → Value
clamped z = text (decimal (min 100 (to_ℕ z)))

abbrev bool_int : Bool → ℤ
bool_int true = pos 1
bool_int false = pos 0

-- `int(float(raw))`
unfoldable pub int_of_float : (String → FloatRead) → Value → FloatRead
int_of_float read_float null = value_error
int_of_float read_float (bool b) = whole (bool_int b)
int_of_float read_float (int z) = whole z
int_of_float read_float (text s) = read_float s
int_of_float read_float (array xs) = value_error
int_of_float read_float (object d) = value_error

set_percent : Fields → FloatRead → Canonical Fields
set_percent args value_error = done args
set_percent args overflow_error = raised "OverflowError"
set_percent args (whole z) = done (put "percent" (clamped z) args)

unfoldable pub canonical_set_volume : (String → FloatRead) → Fields → Canonical Fields
unfolding set_percent int_of_float
canonical_set_volume read_float args =
    set_percent args (int_of_float read_float (get "percent" args))

unfoldable pub canonical_write_text : Fields → Fields
canonical_write_text args =
    if has "text" args
    then args
    else if has "content" args
    then put "text" (get "content" args) args
    else if has "body" args
    then put "text" (get "body" args) args
    else args

abbrev pub sandbox_argv_empty_msg : String
sandbox_argv_empty_msg =
    "sandbox.exec command must be a non-empty list of strings. Provide args.command as a list like ['bash','-lc','echo hello'] or a non-empty string."

abbrev pub sandbox_argv_unsafe_string_msg : String
sandbox_argv_unsafe_string_msg =
    "sandbox.exec command string contains shell-control operators that are ambiguous without an explicit shell. Use argv list form or wrap explicitly as ['bash','-lc','<cmd>']."

abbrev pub shell_control_tokens : List String
shell_control_tokens = ";" ∷ "&&" ∷ "||" ∷ "|" ∷ ">" ∷ ">>" ∷ "<" ∷ "2>" ∷ "&" ∷ []

-- A `ValueError` with its message, or the argv.
abbrev pub Argv : Type 0
Argv = Canonical (List String)

-- The first of the three keys that is there.
abbrev pub command_value : Fields → Option Value
command_value args =
    if has "command" args
    then some (get "command" args)
    else if has "argv" args
    then some (get "argv" args)
    else if has "cmd" args
    then some (get "cmd" args)
    else none

-- `if not argv: raise`
unfoldable pub require_argv : List String → Argv
require_argv [] = raised sandbox_argv_empty_msg
require_argv (t ∷ ts) = done (t ∷ ts)

unfoldable pub is_control : String → Bool
is_control t = contains t shell_control_tokens

split_argv : SplitResult → Argv
split_argv none = raised "shlex.split"
split_argv (some ts) =
    if any is_control ts then raised sandbox_argv_unsafe_string_msg else require_argv ts

-- The loop over a list: every item a text, none blank and none with a null character.
list_argv : Items → Argv
list_argv nil = done []
list_argv (cons (text t) ts) =
    let rest = list_argv ts in
    if is_empty (strip t) || has_substring "\0" t
    then raised sandbox_argv_empty_msg
    else elim rest [ done r ↦ done (t ∷ r) | raised m ↦ raised m ]
list_argv (cons v ts) = raised sandbox_argv_empty_msg

nonempty_argv : Argv → Argv
nonempty_argv (done ts) = require_argv ts
nonempty_argv (raised m) = raised m

argv_of_value : Option Value → Argv
unfolding split_argv list_argv nonempty_argv require_argv is_control
argv_of_value none = raised sandbox_argv_empty_msg
argv_of_value (some (text s)) = split_argv (shlex_split (strip s))
argv_of_value (some (array xs)) = nonempty_argv (list_argv xs)
argv_of_value (some v) = raised sandbox_argv_empty_msg

unfoldable pub canonicalize_argv : Fields → Argv
unfolding argv_of_value
canonicalize_argv args = argv_of_value (command_value args)

unfoldable pub canonical_sandbox_exec : Fields → Fields
canonical_sandbox_exec args = elim (canonicalize_argv args) [
  | done argv ↦ put "command" (texts argv) args
  | raised m ↦ args
]

unfoldable pub canonicalize_args : (String → FloatRead) → String → Fields → Canonical Fields
canonicalize_args read_float skill_id args =
    if skill_id == "system.open_app"
    then done (canonical_open_app args)
    else if skill_id == "system.set_volume"
    then canonical_set_volume read_float args
    else if skill_id == "files.write_text"
    then done (canonical_write_text args)
    else if skill_id == "sandbox.exec"
    then done (canonical_sandbox_exec args)
    else done args
