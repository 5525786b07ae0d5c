-- ===== src/Base/Text/Affix.antt =====
-- Python's `removesuffix`, `removeprefix` and `replace` of texts.
use voxera_os.Base.{ℕ, zero, suc, ◌-◌, String, Option, none, some, ◌==◌, if◌then◌else◌}
use voxera_os.Base.Text.{◌+s◌, starts_with}

unfoldable pub remove_suffix : String → String → String
remove_suffix tag String.[] = ""
remove_suffix tag (String.◌∷◌ c s) =
    let rest = remove_suffix tag s in if String.◌∷◌ c s == tag then "" else String.◌∷◌ c rest

after_prefix : String → String → Option String
after_prefix String.[] s = some s
after_prefix (String.◌∷◌ p ps) String.[] = none
after_prefix (String.◌∷◌ p ps) (String.◌∷◌ c s) =
    if String.◌∷◌ p "" == String.◌∷◌ c "" then after_prefix ps s else none

unfoldable pub remove_prefix : String → String → String
unfolding after_prefix
remove_prefix p s = elim (after_prefix p s) [ none ↦ s | some r ↦ r ]

text_length : String → ℕ
text_length String.[] = 0
text_length (String.◌∷◌ c s) = suc (text_length s)

-- `skip` letters are left of an occurrence that is replaced already.
replace_from : ℕ → String → String → String → String
replace_from skip old new String.[] = ""
replace_from (suc skip) old new (String.◌∷◌ c s) = replace_from skip old new s
replace_from zero old new (String.◌∷◌ c s) =
    let found = starts_with (String.◌∷◌ c s) old in
    let rest = replace_from (if found then text_length old - 1 else 0) old new s in
    if found then new +s rest else String.◌∷◌ c rest

-- `s.replace(old, new)`, where `old` is not empty
unfoldable pub replace_all : String → String → String → String
unfolding replace_from text_length
replace_all old new s = replace_from 0 old new s
