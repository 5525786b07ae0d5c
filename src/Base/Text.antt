-- ===== src/Base/Text.antt =====
-- Python's operations on `str` that the program calls: `strip`, `lower`, `in`, concatenation,
-- `join`, decimal numbers in f-strings, and `sorted` over texts. `lower` is the ASCII one.
pub mod Strip
pub mod Affix
use Prim.Native.Nat.{ℕ, zero, suc, ◌-◌, ◌/◌, ◌%◌, Ordering}
use Prim.Native.Char.{Char, code}
use Prim.Native.String.{String, compare}
use Prim.Native.String.{◌++◌ as append}
use mathlib.Core.Bool.{Bool, true, false, ◌&&◌, ◌||◌}
use mathlib.Core.List.{List, [], ◌∷◌}
use text.Mathlib.Text.{◌==◌}
pub use text.Mathlib.Text.{starts_with}
use voxera_os.Base.Tests.{ltb, leb, nat_eq, if◌then◌else◌}
use voxera_os.Base.Lists.{contains}

infixr 65 ◌+s◌
-- `a + b`, and the parts of an f-string
abbrev pub ◌+s◌ : String → String → String
s +s t = append s t

-- `str.isspace` of one character: the code points that `strip` removes.
unfoldable pub is_space : ℕ → Bool
is_space c =
    (leb 9 c && leb c 13)
    || (leb 28 c && leb c 32)
    || nat_eq c 0x85
    || nat_eq c 0xa0
    || nat_eq c 0x1680
    || (leb 0x2000 c && leb c 0x200a)
    || nat_eq c 0x2028
    || nat_eq c 0x2029
    || nat_eq c 0x202f
    || nat_eq c 0x205f
    || nat_eq c 0x3000

unfoldable pub lstrip : String → String
unfolding is_space
lstrip String.[] = ""
lstrip (String.◌∷◌ c s) = if is_space (code c) then lstrip s else String.◌∷◌ c s

unfoldable pub rstrip : String → String
unfolding is_space
rstrip String.[] = ""
rstrip (String.◌∷◌ c s) =
    let rest = rstrip s in if is_space (code c) && (rest == "") then "" else String.◌∷◌ c rest

-- `s.strip()`
unfoldable pub strip : String → String
unfolding lstrip rstrip
strip s = rstrip (lstrip s)

-- The character at a place of a text, or `c` past its end.
nth_char : String → ℕ → Char → Char
nth_char String.[] n c = c
nth_char (String.◌∷◌ d s) zero c = d
nth_char (String.◌∷◌ d s) (suc n) c = nth_char s n c

lower_char : Char → Char
unfolding nth_char
lower_char c =
    if leb 65 (code c) && leb (code c) 90
    then nth_char "abcdefghijklmnopqrstuvwxyz" (code c - 65) c
    else c

-- `s.lower()`
unfoldable pub lower : String → String
unfolding lower_char
lower String.[] = ""
lower (String.◌∷◌ c s) = String.◌∷◌ (lower_char c) (lower s)

decimal_digits : ℕ → ℕ → String
unfolding nth_char
decimal_digits zero n = ""
decimal_digits (suc fuel) n =
    let rest = decimal_digits fuel (n / 10) in
    let digit = String.◌∷◌ (nth_char "0123456789" (n % 10) "0") "" in
    if ltb n 10 then digit else rest +s digit

-- `str(n)` of a number that is not negative; a number has fewer digits than it is large.
unfoldable pub decimal : ℕ → String
unfolding decimal_digits
decimal n = decimal_digits (suc n) n

-- `t in s` for texts
unfoldable pub has_substring : String → String → Bool
has_substring t String.[] = t == ""
has_substring t (String.◌∷◌ c s) = starts_with (String.◌∷◌ c s) t || has_substring t s

-- `not s`, and so the test that `s or d` makes
abbrev pub is_empty : String → Bool
is_empty s = s == ""

-- `s or d`
abbrev pub or_else : String → String → String
or_else s d = if s == "" then d else s

-- `sep.join(parts)`
unfoldable pub join : String → List String → String
join sep [] = ""
join sep (s ∷ []) = s
join sep (s ∷ t ∷ r) = s +s sep +s join sep (t ∷ r)

-- `a <= b` on texts
unfoldable pub text_le : String → String → Bool
text_le s t = elim (compare s t) [ Ordering.gt ↦ false | _ ↦ true ]

unfoldable pub insert_sorted : String → List String → List String
unfolding text_le
insert_sorted s [] = s ∷ []
insert_sorted s (t ∷ ts) = if text_le s t then s ∷ t ∷ ts else t ∷ insert_sorted s ts

-- `sorted(texts)`
unfoldable pub sorted : List String → List String
unfolding insert_sorted
sorted [] = []
sorted (s ∷ ss) = insert_sorted s (sorted ss)

-- The distinct items of a list, as `set(texts)` keeps them.
unfoldable pub distinct : List String → List String
distinct [] = []
distinct (s ∷ ss) = if contains s ss then distinct ss else s ∷ distinct ss
