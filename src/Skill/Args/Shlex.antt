-- ===== src/Skill/Args/Shlex.antt =====
-- `shlex.split` of Python's standard library in its POSIX mode, which src/voxera/skills/arg_normalizer.py
-- calls on a command text: the state machine over its characters.
use Prim.Native.Char.{Char, code}
use voxera_os.Base.{
  ℕ, String, Bool, Option, none, some, List, [], ◌∷◌, ◌&&◌, ◌||◌, not, nat_eq, if◌then◌else◌,
}
use voxera_os.Base.Text.{◌+s◌}

-- The reader's state: between words, in a word, in quotes, or behind a backslash.
pub data Mode : Type 0 where
  between in_word : Mode
  in_quote : ℕ → Mode
  escaped : Mode
  escaped_in_quote : ℕ → Mode

abbrev pub SplitResult : Type 0
SplitResult = Option (List String)

is_blank : ℕ → Bool
is_blank c = nat_eq c 32 || nat_eq c 9 || nat_eq c 13 || nat_eq c 10

is_quote : ℕ → Bool
is_quote c = nat_eq c 39 || nat_eq c 34

push : String → Char → String
push t c = t +s String.◌∷◌ c ""

-- One character: the next state, the word so far, and a word that it ends.
step : Mode → String → Char → Mode × String × List String
unfolding is_blank is_quote push
step between t c =
    if is_blank (code c)
    then (between, "", [])
    else if nat_eq (code c) 92
    then (escaped, "", [])
    else if is_quote (code c)
    then (in_quote (code c), "", [])
    else (in_word, push "" c, [])
step in_word t c =
    if is_blank (code c)
    then (between, "", t ∷ [])
    else if nat_eq (code c) 92
    then (escaped, t, [])
    else if is_quote (code c)
    then (in_quote (code c), t, [])
    else (in_word, push t c, [])
step (in_quote q) t c =
    if nat_eq (code c) q
    then (in_word, t, [])
    else if nat_eq (code c) 92 && nat_eq q 34
    then (escaped_in_quote q, t, [])
    else (in_quote q, push t c, [])
step escaped t c = (in_word, push t c, [])
step (escaped_in_quote q) t c = (
  in_quote q,
  push (if not (nat_eq (code c) 92) && not (nat_eq (code c) q) then t +s "\\" else t) c,
  [],
)

-- The end of the text: an open quote or a last backslash is a `ValueError`.
finish : Mode → String → SplitResult
finish between t = some []
finish in_word t = some (t ∷ [])
finish (in_quote q) t = none
finish escaped t = none
finish (escaped_in_quote q) t = none

prepend : List String → SplitResult → SplitResult
prepend [] r = r
prepend (w ∷ ws) none = none
prepend (w ∷ ws) (some r) = some (w ∷ r)

split_from : Mode → String → String → SplitResult
unfolding step finish prepend
split_from m t String.[] = finish m t
split_from m t (String.◌∷◌ c s) =
    let (m', t', words) = step m t c in prepend words (split_from m' t' s)

unfoldable pub shlex_split : String → SplitResult
unfolding split_from
shlex_split s = split_from between "" s
