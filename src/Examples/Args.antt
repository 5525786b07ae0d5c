-- ===== src/Examples/Args.antt =====
-- Canonical arguments of sample calls.
use voxera_os.Base.{String, none, some, List, [], ◌∷◌, ◌≡◌, refl}
use voxera_os.Base.Text.{strip, has_substring}
use voxera_os.Base.Int.{pos}
use voxera_os.Py.{int, text, array, Fields, end, field, nil, cons, texts}
use voxera_os.Py.Dict.{find, get, put, has}
use voxera_os.Skill.Args.Shlex.{shlex_split}
use voxera_os.Skill.Args.{
  FloatRead, value_error, done, canonical_write_text, canonicalize_argv, canonical_sandbox_exec,
  canonicalize_args, is_control,
}
use voxera_os.Skill.Args.Laws.{canonicalize_args-find}
use voxera_os.Examples.Samples.{note_args}

-- `float` as far as the tests call it.
abbrev pub sample_float : String → FloatRead
sample_float s = value_error

quoted_words :
    shlex_split "bash -lc 'echo \"hi there\"' a\\ b \"\""
    ≡ some ("bash" ∷ "-lc" ∷ "echo \"hi there\"" ∷ "a b" ∷ "" ∷ [])
unfolding shlex_split
quoted_words = refl

open_quote : shlex_split "echo 'hi" ≡ none
unfolding shlex_split
open_quote = refl

abbrev echo_words : List String
echo_words = "echo" ∷ "hi" ∷ []

abbrev ls_words : List String
ls_words = "ls" ∷ "-l" ∷ []

abbrev echo_args : Fields
echo_args = field "cmd" (text "echo hi") end

echo_argv : canonicalize_argv echo_args ≡ done echo_words
unfolding canonicalize_argv shlex_split strip has get is_control
echo_argv = refl

abbrev list_args : Fields
list_args = field "argv" (array (cons (text "ls") (cons (text "-l") nil))) end

list_argv_example : canonicalize_argv list_args ≡ done ls_words
unfolding canonicalize_argv strip has get has_substring
list_argv_example = refl

-- An empty word of a text passes, and as the list that it becomes it is refused.
empty_word_once :
    canonical_sandbox_exec (field "command" (text "bash -c ''") end)
    ≡ field "command" (texts ("bash" ∷ "-c" ∷ "" ∷ [])) end
unfolding canonical_sandbox_exec canonicalize_argv shlex_split strip has get put is_control
empty_word_once = refl

abbrev volume_args : Fields
volume_args = field "percent" (int (pos 250)) end

note_canonical :
    canonicalize_args sample_float "files.write_text" note_args
    ≡ done (put "text" (text "hello") note_args)
unfolding canonicalize_args canonical_write_text has get
note_canonical = refl

canonicalize_args-find_example :
    find "path" (put "text" (text "hello") note_args) ≡ find "path" note_args
canonicalize_args-find_example =
    canonicalize_args-find sample_float "files.write_text" "path" note_args
      (put "text" (text "hello") note_args) refl note_canonical
