-- ===== src/Skill/Args/Laws.antt =====
-- What canonical arguments satisfy (src/voxera/skills/arg_normalizer.py).
use voxera_os.Base.{
  ◌⊎◌, inl, inr, or_false, min, String, Bool, true, false, none, some, List, [], ◌∷◌, ◌≡◌, ◌≢◌,
  refl, ◌==◌, any, map, contains, arith, ap, if◌then◌else◌,
}
use voxera_os.Base.Text.{strip, is_empty, decimal}
use voxera_os.Base.Int.{ℤ, to_ℕ}
use voxera_os.Py.{Value, null, text, array, Items, nil, cons, Fields, of_list, texts}
use voxera_os.Py.Dict.{find, get, put, find-put, find-put_self}
use voxera_os.Skill.Args.Shlex.{SplitResult, shlex_split}
use voxera_os.Skill.Args.{
  FloatRead, value_error, whole, overflow_error, Canonical, done, raised, canonical_open_app,
  canonical_set_volume, canonical_write_text, canonical_sandbox_exec, canonicalize_argv,
  canonicalize_args, int_of_float, set_percent, clamped, Argv, command_value, require_argv,
  is_control, split_argv, list_argv, nonempty_argv, sandbox_argv_empty_msg,
}

abbrev pub blank : String → Bool
blank t = is_empty (strip t)

-- The keys that some canonical form writes.
abbrev pub rewritten_keys : List String
rewritten_keys = "name" ∷ "percent" ∷ "text" ∷ "command" ∷ []

find-put_ne :
    (j k : String) (v : Value) (d : Fields) → (k == j) ≡ false → find j (put k v d) ≡ find j d
find-put_ne j k v d h = rw (find-put j k v d) (rw h)

find-put_unless :
    (b : Bool) (j k : String) (v : Value) (d : Fields)
    → (k == j) ≡ false
    → find j (if b then d else put k v d) ≡ find j d
find-put_unless true j k v d h = refl
find-put_unless false j k v d h = find-put_ne j k v d h

-- A result, if there is one, has the key `k` as the arguments have it.
data Keeps (k : String) (args : Fields) : Canonical Fields → Type 0 where
  kept : {a : Fields} → find k a ≡ find k args → Keeps k args (done a)
  failed : {m : String} → Keeps k args (raised m)

module _ (k : String) (args : Fields) where
  find-open_app : ("name" == k) ≡ false → find k (canonical_open_app args) ≡ find k args
  unfolding canonical_open_app
  find-open_app h = find-put_unless _ k "name" _ args h

  find-write_text : ("text" == k) ≡ false → find k (canonical_write_text args) ≡ find k args
  unfolding canonical_write_text
  find-write_text h = ground (
    arith,
    find-put_ne k "text" (get "content" args) args,
    find-put_ne k "text" (get "body" args) args,
  )

  find-sandbox_exec : ("command" == k) ≡ false → find k (canonical_sandbox_exec args) ≡ find k args
  unfolding canonical_sandbox_exec
  find-sandbox_exec h = with_argv (canonicalize_argv args)
    where
      with_argv :
          (r : Argv)
          → find k (elim r [ done argv ↦ put "command" (texts argv) args | raised m ↦ args ])
            ≡ find k args
      with_argv (done argv) = find-put_ne k "command" (texts argv) args h
      with_argv (raised m) = refl

  set_percent-Keeps : (r : FloatRead) → ("percent" == k) ≡ false → Keeps k args (set_percent args r)
  unfolding set_percent
  set_percent-Keeps value_error h = kept refl
  set_percent-Keeps overflow_error h = failed
  set_percent-Keeps (whole z) h = kept (find-put_ne k "percent" (clamped z) args h)

  Keeps-if :
      (b : Bool) (r s : Canonical Fields)
      → Keeps k args r
      → Keeps k args s
      → Keeps k args (if b then r else s)
  Keeps-if true r s p q = p
  Keeps-if false r s p q = q

Keeps-done :
    (k : String) (args a : Fields) (r : Canonical Fields)
    → Keeps k args r
    → r ≡ done a
    → find k a ≡ find k args
Keeps-done k args a r (kept h) e = ground arith
Keeps-done k args a r failed e = cc

-- Whatever the skill, canonical arguments agree with the given ones in every key but `name`,
-- `percent`, `text` and `command`.
pub canonicalize_args-find :
    (read_float : String → FloatRead) (skill_id k : String) (args a : Fields)
    → contains k rewritten_keys ≡ false
    → canonicalize_args read_float skill_id args ≡ done a
    → find k a ≡ find k args
unfolding canonicalize_args canonical_set_volume
canonicalize_args-find read_float skill_id k args a other e =
    let (name, r₁) = or_false _ _ other in
    let (percent, r₂) = or_false _ _ r₁ in
    let (body, r₃) = or_false _ _ r₂ in
    let (command, r₄) = or_false _ _ r₃ in
    Keeps-done k args a _
      (Keeps-if k args (skill_id == "system.open_app") _ _ (kept (find-open_app k args name)) (
        Keeps-if k args (skill_id == "system.set_volume") _ _ (set_percent-Keeps k args _ percent) (
          Keeps-if k args (skill_id == "files.write_text") _ _ (kept (find-write_text k args body))
            (Keeps-if k args (skill_id == "sandbox.exec") _ _
              (kept (find-sandbox_exec k args command)) (kept refl)))))
      e

-- The texts of a list of values, none of them blank.
data IsExact (xs : Items) : Argv → Type 0 where
  exact :
      {ts : List String} → xs ≡ of_list (map text ts) → any blank ts ≡ false → IsExact xs (done ts)
  rejected : {m : String} → IsExact xs (raised m)

IsExact-cons :
    (t : String) (xs : Items) (b : Bool) (r : Argv)
    → blank t ≡ false ⊎ (b ≡ true)
    → IsExact xs r
    → IsExact (cons (text t) xs) (
        if b
        then raised sandbox_argv_empty_msg
        else elim r [ done ts ↦ done (t ∷ ts) | raised m ↦ raised m ])
IsExact-cons t xs true r h e = rejected
IsExact-cons t xs false r (inl h) (exact p q) = exact (ap (cons (text t)) p) (rw h q)
IsExact-cons t xs false r (inr h) (exact p q) = cc
IsExact-cons t xs false r h rejected = rejected

list_argv-IsExact : (xs : Items) → IsExact xs (list_argv xs)
unfolding list_argv
list_argv-IsExact nil = exact refl refl
list_argv-IsExact (cons (text t) xs) = IsExact-cons t xs _ _ (ground arith) (list_argv-IsExact xs)
list_argv-IsExact (cons null xs) = rejected
list_argv-IsExact (cons _ xs) = rejected

-- A command given as a text becomes the words that `shlex.split` finds in it: some word, and none
-- that is a shell operator.
pub canonicalize_argv-text :
    (args : Fields) (s : String) (ts : List String)
    → command_value args ≡ some (text s)
    → canonicalize_argv args ≡ done ts
    → (shlex_split (strip s) ≡ some ts) × (ts ≢ []) × (any is_control ts ≡ false)
unfolding canonicalize_argv
canonicalize_argv-text args s ts c e = split_lem (shlex_split (strip s)) (rw c at e)
  where
    split_lem :
        (r : SplitResult)
        → split_argv r ≡ done ts
        → (r ≡ some ts) × (ts ≢ []) × (any is_control ts ≡ false)
    split_lem none h = cc
    split_lem (some []) h = cc
    split_lem (some (w ∷ ws)) h = ground arith

IsExact-done :
    (xs : Items) (r : Argv) (ts : List String)
    → IsExact xs r
    → nonempty_argv r ≡ done ts
    → (xs ≡ of_list (map text ts)) × (ts ≢ []) × (any blank ts ≡ false)
unfolding nonempty_argv require_argv
IsExact-done xs r ts (exact {ts = []} p q) h = cc
IsExact-done xs r ts (exact {ts = w ∷ ws} p q) h = ground arith
IsExact-done xs r ts rejected h = cc

-- A command given as a list is taken as it stands: a list of texts that is not empty, none of them
-- blank.
pub canonicalize_argv-array :
    (args : Fields) (xs : Items) (ts : List String)
    → command_value args ≡ some (array xs)
    → canonicalize_argv args ≡ done ts
    → (xs ≡ of_list (map text ts)) × (ts ≢ []) × (any blank ts ≡ false)
unfolding canonicalize_argv
canonicalize_argv-array args xs ts c e =
    IsExact-done xs (list_argv xs) ts (list_argv-IsExact xs) (rw c at e)

-- A volume that is set lies between 0 and 100: it is the number that was read, clamped.
pub canonical_set_volume-clamped :
    (read_float : String → FloatRead) (args : Fields) (z : ℤ)
    → int_of_float read_float (get "percent" args) ≡ whole z
    → (a : Fields) × (canonical_set_volume read_float args ≡ done a)
      × (find "percent" a ≡ some (text (decimal (min 100 (to_ℕ z)))))
unfolding canonical_set_volume set_percent
canonical_set_volume-clamped read_float args z h =
    (put "percent" (clamped z) args, rw h, find-put_self "percent" (clamped z) args)
