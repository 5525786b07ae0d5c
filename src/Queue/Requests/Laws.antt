-- ===== src/Queue/Requests/Laws.antt =====
-- Requests that are read twice, and the lineage of jobs (src/voxera/core/queue_contracts.py).
use voxera_os.Base.{
  ℕ, suc, ◌+◌, String, Option, none, some, List, [], ◌∷◌, ◌≡◌, refl, sym, subst, ◌⊎◌, ◌∙◌, ap,
  arith, ◌==◌, eq_iff, length, All, Bool-cases, Option-cases, inl, inr, if◌then◌else◌,
}
use voxera_os.Base.Text.{strip, lower, is_empty}
use voxera_os.Base.Text.Strip.{strip_idem}
use voxera_os.Py.{Value, null, int, array, text, object, bool, Fields, end, field}
use voxera_os.Py.Dict.{get, find, has, put, find-put_self}
use voxera_os.Automation.{Raising, value, raises}
use voxera_os.Queue.State.{int_of}
use voxera_os.Queue.Requests.{
  sanitize_lineage_string, sanitize_lineage_int, lineage, lineage_of, extract_lineage_metadata,
  or_root, or_text, nat_or_zero, compute_child_lineage, WriteFile, write_file_request,
  extract_write_file_request, unknown_keys, one_of, an_object, no_others, required, a_text, ◌>>=◌,
}

sanitize_idem :
    (v : Value) (s : String)
    → sanitize_lineage_string v ≡ some s
    → sanitize_lineage_string (text s) ≡ some s
unfolding sanitize_lineage_string
sanitize_idem null s h = cc
sanitize_idem (text t) s h = elim (Bool-cases (is_empty (strip t))) [
  | inl blank ↦ cc (h, ap (λ b. if b then none else some (strip t)) blank)
  | inr full ↦ let e : strip t ≡ s = ground arith in rw (← e) (rw (strip_idem t) (rw full))
]
sanitize_idem (bool b) s h = cc
sanitize_idem (int z) s h = cc
sanitize_idem (array xs) s h = cc
sanitize_idem (object d) s h = cc

-- The number of jobs above a job, and the job at the top, as its payload says.
abbrev pub depth_of : Fields → ℕ
depth_of payload =
    nat_or_zero (
      sanitize_lineage_int (get "orchestration_depth" (or_root (extract_lineage_metadata payload))))

abbrev pub root_of : Fields → Option String
root_of payload =
    sanitize_lineage_string (get "root_job_id" (or_root (extract_lineage_metadata payload)))

-- The lineage of the last of a line of jobs, each enqueued by the one before, whose names are given.
unfoldable pub descend : List String → Fields → Fields
descend [] payload = payload
descend (id ∷ ids) payload = descend ids (compute_child_lineage id payload)

depth_of-lineage : (a b c e : Value) (n : ℕ) → depth_of (lineage a b n c e) ≡ n
unfolding extract_lineage_metadata get sanitize_lineage_int int_of has
depth_of-lineage a b c e n = refl

root_of-lineage :
    (a c e : Value) (r : String) (n : ℕ)
    → sanitize_lineage_string (text r) ≡ some r
    → root_of (lineage a (text r) n c e) ≡ some r
unfolding extract_lineage_metadata get has
root_of-lineage a c e r n named = rw (extract_lineage_metadata, lineage_of, named) named

child_depth : (id : String) (p : Fields) → depth_of (compute_child_lineage id p) ≡ depth_of p + 1
unfolding compute_child_lineage
child_depth id p = depth_of-lineage _ _ _ _ (depth_of p + 1)

child_root :
    (id : String) (p : Fields)
    → sanitize_lineage_string (text id) ≡ some id
    → root_of (compute_child_lineage id p) ≡ some (or_text (root_of p) id)
unfolding compute_child_lineage
child_root id p named = elim (Option-cases (root_of p)) [
  | inl top ↦ rw (compute_child_lineage, top) (root_of-lineage _ _ _ id (depth_of p + 1) named)
  | inr (r, below) ↦
      rw (compute_child_lineage, below)
        (root_of-lineage _ _ _ r (depth_of p + 1) (sanitize_idem _ r below))
]

descend_root :
    (ids : List String) (p : Fields) (r : String)
    → All (λ id. sanitize_lineage_string (text id) ≡ some id) ids
    → root_of p ≡ some r
    → root_of (descend ids p) ≡ some r
unfolding descend
descend_root [] p r named top = top
descend_root (id ∷ ids) p r named top =
    descend_root ids (compute_child_lineage id p) r named.1 (child_root id p named.0 ∙ rw top)

descend_depth :
    (ids : List String) (p : Fields) → depth_of (descend ids p) ≡ depth_of p + length ids
unfolding descend
descend_depth [] p = omega arith
descend_depth (id ∷ ids) p =
    descend_depth ids (compute_child_lineage id p) ∙ omega (arith, child_depth id p)

-- Down a line of jobs, each the child of the one before, the depth grows by one with each, and the
-- root stays: the first job's root, or the first job itself where it has none.
pub lineage-descend :
    (id : String) (ids : List String) (p : Fields)
    → All (λ id. sanitize_lineage_string (text id) ≡ some id) (id ∷ ids)
    → (depth_of (descend (id ∷ ids) p) ≡ depth_of p + suc (length ids))
      × (root_of (descend (id ∷ ids) p) ≡ some (or_text (root_of p) id))
unfolding descend
lineage-descend id ids p named = (
  descend_depth (id ∷ ids) p,
  descend_root ids (compute_child_lineage id p) (or_text (root_of p) id) named.1
      (child_root id p named.0),
)

-- A request as a payload keeps it.
abbrev pub write_file_value : WriteFile → Value
write_file_value w =
    object (
      field "path" (text w.path)
        (field "content" (text w.content) (field "mode" (text w.mode) end)))

-- The mode is one of the two, which are read as themselves.
mode_cases :
    (s m message : String)
    → one_of ("overwrite" ∷ "append" ∷ []) message s ≡ value m
    → (m ≡ "overwrite") ⊎ (m ≡ "append")
mode_cases s m message h = elim (Bool-cases ("overwrite" == s)) [
  | inl over ↦ inl (ground (arith, eq_iff "overwrite" s))
  | inr other ↦ inr (ground (arith, eq_iff "append" s))
]

abbrev ReadMode : String → String → Type 0
ReadMode message m =
    one_of ("overwrite" ∷ "append" ∷ []) message
      (lower (or_text (sanitize_lineage_string (text m)) "overwrite"))
    ≡ value m

one_of_mode :
    (s m message : String)
    → one_of ("overwrite" ∷ "append" ∷ []) message s ≡ value m
    → ReadMode message m
unfolding sanitize_lineage_string strip lower
one_of_mode s m message h = elim (mode_cases s m message h) [
  | inl over ↦ subst (ReadMode message) (sym over) refl
  | inr app ↦ subst (ReadMode message) (sym app) refl
]

>>=-eq-value {ℓ κ} :
    {A : Type ℓ} {B : Type κ} (m : Raising A) (f : A → Raising B) {b : B}
    → (m >>= f) ≡ value b
    → (a : A) × (m ≡ value a) × (f a ≡ value b)
>>=-eq-value (value a) f h = (a, refl, h)
>>=-eq-value (raises e) f h = cc

required_text : (o : Option String) (s message : String) → required o message ≡ value s → o ≡ some s
required_text none s message h = cc
required_text (some t) s message h = cc

abbrev mode_message : String
mode_message = "write_file.mode must be overwrite or append"

read_again :
    (w : WriteFile)
    → sanitize_lineage_string (text w.path) ≡ some w.path
    → ReadMode mode_message w.mode
    → write_file_request (write_file_value w) ≡ value w
unfolding write_file_request get find unknown_keys
read_again w path mode = rw (path, mode)

value_injective {ℓ} : {A : Type ℓ} {a b : A} → value a ≡ value b → a ≡ b
value_injective h = cc

-- What is taken is taken again as it is.
write_file_request_again :
    (v : Value) (w : WriteFile)
    → write_file_request v ≡ value w
    → write_file_request (write_file_value w) ≡ value w
unfolding write_file_request get find unknown_keys
write_file_request_again v w h =
    let (raw, _, after_raw) = >>=-eq-value (an_object "write_file" v) _ h in
    let (_, _, after_keys) =
      >>=-eq-value (no_others "write_file" (unknown_keys ("path" ∷ "content" ∷ "mode" ∷ []) raw)) _
        after_raw in
    let (path, is_path, after_path) =
      >>=-eq-value
        (required (sanitize_lineage_string (get "path" raw))
          "write_file.path must be a non-empty string")
        _ after_keys in
    let (content, _, after_content) =
      >>=-eq-value (a_text "write_file.content must be a string" (get "content" raw)) _
        after_path in
    let given = lower (or_text (sanitize_lineage_string (get "mode" raw)) "overwrite") in
    let (mode, is_mode, made) =
      >>=-eq-value (one_of ("overwrite" ∷ "append" ∷ []) mode_message given) _ after_content in
    let kept_path : sanitize_lineage_string (text path) ≡ some path =
      sanitize_idem (get "path" raw) path (required_text _ path _ is_path) in
    let kept_mode : ReadMode mode_message mode = one_of_mode given mode mode_message is_mode in
    subst (λ u. write_file_request (write_file_value u) ≡ value u) (value_injective made)
      (read_again (record { path = path; content = content; mode = mode }) kept_path kept_mode)

abbrev read_request : Raising WriteFile → Raising (Option WriteFile)
read_request r = elim r [ value a ↦ value (some a) | raises e ↦ raises e ]

abbrev asked : Option Value → Raising (Option WriteFile)
asked o = elim o [ none ↦ value none | some v ↦ read_request (write_file_request v) ]

read_as : (r : Raising WriteFile) (w : WriteFile) → read_request r ≡ value (some w) → r ≡ value w
read_as (value a) w h = cc
read_as (raises e) w h = cc

taken_from :
    (o : Option Value) (w : WriteFile)
    → asked o ≡ value (some w)
    → (v : Value) × (write_file_request v ≡ value w)
taken_from none w h = cc
taken_from (some v) w h = (v, read_as (write_file_request v) w h)

-- A request to write a file that was taken from a payload, written under its key into this or any
-- other payload with what was read of it, is taken from there as it is.
pub extract_write_file_request-put :
    (payload other : Fields) (w : WriteFile)
    → extract_write_file_request payload ≡ value (some w)
    → extract_write_file_request (put "write_file" (write_file_value w) other) ≡ value (some w)
unfolding extract_write_file_request
extract_write_file_request-put payload other w h =
    let (v, taken) = taken_from (find "write_file" payload) w h in
    ap asked (find-put_self "write_file" (write_file_value w) other)
    ∙ ap read_request (write_file_request_again v w taken)
