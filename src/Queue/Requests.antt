-- ===== src/Queue/Requests.antt =====
-- What a job's payload asks for (src/voxera/core/queue_contracts.py): the lineage of a job, the
-- request for a child, a file to write, files to organize, and the kind of the request. A request
-- that is not well formed raises.
pub mod Laws
use voxera_os.Base.{
  ℕ, suc, ◌+◌, String, Bool, true, false, not, Option, none, some, List, [], ◌∷◌, ◌==◌, ◌||◌,
  contains, all, if◌then◌else◌,
}
use voxera_os.Base.Text.{◌+s◌, strip, lower, is_empty, join, sorted}
use voxera_os.Base.Int.{ℤ, pos, negsuc}
use voxera_os.Py.{
  Value, null, bool, int, text, array, object, Fields, end, field, optional_text, truthy,
}
use voxera_os.Py.Dict.{get, find, has}
use voxera_os.Skill.Result.{str_or_empty}
use voxera_os.Automation.{Raising, value, raises}
use voxera_os.Queue.State.{int_of, nat_value}

infixl 1 ◌>>=◌
abbrev pub ◌>>=◌ {ℓ κ} : {A : Type ℓ} {B : Type κ} → Raising A → (A → Raising B) → Raising B
value a >>= f = f a
raises e >>= f = raises e

-- `_sanitize_lineage_string`
unfoldable pub sanitize_lineage_string : Value → Option String
sanitize_lineage_string (text s) =
    let normalized = strip s in if is_empty normalized then none else some normalized
sanitize_lineage_string _ = none

abbrev natural : Option ℤ → Option ℕ
natural (some (pos n)) = some n
natural _ = none

-- `_sanitize_lineage_int`
unfoldable pub sanitize_lineage_int : Value → Option ℕ
sanitize_lineage_int v = natural (int_of v)

abbrev nat_or_null : Option ℕ → Value
nat_or_null none = null
nat_or_null (some n) = nat_value n

abbrev pub nat_or_zero : Option ℕ → ℕ
nat_or_zero none = 0
nat_or_zero (some n) = n

abbrev lineage_roles : List String
lineage_roles = "root" ∷ "child" ∷ []

abbrev checked_role : Option String → Option String
checked_role none = none
checked_role (some s) = if contains (lower s) lineage_roles then some (lower s) else none

abbrev lineage_source : Value → Fields → Fields
lineage_source (object d) payload = d
lineage_source _ payload = payload

abbrev pub lineage : Value → Value → ℕ → Value → Value → Fields
lineage parent root_id depth sequence role = field "parent_job_id" parent (
    field "root_job_id" root_id (
      field "orchestration_depth" (nat_value depth)
        (field "sequence_index" sequence (field "lineage_role" role end))))

unfoldable pub lineage_of : Fields → Fields
lineage_of source =
    lineage (optional_text (sanitize_lineage_string (get "parent_job_id" source)))
      (optional_text (sanitize_lineage_string (get "root_job_id" source)))
      (nat_or_zero (sanitize_lineage_int (get "orchestration_depth" source)))
      (nat_or_null (sanitize_lineage_int (get "sequence_index" source)))
      (optional_text (checked_role (sanitize_lineage_string (get "lineage_role" source))))

unfoldable pub has_lineage : Fields → Bool
has_lineage source =
    has "parent_job_id" source
    || has "root_job_id" source
    || has "orchestration_depth" source
    || has "sequence_index" source
    || has "lineage_role" source

unfoldable pub extract_lineage_metadata : Fields → Option Fields
unfolding lineage_of has_lineage
extract_lineage_metadata payload =
    let source = lineage_source (get "lineage" payload) payload in
    if has_lineage source then some (lineage_of source) else none

abbrev pub or_root : Option Fields → Fields
or_root none = lineage null null 0 null null
or_root (some d) = d

abbrev pub or_text : Option String → String → String
or_text none other = other
or_text (some s) other = s

abbrev next_sequence : Option ℕ → ℕ
next_sequence none = 1
next_sequence (some n) = n + 1

unfoldable pub compute_child_lineage : String → Fields → Fields
compute_child_lineage parent_job_id payload =
    let parent = or_root (extract_lineage_metadata payload) in
    lineage (text parent_job_id)
      (text (or_text (sanitize_lineage_string (get "root_job_id" parent)) parent_job_id))
      (nat_or_zero (sanitize_lineage_int (get "orchestration_depth" parent)) + 1)
      (nat_value (next_sequence (sanitize_lineage_int (get "sequence_index" parent))))
      (text "child")

-- `sorted(set(raw.keys()) - allowed)`
unknown_keys : List String → Fields → List String
unknown_keys allowed end = []
unknown_keys allowed (field k v d) =
    let rest = unknown_keys allowed d in if contains k allowed then rest else k ∷ rest

abbrev pub no_others : String → List String → Raising (Unit {0})
no_others name [] = value tt
no_others name ks = raises (name +s " contains unsupported keys: " +s join ", " (sorted ks))

abbrev pub required : Option String → String → Raising String
required none message = raises message
required (some s) message = value s

abbrev pub an_object : String → Value → Raising Fields
an_object name (object d) = value d
an_object name _ = raises (name +s " must be an object")

abbrev pub a_text : String → Value → Raising String
a_text message (text s) = value s
a_text message _ = raises message

abbrev a_flag : String → Option Value → Raising Bool
a_flag message none = value false
a_flag message (some (bool b)) = value b
a_flag message (some _) = raises message

abbrev pub one_of : List String → String → String → Raising String
one_of choices message s = if contains s choices then value s else raises message

-- A part of the payload that need not be there.
abbrev if_asked {ℓ} : {A : Type ℓ} → String → (Value → Raising A) → Fields → Raising (Option A)
if_asked name f payload = elim (find name payload) [
  | none ↦ value none
  | some v ↦ elim (f v) [ value a ↦ value (some a) | raises e ↦ raises e ]
]

pub record ChildRequest : Type 0 where
  pub goal : String
  pub title : Option String

pub child_request : Value → Raising ChildRequest
unfolding unknown_keys
child_request v = do
  raw ← an_object "enqueue_child" v
  _ ← no_others "enqueue_child" (unknown_keys ("goal" ∷ "title" ∷ []) raw)
  goal ←
      required (sanitize_lineage_string (get "goal" raw))
        "enqueue_child.goal must be a non-empty string"
  value (record { goal = goal; title = sanitize_lineage_string (get "title" raw) })

unfoldable pub extract_enqueue_child_request : Fields → Raising (Option ChildRequest)
unfolding child_request
extract_enqueue_child_request = if_asked "enqueue_child" child_request

pub record WriteFile : Type 0 where
  pub path : String
  pub content : String
  pub mode : String

unfoldable pub write_file_request : Value → Raising WriteFile
unfolding unknown_keys
write_file_request v = do
  raw ← an_object "write_file" v
  _ ← no_others "write_file" (unknown_keys ("path" ∷ "content" ∷ "mode" ∷ []) raw)
  path ←
      required (sanitize_lineage_string (get "path" raw))
        "write_file.path must be a non-empty string"
  content ← a_text "write_file.content must be a string" (get "content" raw)
  mode ←
      one_of ("overwrite" ∷ "append" ∷ []) "write_file.mode must be overwrite or append"
        (lower (or_text (sanitize_lineage_string (get "mode" raw)) "overwrite"))
  value (record { path = path; content = content; mode = mode })

unfoldable pub extract_write_file_request : Fields → Raising (Option WriteFile)
unfolding write_file_request
extract_write_file_request = if_asked "write_file" write_file_request

pub record FileOrganize : Type 0 where
  pub source_path : String
  pub destination_dir : String
  pub mode : String
  pub overwrite : Bool
  pub delete_original : Bool

pub file_organize_request : Value → Raising FileOrganize
unfolding unknown_keys
file_organize_request v = do
  raw ← an_object "file_organize" v
  _ ← no_others "file_organize" (
      unknown_keys
        ("source_path" ∷ "destination_dir" ∷ "mode" ∷ "overwrite" ∷ "delete_original" ∷ []) raw)
  source_path ←
      required (sanitize_lineage_string (get "source_path" raw))
        "file_organize.source_path must be a non-empty string"
  destination_dir ←
      required (sanitize_lineage_string (get "destination_dir" raw))
        "file_organize.destination_dir must be a non-empty string"
  mode ←
      one_of ("copy" ∷ "move" ∷ []) "file_organize.mode must be copy or move"
        (lower (or_text (sanitize_lineage_string (get "mode" raw)) "copy"))
  overwrite ←
      a_flag "file_organize.overwrite must be a boolean when provided" (find "overwrite" raw)
  delete_original ←
      a_flag "file_organize.delete_original must be a boolean when provided"
        (find "delete_original" raw)
  value (record {
    source_path = source_path;
    destination_dir = destination_dir;
    mode = mode;
    overwrite = overwrite;
    delete_original = delete_original;
  })

unfoldable pub extract_file_organize_request : Fields → Raising (Option FileOrganize)
unfolding file_organize_request
extract_file_organize_request = if_asked "file_organize" file_organize_request

-- The table of kinds, with the kinds that are no aliases.
unfoldable pub normalize_kind : Value → String
normalize_kind raw =
    let kind = lower (strip (str_or_empty raw)) in
    if is_empty kind
    then ""
    else if (kind == "mission") || (kind == "mission_id")
    then "mission_id"
    else if (kind == "steps") || (kind == "inline_steps")
    then "inline_steps"
    else if contains kind (
        "file_organize" ∷ "goal" ∷ "assistant_question" ∷ "write_file" ∷ "open_url" ∷ "open_app"
        ∷ "run_command" ∷ [])
    then kind
    else "unknown"

abbrev intent_kind : Value → String
intent_kind (object d) = normalize_kind (get "request_kind" d)
intent_kind _ = ""

unfoldable pub detect_request_kind : Fields → String
unfolding normalize_kind
detect_request_kind payload =
    if not (is_empty (intent_kind (get "job_intent" payload)))
    then intent_kind (get "job_intent" payload)
    else if not (is_empty (normalize_kind (get "kind" payload)))
    then normalize_kind (get "kind" payload)
    else if truthy (get "mission_id" payload) || truthy (get "mission" payload)
    then "mission_id"
    else if truthy (get "file_organize" payload)
    then "file_organize"
    else if truthy (get "goal" payload) || truthy (get "plan_goal" payload)
    then "goal"
    else if truthy (get "steps" payload)
    then "inline_steps"
    else "unknown"
