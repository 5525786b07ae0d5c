-- ===== src/Queue/Approvals.antt =====
-- `QueueApprovalMixin` of src/voxera/core/queue_approvals.py, its prompt and its grants: what the
-- queue answers when the skill runner asks for an approval. Grants are entries as
-- `grant_approval_scope` writes them, without their time, and the logged events are left out.
pub mod Laws
pub mod Asked
use voxera_os.Base.{
  ℕ, zero, suc, String, Bool, true, false, not, Option, none, some, List, [], ◌∷◌, ◌++◌, map, ◌&&◌,
  ◌||◌, ◌==◌, any, contains, nat_eq, if◌then◌else◌,
}
use voxera_os.Base.Text.{◌+s◌, strip, starts_with, has_substring, is_empty, join}
use voxera_os.Base.Int.{ℤ, pos, to_ℕ}
use voxera_os.Py.{
  Value, null, bool, int, text, array, object, Items, nil, cons, Fields, end, field, texts, to_list,
  truthy,
}
use voxera_os.Py.Dict.{get, find, put}
use voxera_os.Py.Str.{py_str}
use voxera_os.Models.{SkillManifest, FsScope}
use voxera_os.Policy.{PolicyDecision}
use voxera_os.Declaration.{normalize_manifest_capabilities, as_dict}
use voxera_os.Skill.Result.{str_or_empty}

pub record Grant : Type 0 where
  pub skill : String
  pub capability : String
  pub fs_scope : String
  pub needs_network : Bool

-- A job, a step and a skill.
pub record StepKey : Type 0 where
  pub job : String
  pub step : ℕ
  pub skill_id : String

pub record Approvals : Type 0 where
  pub approved_steps : List StepKey
  pub grants : List Grant

-- The daemon's settings and its current job.
pub record Daemon : Type 0 where
  pub current_job_ref : String
  pub auto_approve_ask : Bool
  pub dev_mode : Bool
  pub redact_args : Fields → Value

-- The text before the first `sep`, or all of it
unfoldable pub before : String → String → String
before sep String.[] = ""
before sep (String.◌∷◌ c s) =
    let rest = before sep s in if starts_with (String.◌∷◌ c s) sep then "" else String.◌∷◌ c rest

-- `_decision_capability`
unfoldable pub decision_capability : String → String
unfolding before
decision_capability reason =
    let first = strip (before ";" reason) in
    if has_substring "->" first then strip (before " ->" first) else "unknown"

abbrev pub scope_name : FsScope → String
scope_name FsScope.workspace_only = "workspace_only"
scope_name FsScope.read_only = "read_only"
scope_name FsScope.broader = "broader"

-- `str(args.get(key, ""))`
abbrev arg_text : String → Fields → String
arg_text key args = elim (find key args) [ none ↦ "" | some v ↦ py_str v ]

abbrev target : String → String → Fields
target kind v = field "type" (text kind) (field "value" (text v) end)

abbrev command_text : Option Value → String
command_text none = ""
command_text (some (array vs)) = join " " (map py_str (to_list vs))
command_text (some v) = py_str v

abbrev path_skills : List String
path_skills =
    "files.read_text" ∷ "files.write_text" ∷ "files.list_dir" ∷ "files.find" ∷ "files.grep_text"
    ∷ "files.list_tree" ∷ "files.exists" ∷ "files.stat" ∷ "files.mkdir" ∷ "files.delete_file" ∷ []

abbrev two_path_skills : List String
two_path_skills = "files.copy_file" ∷ "files.move_file" ∷ "files.copy" ∷ "files.move" ∷ []

unfoldable pub approval_target : String → Fields → Fields
approval_target id args =
    if id == "system.open_url"
    then target "url" (arg_text "url" args)
    else if id == "system.open_app"
    then target "app" (arg_text "name" args)
    else if contains id path_skills
    then target "file" (arg_text "path" args)
    else if id == "files.rename"
    then target "file" (arg_text "path" args +s " -> " +s arg_text "new_name" args)
    else if contains id two_path_skills
    then target "file" (arg_text "source_path" args +s " -> " +s arg_text "destination_path" args)
    else if id == "sandbox.exec"
    then target "command" (command_text (find "command" args))
    else target "unknown" ""

abbrev violation_note : Value → List String
violation_note (object d) =
    let named = str_or_empty (get "boundary" d) in
    if named == "network"
    then "Runtime requested network access while declaration sets network_scope=none." ∷ []
    else ("Runtime boundary mismatch detected ("
        +s (if is_empty named then "unknown" else named)
        +s ").")
      ∷ []
violation_note _ = []

abbrev listed_note : String → Value → List String
listed_note label (array (cons v vs)) = (label +s join ", " (map py_str (to_list (cons v vs)))) ∷ []
listed_note label _ = []

abbrev refs_of : Items → List String
refs_of nil = []
refs_of (cons (object d) vs) =
    let ref = strip (str_or_empty (get "ref" d)) in
    let rest = refs_of vs in if is_empty ref then rest else ref ∷ rest
refs_of (cons _ vs) = refs_of vs

abbrev refs_note : List String → List String
refs_note [] = []
refs_note (r ∷ rs) = ("Declared secret refs: " +s join ", " (r ∷ rs)) ∷ []

abbrev items_of : Value → Items
items_of (array vs) = vs
items_of _ = nil

unfoldable pub capability_boundary_notes : Fields → List String
capability_boundary_notes d =
    violation_note (get "runtime_boundary_violation" d)
    ++ listed_note "Allowed domains: " (get "allowed_domains" d)
    ++ listed_note "Allowed paths: " (get "allowed_paths" d)
    ++ refs_note (refs_of (items_of (get "secret_refs" d)))

abbrev pub same_key : StepKey → StepKey → Bool
same_key a b = (a.job == b.job) && nat_eq a.step b.step && (a.skill_id == b.skill_id)

-- `key in approved` and `approved.discard(key)` of a set
unfoldable pub is_approved : StepKey → List StepKey → Bool
is_approved k [] = false
is_approved k (j ∷ js) = same_key j k || is_approved k js

unfoldable pub discard : StepKey → List StepKey → List StepKey
discard k [] = []
discard k (j ∷ js) = let rest = discard k js in if same_key j k then rest else j ∷ rest

abbrev bool_eq : Bool → Bool → Bool
bool_eq true b = b
bool_eq false b = not b

abbrev pub same_grant : Grant → Grant → Bool
same_grant a b =
    (a.skill == b.skill)
    && (a.capability == b.capability)
    && (a.fs_scope == b.fs_scope)
    && bool_eq a.needs_network b.needs_network

-- `_has_approval_grant` of a normalized scope
unfoldable pub has_approval_grant : Grant → List Grant → Bool
has_approval_grant g [] = false
has_approval_grant g (h ∷ hs) = same_grant h g || has_approval_grant g hs

unfoldable pub grant_approval_scope : Grant → List Grant → List Grant
unfolding has_approval_grant
grant_approval_scope g gs = if has_approval_grant g gs then gs else gs ++ g ∷ []

-- `int(step or 0)` of the audit context's step; a text, which the mission runner does not give, is 0
abbrev pub step_number : Value → ℕ
step_number (int z) = to_ℕ z
step_number (bool true) = 1
step_number _ = 0

unfoldable pub step_key : Daemon → SkillManifest → Fields → StepKey
step_key daemon m context = record {
  job = daemon.current_job_ref;
  step = step_number (get "step" context);
  skill_id = m.id;
}

unfoldable pub grant_for : SkillManifest → PolicyDecision → Grant
grant_for m d = record {
  skill = m.id;
  capability = decision_capability d.reason;
  fs_scope = scope_name m.fs_scope;
  needs_network = m.needs_network;
}

-- `self.auto_approve_ask and self.dev_mode and capability in _AUTO_APPROVE_ALLOWLIST`
unfoldable pub auto_approved : Daemon → PolicyDecision → Bool
auto_approved daemon d =
    daemon.auto_approve_ask
    && daemon.dev_mode
    && contains (decision_capability d.reason) ("system.settings" ∷ [])

unfoldable pub pending : Daemon → SkillManifest → PolicyDecision → Fields → Fields → Value
pending daemon m d context args =
    let declaration = as_dict (normalize_manifest_capabilities m) in
    object (
      field "status" (text "pending") (
        field "step" (get "step" context) (
          field "skill" (text m.id) (
            field "reason" (text d.reason) (
              field "policy_reason" (text d.reason) (
                field "capability" (text (decision_capability d.reason)) (
                  field "args" (daemon.redact_args args) (
                    field "target" (object (approval_target m.id args)) (
                      field "scope"
                        (object (
                          field "fs_scope" (text (scope_name m.fs_scope))
                            (field "needs_network" (bool m.needs_network) end)))
                        (field "execution_capabilities" (object declaration) (
                          field "capability_boundary_notes"
                            (texts (capability_boundary_notes declaration)) end)))))))))))

-- `_queue_approval_prompt`: its answer, and the approvals then.
unfoldable pub queue_approval_prompt :
    Daemon → SkillManifest → PolicyDecision → Fields → Fields → Approvals → Value × Approvals
unfolding pending
queue_approval_prompt daemon m d context args s =
    let key = step_key daemon m context in
    if is_approved key s.approved_steps
    then (bool true, record s { approved_steps = discard key s.approved_steps })
    else if has_approval_grant (grant_for m d) s.grants || auto_approved daemon d
    then (bool true, s)
    else (pending daemon m d context args, s)
