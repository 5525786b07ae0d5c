-- ===== src/Queue/Answer.antt =====
-- The answer to an approval (src/voxera/core/queue_approvals.py): which job a reference means, and
-- what its files say. Queue/Answer/Resolve is `resolve_approval`, with
-- Deny and Resume for its two answers.
pub mod Stored
pub mod Desk
pub mod Deny
pub mod Resume
pub mod Resolve
use voxera_os.Base.{
  String, Bool, true, false, not, Option, none, some, List, [], ◌∷◌, ◌++◌, ◌==◌, ◌&&◌, ◌||◌,
  contains, if◌then◌else◌,
}
use voxera_os.Base.Text.{◌+s◌, strip, has_substring, is_empty}
use voxera_os.Base.Text.Affix.{remove_suffix, remove_prefix, replace_all}
use voxera_os.Py.{Value, text, bool, object, Fields, end, truthy}
use voxera_os.Py.Dict.{get, find}
use voxera_os.Py.Str.{py_str}
use voxera_os.Automation.{Raising, value, raises}
use voxera_os.Queue.State.{dict_or}
use voxera_os.Queue.Disk.{
  Dir, pending, approvals, FilePath, at, Files, read, exists, same_dir, stem,
}
use voxera_os.Queue.Names.{ends_with, base_name}
use voxera_os.Queue.Approvals.{Grant}
use voxera_os.Queue.Gate.{get_or}

-- The names of the approvals that wait, in the order of the directory's listing.
approval_names : Files → List String
approval_names [] = []
approval_names ((p, v) ∷ fs) =
    let rest = approval_names fs in
    if same_dir p.dir approvals && ends_with ".approval.json" p.name then p.name ∷ rest else rest

-- `_iter_approval_artifacts`, where `recent` puts the newest first
unfoldable pub iter_approval_artifacts : (List String → List String) → Files → List String
unfolding approval_names
iter_approval_artifacts recent fs = recent (approval_names fs)

abbrev cut_approval : String → String
cut_approval = remove_suffix ".approval"

unfoldable pub approval_ref_variants : String → List String
approval_ref_variants name =
    let s = cut_approval (stem name) in
    let base = remove_prefix "job-" s in
    s
    ∷ base
    ∷ (s +s ".json")
    ∷ (base +s ".json")
    ∷ (s +s ".approval")
    ∷ (s +s ".approval.json")
    ∷ name
    ∷ []

abbrev canonical_base : String → String
canonical_base base =
    if ends_with ".approval.json" base then remove_suffix ".approval.json" base +s ".json" else base

abbrev named_candidates : String → List String
named_candidates base =
    if has_substring "." base then [] else (base +s ".json") ∷ (base +s ".pending.json") ∷ []

abbrev stem_candidates : String → List String
stem_candidates s =
    let short = remove_prefix "job-" s in
    (s +s ".json") ∷ ("job-" +s short +s ".json") ∷ (short +s ".json") ∷ []

-- The texts that are not empty, each at its first place
ordered_from : List String → List String → List String
ordered_from seen [] = seen
ordered_from seen (c ∷ cs) =
    ordered_from (if is_empty c || contains c seen then seen else seen ++ c ∷ []) cs

unfoldable pub approval_ref_candidates : String → List String
unfolding ordered_from
approval_ref_candidates ref =
    let base = canonical_base (base_name (strip ref)) in
    ordered_from [] (
      (base
        ∷ replace_all ".pending.json" ".json" base
        ∷ replace_all ".json" ".pending.json" base
        ∷ [])
      ++ (named_candidates base ++ stem_candidates (cut_approval (stem base))))

-- A job that waits: itself, its resumption and its approval.
pub record Waiting : Type 0 where
  pub job : FilePath
  pub meta : FilePath
  pub artifact : FilePath

abbrev pub waiting_for : FilePath → String → Waiting
waiting_for job s = record {
  job = job;
  meta = at pending (s +s ".pending.json");
  artifact = at approvals (s +s ".approval.json");
}

-- What a name of the pending directory stands for.
unfoldable pub waiting_at : String → Files → Waiting
waiting_at name fs =
    let s = remove_suffix ".pending.json" name in
    if ends_with ".pending.json" name
    then waiting_for
        (if exists (at pending (s +s ".json")) fs
          then at pending (s +s ".json")
          else at pending name)
        s
    else waiting_for (at pending name) (stem name)

first_waiting : List String → Files → Option Waiting
first_waiting [] fs = none
first_waiting (c ∷ cs) fs =
    if exists (at pending c) fs then some (waiting_at c fs) else first_waiting cs fs

abbrev waiting_of : String → Waiting
waiting_of name = let s = cut_approval (stem name) in waiting_for (at pending (s +s ".json")) s

first_variant : String → List String → Files → Option Waiting
first_variant base [] fs = none
first_variant base (a ∷ as') fs =
    if contains base (approval_ref_variants a) && exists (waiting_of a).job fs
    then some (waiting_of a)
    else first_variant base as' fs

abbrev or_not_found : String → Option Waiting → Raising Waiting
or_not_found ref none = raises ("pending job not found: " +s ref)
or_not_found ref (some w) = value w

-- `_resolve_pending_approval_paths`
unfoldable pub resolve_pending_approval_paths :
    (List String → List String) → String → Files → Raising Waiting
unfolding first_waiting first_variant
resolve_pending_approval_paths recent ref fs =
    let raw = strip ref in
    if is_empty raw
    then raises "pending job not found: (empty ref)"
    else elim (first_waiting (approval_ref_candidates raw) fs) [
      | some w ↦ value w
      | none ↦
          or_not_found ref (first_variant (base_name raw) (iter_approval_artifacts recent fs) fs)
    ]

-- `_approval_scope_from_artifact`, and the grant that the whole approval stands for
unfoldable pub approval_grant : Value → Grant
approval_grant (object d) =
    let nested = dict_or (get "scope" d) end in
    record {
      skill = py_str (get_or "skill" (text "") d);
      capability = py_str (get_or "capability" (text "unknown") d);
      fs_scope = py_str (get_or "fs_scope" (get_or "fs_scope" (text "workspace_only") nested) d);
      needs_network =
          truthy (get_or "needs_network" (get_or "needs_network" (bool false) nested) d);
    }
approval_grant _ = record {
  skill = "(unparseable approval artifact)";
  capability = "-";
  fs_scope = "workspace_only";
  needs_network = false;
}
