-- ===== src/Queue/Names.antt =====
-- Which files of the queue are jobs (src/voxera/core/queue_execution.py), and which job a reference
-- names (src/voxera/core/queue_daemon.py). The test for a directory `_ops` among the parts of a path
-- is left out: the directories of the queue hold none.
pub mod Laws
use voxera_os.Base.{
  String, Bool, true, false, not, Option, none, some, List, [], ◌∷◌, ◌&&◌, ◌||◌, ◌==◌, any,
  if◌then◌else◌,
}
use voxera_os.Base.Text.{◌+s◌, strip, starts_with, is_empty, or_else}
use voxera_os.Queue.Disk.{Dir, inbox, FilePath, at, same_dir, Files, exists, stem}

-- `s.endswith(tag)`
unfoldable pub ends_with : String → String → Bool
ends_with tag String.[] = tag == ""
ends_with tag (String.◌∷◌ c s) = (String.◌∷◌ c s == tag) || ends_with tag s

abbrev pub ends_with_any : List String → String → Bool
ends_with_any tags s = any (λ tag. ends_with tag s) tags

-- `_is_snapshot_artifact`
unfoldable pub is_snapshot_artifact : String → Bool
unfolding ends_with
is_snapshot_artifact name = ends_with ".json" name && starts_with name "config_snapshot"

-- `_is_metadata_sidecar`
unfoldable pub is_metadata_sidecar : String → Bool
unfolding ends_with
is_metadata_sidecar = ends_with_any (
    ".pending.json" ∷ ".approval.json" ∷ ".error.json" ∷ ".state.json" ∷ ".tmp.json"
    ∷ ".partial.json" ∷ [])

-- `_is_primary_job_json`
unfoldable pub is_primary_job_json : String → Bool
unfolding is_snapshot_artifact is_metadata_sidecar ends_with
is_primary_job_json name =
    ends_with ".json" name
    && not (name == "health.json")
    && not (is_snapshot_artifact name)
    && not (is_metadata_sidecar name)

-- `_is_ready_job_file`
unfoldable pub is_ready_job_file : FilePath → Files → Bool
unfolding is_snapshot_artifact ends_with
is_ready_job_file p fs =
    same_dir p.dir inbox
    && exists p fs
    && not (is_snapshot_artifact p.name)
    && ends_with ".json" p.name
    && not (starts_with p.name ".")
    && not (
        ends_with_any
          (".pending.json" ∷ ".approval.json" ∷ ".state.json" ∷ ".tmp.json" ∷ ".partial.json" ∷ [])
          p.name)

abbrev part : String → String → String
part last current = if (current == "") || (current == ".") then last else current

base_name_from : String → String → String → String
base_name_from last current String.[] = part last current
base_name_from last current (String.◌∷◌ c s) =
    if String.◌∷◌ c "" == "/"
    then base_name_from (part last current) "" s
    else base_name_from last (current +s String.◌∷◌ c "") s

-- `Path(s).name`
unfoldable pub base_name : String → String
unfolding base_name_from
base_name = base_name_from "" ""

-- What a reference means outside the queue's own names: the file of the queue that it is a path of,
-- and the order in which a set of names is gone through.
pub record Refs : Type 0 where
  pub direct : String → Option FilePath
  pub order : List String → List String

first_in : (FilePath → Bool) → Dir → List String → Option FilePath
first_in there d [] = none
first_in there d (n ∷ ns) = if there (at d n) then some (at d n) else first_in there d ns

first_of : (FilePath → Bool) → List String → List Dir → Option FilePath
unfolding first_in
first_of there ns [] = none
first_of there ns (d ∷ ds) = elim (first_in there d ns) [
  | some p ↦ some p
  | none ↦ first_of there ns ds
]

abbrev is_job : Files → FilePath → Bool
is_job fs p = exists p fs && is_primary_job_json p.name

abbrev direct_job : (FilePath → Bool) → Option FilePath → Option FilePath
direct_job there none = none
direct_job there (some p) = if there p then some p else none

unfoldable pub candidates : String → List String
candidates raw =
    let base = base_name raw in
    base ∷ (stem base +s ".json") ∷ ("job-" +s stem base +s ".json") ∷ []

-- `_resolve_job_ref_in_dirs`
unfoldable pub resolve_job_ref_in_dirs : Refs → String → List Dir → Files → Option FilePath
unfolding first_of candidates
resolve_job_ref_in_dirs refs ref dirs fs =
    let raw = strip ref in
    if is_empty raw then none else elim (direct_job (is_job fs) (refs.direct raw)) [
      | some p ↦ some p
      | none ↦ first_of (is_job fs) (refs.order (candidates raw)) dirs
    ]
