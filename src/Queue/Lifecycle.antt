-- ===== src/Queue/Lifecycle.antt =====
-- What an operator does to a job of the queue (src/voxera/core/queue_daemon.py): cancel, retry and
-- delete, with the snapshot of the job's state beside it (src/voxera/core/queue_state.py). An
-- operation gives its result, or the exception's text, with the queue then.
pub mod Frame
pub mod Laws
pub mod Moved
use voxera_os.Base.{
  ℕ, String, Bool, true, false, not, Option, none, some, List, [], ◌∷◌, ◌++◌, ◌==◌, ◌&&◌, ◌||◌, any,
  if◌then◌else◌,
}
use voxera_os.Base.Text.{◌+s◌}
use voxera_os.Py.{Value, object, Fields, end}
use voxera_os.Automation.{Raising, value, raises}
use voxera_os.Mission.{MissionTemplate}
use voxera_os.Queue.State.{Update, update_job_state_snapshot}
use voxera_os.Queue.Disk.{
  Dir, inbox, pending, approvals, done, failed, canceled, sidecar_archive, FilePath, at, same_dir,
  Files, read, exists, write, unlink, stem, sidecar, state_file, move_job,
}
use voxera_os.Queue.Names.{Refs, resolve_job_ref_in_dirs}

-- What the daemon writes for a job beside the directories: a line of its actions, its streams and
-- its execution result, with what they are made from.
pub data Artifact : Type 0 where
  action : String → Artifact
  run_streams : Fields → Artifact
  execution_result : Fields → String → Option String → Artifact
  plan : ℕ → ℕ → MissionTemplate → Artifact
  planning_failure : ℕ → ℕ → String → String → String → Artifact
  intent_mismatch : ℕ → ℕ → String → Artifact
  child_ref : Fields → Artifact

pub record Queue : Type 0 where
  pub files : Files
  pub artifacts : List (String × Artifact)
  pub runs : List MissionTemplate  -- given to the mission runner
  pub processed : ℕ
  pub failures : ℕ

pub record Env : Type 0 where
  pub refs : Refs
  pub now : ℕ
  pub sanitize_payload : Fields → Fields

abbrev pub buckets : List Dir
buckets = inbox ∷ pending ∷ done ∷ failed ∷ canceled ∷ []

first_existing : String → List Dir → Files → Option FilePath
first_existing name [] fs = none
first_existing name (d ∷ ds) fs =
    if exists (at d name) fs then some (at d name) else first_existing name ds fs

-- `job_state_sidecar_path`: the first state file of the job's stem in any bucket, else the one
-- beside the job.
unfoldable pub job_state_sidecar_path : FilePath → Files → FilePath
unfolding first_existing
job_state_sidecar_path job fs = elim (first_existing (sidecar ".state.json" job.name) buckets fs) [
  | some p ↦ p
  | none ↦
      if any (same_dir job.dir) buckets
      then state_file job
      else at pending (sidecar ".state.json" job.name)
]

abbrev pub loaded : Option (Option Value) → Fields
loaded (some (some (object d))) = d
loaded _ = end

unfoldable pub read_job_state : FilePath → Files → Fields
read_job_state job fs = loaded (read (job_state_sidecar_path job fs) fs)

abbrev pub sanitized : (Fields → Fields) → Update → Update
sanitized f u = record u { payload = elim u.payload [ none ↦ none | some d ↦ some (f d) ] }

-- `_update_job_state`; `none` is the exception of the update
unfoldable pub update_job_state : Env → FilePath → Update → Files → Option Files
unfolding read_job_state
update_job_state env job u fs =
    elim (update_job_state_snapshot (stem job.name) (sanitized env.sanitize_payload u)
      (read_job_state job fs) env.now) [
        | none ↦ none
        | some d ↦ some (write (job_state_sidecar_path job fs) (some (object d)) fs)
      ]

-- The arguments that a call leaves out.
abbrev pub state_only : String → Option String → Update
state_only state outcome = record {
  lifecycle_state = state;
  payload = none;
  mission = none;
  rr_data = none;
  terminal_outcome = outcome;
  failure_summary = none;
  blocked_reason = none;
  blocked_reason_class = none;
  approval_status = none;
}

-- `_archive_sidecar`. A sidecar's suffix is kept by the move, so the renaming there never applies.
unfoldable pub archive_sidecar : ℕ → FilePath → Files → Files
archive_sidecar now p fs = if exists p fs then (move_job now p sidecar_archive fs).1 else fs

abbrev pub error_sidecar : FilePath → FilePath
error_sidecar job = at job.dir (sidecar ".error.json" job.name)

abbrev pub pending_meta : String → FilePath
pending_meta name = at pending (sidecar ".pending.json" name)

abbrev pub approval_file : String → FilePath
approval_file name = at approvals (sidecar ".approval.json" name)

abbrev with_files : Queue → Files → Queue
with_files q fs = record q { files = fs }

abbrev not_found : String → String
not_found ref = "job not found: " +s ref

-- What follows the move of a job that is canceled.
unfoldable pub cancel_moved : Env → FilePath → Queue → Raising FilePath × Queue
cancel_moved env moved q =
    let fs =
      archive_sidecar env.now (error_sidecar (at failed moved.name))
        (unlink (approval_file moved.name) (unlink (pending_meta moved.name) q.files)) in
    elim (update_job_state env moved (state_only "canceled" (some "canceled")) fs) [
      | none ↦ (raises "state", with_files q fs)
      | some gs ↦ (value moved, with_files q gs)
    ]

unfoldable pub cancel_job : Env → String → Queue → Raising FilePath × Queue
cancel_job env ref q = elim (resolve_job_ref_in_dirs env.refs ref (inbox ∷ pending ∷ []) q.files) [
  | none ↦ (raises (not_found ref), q)
  | some job ↦
      let (moved, fs) = move_job env.now job canceled q.files in
      elim moved [
        | none ↦ (raises (not_found ref), with_files q fs)
        | some t ↦ cancel_moved env t (with_files q fs)
      ]
]

unfoldable pub retry_job : Env → String → Queue → Raising FilePath × Queue
retry_job env ref q = elim (resolve_job_ref_in_dirs env.refs ref (failed ∷ canceled ∷ []) q.files) [
  | none ↦ (raises ("retry " +s not_found ref), q)
  | some job ↦
      let (moved, fs) =
        move_job env.now job inbox (archive_sidecar env.now (error_sidecar job) q.files) in
      elim moved [
        | none ↦ (raises ("retry " +s not_found ref), with_files q fs)
        | some t ↦ (value t, with_files q fs)
      ]
]

-- `shutil.rmtree` of the job's artifacts
unfoldable pub drop_artifacts : String → List (String × Artifact) → List (String × Artifact)
drop_artifacts s [] = []
drop_artifacts s ((t, a) ∷ as') =
    let rest = drop_artifacts s as' in if t == s then rest else (t, a) ∷ rest

-- The removal of a terminal job, with all that belongs to it.
unfoldable pub delete_job : FilePath → Queue → Queue
unfolding drop_artifacts
delete_job job q =
    let fs = unlink job q.files in
    let gs = if same_dir job.dir failed then unlink (error_sidecar job) fs else fs in
    record q {
      files = unlink (approval_file job.name) (unlink (pending_meta job.name) gs);
      artifacts = drop_artifacts (stem job.name) q.artifacts;
    }

unfoldable pub delete_terminal_job : Env → String → String → Queue → Raising String × Queue
delete_terminal_job env ref confirm q =
    elim (resolve_job_ref_in_dirs env.refs ref (done ∷ failed ∷ canceled ∷ []) q.files) [
      | none ↦ (raises ("terminal " +s not_found ref), q)
      | some job ↦
          if confirm == job.name
          then (value job.name, delete_job job q)
          else (raises "delete confirmation mismatch", q)
    ]
