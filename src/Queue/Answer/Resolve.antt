-- ===== src/Queue/Answer/Resolve.antt =====
-- `resolve_approval` of src/voxera/core/queue_approvals.py.
pub mod Laws
pub mod Denial
pub mod Failures
pub mod Prompt
use voxera_os.Base.{
  ℕ, zero, suc, ◌-◌, max, String, Bool, true, false, not, Option, none, some, List, [], ◌∷◌, ◌==◌,
  ◌⊎◌, inl, inr, length, nat_eq, if◌then◌else◌,
}
use voxera_os.Base.Text.{or_else}
use voxera_os.Py.{Value, null, text, object, Items, nil, cons, Fields, end, field, truthy}
use voxera_os.Py.Dict.{get}
use voxera_os.Automation.{Raising, value, raises}
use voxera_os.Models.{RunResult}
use voxera_os.Skill.Result.{str_or_empty}
use voxera_os.Mission.{MissionStep, MissionTemplate}
use voxera_os.Queue.State.{Update, nat_value}
use voxera_os.Queue.Disk.{Dir, done, failed, FilePath, Files, read, exists}
use voxera_os.Queue.Lifecycle.{Env, Queue, Artifact, state_only}
use voxera_os.Queue.Steps.{
  M, ◌>>=◌, ◌>>◌, ret, set_state, move, failed_sidecar, note, count_failed, count_processed,
  remove_file, prune,
}
use voxera_os.Queue.Gate.{get_or, progress, write_pending_artifacts}
use voxera_os.Queue.Approvals.{Grant, StepKey, is_approved, grant_approval_scope}
use voxera_os.Queue.Execution.Host.{PlanError}
use voxera_os.Queue.Execution.Attempt.{waits}
use voxera_os.Queue.Execution.Endings.{error_or}
use voxera_os.Queue.Answer.{Waiting, resolve_pending_approval_paths, approval_grant}
use voxera_os.Queue.Answer.Stored.{
  read_meta, fields_of, as_dict, resume_step, stored_items, stored_mission, denied_total,
  denied_template,
}
use voxera_os.Queue.Answer.Desk.{DeskHost, Start, Desk, on_queue, lift, remove_waiting}
use voxera_os.Queue.Answer.Deny.{deny}
use voxera_os.Queue.Answer.Resume.{Resumption, resumption_of, resume}

abbrev pub granted : Option (Option Value) → List Grant → List Grant
granted none gs = gs
granted (some none) gs = grant_approval_scope (approval_grant null) gs
granted (some (some v)) gs = grant_approval_scope (approval_grant v) gs

abbrev pub approved_as :
    Env → DeskHost → Waiting → Fields → Raising Resumption → Desk → Raising Bool × Desk
approved_as env host w meta (raises e) s = (raises e, s)
approved_as env host w meta (value (mission, step)) s =
    resume env host w (as_dict (get_or "payload" (object end) meta)) mission step s

abbrev approve_meta : Env → DeskHost → Waiting → Bool → Raising Fields → Desk → Raising Bool × Desk
approve_meta env host w always (raises e) s = (raises e, s)
approve_meta env host w always (value meta) s =
    approved_as env host w meta (resumption_of host meta) (record s {
      grants = if always then granted (read w.artifact s.queue.files) s.grants else s.grants;
    })

unfoldable pub approve : Env → DeskHost → Waiting → Bool → Value → Desk → Raising Bool × Desk
approve env host w always v s = approve_meta env host w always (fields_of v) s

abbrev pub answered :
    Env → DeskHost → Bool → Bool → Waiting → Raising Value → Desk → Raising Bool × Desk
answered env host approves always w (raises e) s = (raises e, s)
answered env host true always w (value v) s = approve env host w always v s
answered env host false always w (value v) s = on_queue s (deny env host w v s.queue)

abbrev pub answered_at : Env → DeskHost → Bool → Bool → Raising Waiting → Desk → Raising Bool × Desk
answered_at env host approves always (raises e) s = (raises e, s)
answered_at env host approves always (value w) s =
    answered env host approves always w (read_meta w s.queue.files) s

-- `resolve_approval`
unfoldable pub resolve_approval : Env → DeskHost → String → Bool → Bool → Desk → Raising Bool × Desk
resolve_approval env host ref approves always s =
    answered_at env host approves always
      (resolve_pending_approval_paths host.recent ref s.queue.files) s
