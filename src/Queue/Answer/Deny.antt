-- ===== src/Queue/Answer/Deny.antt =====
-- `resolve_approval` of src/voxera/core/queue_approvals.py where the answer is no: the job fails. The
-- events and the mission's log are left out.
use voxera_os.Base.{ℕ, ◌-◌, max, String, Bool, true, false, Option, none, some}
use voxera_os.Py.{Value, null, text, object, Fields, end, field}
use voxera_os.Py.Dict.{get}
use voxera_os.Automation.{raises}
use voxera_os.Queue.State.{Update, nat_value}
use voxera_os.Mission.{MissionTemplate}
use voxera_os.Queue.Disk.{failed, FilePath}
use voxera_os.Queue.Lifecycle.{Env, Artifact, state_only}
use voxera_os.Queue.Steps.{
  M, ◌>>=◌, ◌>>◌, set_state, move, failed_sidecar, note, count_failed, prune,
}
use voxera_os.Queue.Gate.{progress}
use voxera_os.Queue.Answer.{Waiting}
use voxera_os.Queue.Answer.Stored.{fields_of, as_dict, resume_step, denied_total, denied_template}
use voxera_os.Queue.Answer.Desk.{DeskHost, lift, remove_waiting}

abbrev pub denial : String
denial = "Denied in approval inbox"

unfoldable pub denied_data : ℕ → ℕ → Fields
denied_data step total = field "lifecycle_state" (text "failed") (
    field "terminal_outcome" (text "failed") (
      progress step (max (step - 1) 0) step (
        field "total_steps" (nat_value total)
          (field "approval_status" (text "denied") (field "error" (text denial) end)))))

-- The sidecar of a denied job; a payload that is no object raises there.
abbrev pub denied_sidecar : Env → FilePath → Value → M (Unit {0})
denied_sidecar env t (object d) = failed_sidecar env t denial (some d)
denied_sidecar env t null = failed_sidecar env t denial none
denied_sidecar env t v = lift (raises "ValueError()")

abbrev pub denied_update : Fields → Fields → MissionTemplate → Update
denied_update meta d mission = record (state_only "failed" (some "failed")) {
  payload = as_dict (get "payload" meta);
  mission = some mission;
  rr_data = some d;
  failure_summary = some denial;
  blocked_reason = some "approval denied by operator";
  approval_status = some "denied";
}

abbrev pub after_denied_state : DeskHost → Waiting → FilePath → M Bool
after_denied_state host w t = do
  note t (Artifact.action "queue_job_failed")
  prune host.prune
  remove_waiting w true

abbrev pub write_denied_state :
    Env → DeskHost → Waiting → FilePath → Fields → Fields → MissionTemplate → M Bool
write_denied_state env host w t meta d mission = do
  set_state env t (denied_update meta d mission)
  after_denied_state host w t

abbrev pub count_denied : Env → DeskHost → Waiting → FilePath → Fields → Fields → M Bool
count_denied env host w t meta d = do
  note t (Artifact.execution_result d "failed" (some denial))
  count_failed
  mission ← lift (denied_template meta)
  write_denied_state env host w t meta d mission

abbrev pub write_denial : Env → DeskHost → Waiting → FilePath → Fields → Fields → M Bool
write_denial env host w t meta d = do
  denied_sidecar env t (get "payload" meta)
  count_denied env host w t meta d

abbrev pub deny_at : Env → DeskHost → Waiting → FilePath → Fields → ℕ → M Bool
deny_at env host w t meta step = do
  total ← lift (denied_total meta)
  write_denial env host w t meta (denied_data step total)

-- What follows the move of a job that is denied.
unfoldable pub deny_moved : Env → DeskHost → Waiting → FilePath → Fields → M Bool
unfolding remove_waiting denied_data
deny_moved env host w t meta = do step ← lift (resume_step meta); deny_at env host w t meta step

abbrev pub denied_as : Env → DeskHost → Waiting → Value → Option FilePath → M Bool
denied_as env host w v none = remove_waiting w false
denied_as env host w v (some t) = do meta ← lift (fields_of v); deny_moved env host w t meta

unfoldable pub deny : Env → DeskHost → Waiting → Value → M Bool
deny env host w v = do moved ← move env w.job failed; denied_as env host w v moved
