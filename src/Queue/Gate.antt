-- ===== src/Queue/Gate.antt =====
-- `QueueApprovalMixin` of src/voxera/core/queue_approvals.py, its gate: a job that demands an
-- approval waits for it, and what is written for a job that waits. The times of the files are those
-- of the same clock as the daemon's other ones. The notification is left out, and so is the entry
-- with the job's whole path and the notes of a mission.
use voxera_os.Base.{
  ℕ, ◌-◌, max, String, Bool, true, false, not, Option, none, some, map, length, if◌then◌else◌,
}
use voxera_os.Base.Int.{ℤ, to_ℕ}
use voxera_os.Py.{Value, bool, text, array, object, nil, Fields, end, field, truthy, of_list}
use voxera_os.Py.Dict.{get, find}
use voxera_os.Automation.{raises}
use voxera_os.Mission.{MissionStep, MissionTemplate}
use voxera_os.Queue.State.{Update, nat_value, int_of, or_value, dict_or}
use voxera_os.Queue.Disk.{inbox, pending, FilePath, exists, same_dir, stem}
use voxera_os.Queue.Lifecycle.{Env, Artifact, approval_file, pending_meta, state_only}
use voxera_os.Queue.Steps.{M, ◌>>=◌, ◌>>◌, ret, set_state, move, note, write_file, remove_file}

abbrev is_true : Value → Bool
is_true (bool b) = b
is_true _ = false

-- `_is_hard_approval_required`
unfoldable pub is_hard_approval_required : Fields → Bool
is_hard_approval_required payload = is_true (get "approval_required" payload)

abbrev unknown_target : Value
unknown_target = object (field "type" (text "unknown") (field "value" (text "") end))

abbrev default_scope : Fields
default_scope = field "fs_scope" (text "workspace_only") (field "needs_network" (bool false) end)

abbrev pub hard_gate_reason : String
hard_gate_reason = "approval_required=true hard gate"

-- The approval that the gate writes.
unfoldable pub gate_approval : FilePath → Fields → ℕ → Fields
gate_approval job payload now = field "job" (text job.name) (
    field "job_id" (text (stem job.name)) (
      field "mission_id" (get "mission_id" payload) (
        field "goal" (get "goal" payload) (
          field "step" (nat_value 0) (
            field "skill" (text "approval_required") (
              field "args" (object end) (
                field "reason" (text hard_gate_reason) (
                  field "policy_reason" (text hard_gate_reason) (
                    field "capability" (text "approval_required") (
                      field "target" unknown_target (
                        field "fs_scope" (text "workspace_only") (
                          field "needs_network" (bool false) (
                            field "scope" (object default_scope) (
                              field "status" (text "pending_approval")
                                (field "ts" (nat_value now) end)))))))))))))))

abbrev pub progress : ℕ → ℕ → ℕ → Fields → Fields
progress current completed attempted rest = field "current_step_index" (nat_value current) (
    field "last_completed_step" (nat_value completed)
      (field "last_attempted_step" (nat_value attempted) rest))

abbrev gate_update : Fields → Update
gate_update payload = record (state_only "awaiting_approval" none) {
  payload = some payload;
  rr_data = some (progress 0 0 0 end);
  approval_status = some "pending";
}

-- The gate once the job is among those that wait: an approval that is there already is kept.
unfoldable pub gate_in_pending : Env → FilePath → Fields → M Bool
unfolding gate_approval
gate_in_pending env job payload q =
    let approval = gate_approval job payload env.now in
    let present : M Bool = (do remove_file (pending_meta job.name); ret true) in
    let created : M Bool = (do
      write_file (approval_file job.name) (some (object approval))
      remove_file (pending_meta job.name)
      set_state env job (gate_update payload)
      note job (Artifact.action "queue_job_pending_approval")
      ret true) in
    if exists (approval_file job.name) q.files then present q else created q

abbrev pub gate_moved : Env → Fields → Option FilePath → M Bool
gate_moved env payload none = ret true
gate_moved env payload (some job) = gate_in_pending env job payload

-- `_ensure_hard_approval_gate`: whether the job waits.
unfoldable pub ensure_hard_approval_gate : Env → FilePath → Fields → M Bool
unfolding is_hard_approval_required
ensure_hard_approval_gate env job payload =
    let moving : M Bool = (do moved ← move env job pending; gate_moved env payload moved) in
    if not (is_hard_approval_required payload)
    then ret false
    else if same_dir job.dir inbox
    then moving
    else gate_in_pending env job payload

abbrev pub get_or : String → Value → Fields → Value
get_or k v d = elim (find k d) [ none ↦ v | some w ↦ w ]

abbrev scope_of : Fields → Fields
scope_of run_data =
    let scope = dict_or (or_value (get "scope" run_data) (object end)) end in
    field "fs_scope" (get_or "fs_scope" (text "workspace_only") scope)
      (field "needs_network" (bool (truthy (get_or "needs_network" (bool false) scope))) end)

-- The approval of a step that the mission waits at.
unfoldable pub step_approval : FilePath → Fields → Fields → ℕ → ℕ → Fields
step_approval job payload run_data step now = field "job" (text job.name) (
    field "job_id" (text (stem job.name)) (
      field "mission_id" (get "mission_id" payload) (
        field "goal" (get "goal" payload) (
          field "step" (nat_value step) (
            field "skill" (get "skill" run_data) (
              field "args" (get_or "args" (object end) run_data) (
                field "reason" (get "reason" run_data) (
                  field "policy_reason" (get_or "policy_reason" (get "reason" run_data) run_data) (
                    field "capability" (get "capability" run_data) (
                      field "target" (get_or "target" unknown_target run_data) (
                        field "fs_scope" (get "fs_scope" (scope_of run_data)) (
                          field "needs_network" (get "needs_network" (scope_of run_data)) (
                            field "scope" (object (scope_of run_data)) (
                              field "execution_capabilities"
                                (get_or "execution_capabilities" (object end) run_data)
                                (field "capability_boundary_notes"
                                  (get_or "capability_boundary_notes" (array nil) run_data)
                                  (field "status" (text "pending_approval")
                                    (field "ts" (nat_value now) end)))))))))))))))))

abbrev pub step_value : MissionStep → Value
step_value s = object (field "skill_id" (text s.skill_id) (field "args" (object s.args) end))

abbrev mission_value : MissionTemplate → Value
mission_value m = object (
    field "id" (text m.id) (
      field "title" (text m.title) (
        field "goal" (text m.goal) (field "steps" (array (of_list (map step_value m.steps))) end))))

unfoldable pub resumption : FilePath → Fields → MissionTemplate → ℕ → Fields
resumption job payload mission step = field "status" (text "pending_approval") (
    field "lifecycle_state" (text "awaiting_approval") (
      field "job" (text job.name) (
        field "payload" (object payload) (
          field "resume_step" (nat_value step) (
            progress step (max (step - 1) 0) step (
              field "total_steps" (nat_value (length mission.steps)) (
                field "approval_status" (text "pending")
                  (field "mission" (mission_value mission) end))))))))

-- The approval and the resumption of a job that waits at a step; a step that is no number raises.
unfoldable pub write_pending_at :
    Env → FilePath → Fields → MissionTemplate → Fields → Option ℤ → M (Unit {0})
write_pending_at env job payload mission run_data none q = (raises "TypeError()", q)
write_pending_at env job payload mission run_data (some z) q =
    let step = to_ℕ z in
    let writes : M (Unit {0}) = (do
      write_file (approval_file job.name)
          (some (object (step_approval job payload run_data step env.now)))
      write_file (pending_meta job.name) (some (object (resumption job payload mission step)))) in
    writes q

-- `_write_pending_artifacts`
unfoldable pub write_pending_artifacts :
    Env → FilePath → Fields → MissionTemplate → Fields → M (Unit {0})
unfolding write_pending_at
write_pending_artifacts env job payload mission run_data =
    write_pending_at env job payload mission run_data
      (int_of (or_value (get_or "step" (nat_value 0) run_data) (nat_value 0)))
