-- ===== src/Queue/Answer/Resume.antt =====
-- `resolve_approval` of src/voxera/core/queue_approvals.py where the answer is yes: the step is
-- approved, and the mission runs from it. The events are left out.
use voxera_os.Base.{
  ℕ, zero, suc, ◌-◌, String, Bool, true, false, Option, none, some, List, [], ◌∷◌, ◌==◌, ◌⊎◌, inl,
  inr, length, if◌then◌else◌,
}
use voxera_os.Base.Text.{or_else}
use voxera_os.Py.{Value, object, Items, nil, cons, Fields, end, field}
use voxera_os.Py.Dict.{get}
use voxera_os.Automation.{Raising, value, raises}
use voxera_os.Models.{RunResult}
use voxera_os.Skill.Result.{str_or_empty}
use voxera_os.Mission.{MissionStep, MissionTemplate}
use voxera_os.Queue.State.{nat_value}
use voxera_os.Queue.Disk.{Dir, done, failed, FilePath}
use voxera_os.Queue.Lifecycle.{Env, Queue, Artifact, state_only}
use voxera_os.Queue.Steps.{
  M, ◌>>=◌, ◌>>◌, ret, set_state, move, failed_sidecar, note, count_failed, count_processed, prune,
}
use voxera_os.Queue.Gate.{get_or, progress, write_pending_artifacts}
use voxera_os.Queue.Approvals.{StepKey, is_approved}
use voxera_os.Queue.Execution.Host.{PlanError}
use voxera_os.Queue.Execution.Attempt.{waits}
use voxera_os.Queue.Execution.Endings.{error_or}
use voxera_os.Queue.Answer.{Waiting}
use voxera_os.Queue.Answer.Stored.{as_dict, resume_step, stored_items, stored_mission}
use voxera_os.Queue.Answer.Desk.{DeskHost, Desk, on_queue, lift, remove_waiting}

abbrev pub Resumption : Type 0
Resumption = MissionTemplate × ℕ

abbrev planned_mission : MissionTemplate ⊎ PlanError → Raising Resumption
planned_mission (inl m) = value (m, 1)
planned_mission (inr e) = raises e.shown

abbrev pub stored_resumption : Raising MissionTemplate → Raising ℕ → Raising Resumption
stored_resumption (raises e) n = raises e
stored_resumption (value m) (raises e) = raises e
stored_resumption (value m) (value n) = value (m, n)

abbrev or_empty : Option Fields → Fields
or_empty none = end
or_empty (some d) = d

abbrev pub resumption_from : DeskHost → Fields → Value → Items → Raising Resumption
resumption_from host meta payload nil =
    planned_mission (host.build_mission (or_empty (as_dict payload)))
resumption_from host meta payload (cons v vs) =
    stored_resumption (stored_mission meta payload (cons v vs)) (resume_step meta)

-- The mission to resume, and its first step: those that were stored, else the mission that is planned
-- again, from its first step.
unfoldable pub resumption_of : DeskHost → Fields → Raising Resumption
resumption_of host meta =
    resumption_from host meta (get_or "payload" (object end) meta) (stored_items meta)

unfoldable pub skill_at : ℕ → List MissionStep → String
skill_at n [] = ""
skill_at zero (s ∷ ss) = s.skill_id
skill_at (suc n) (s ∷ ss) = skill_at n ss

-- The key that the prompt will look for.
unfoldable pub resumed_key : DeskHost → FilePath → MissionTemplate → ℕ → StepKey
unfolding skill_at
resumed_key host job mission step = record {
  job = host.path_text job;
  step = step;
  skill_id = skill_at (step - 1) mission.steps;
}

abbrev pub add_step : StepKey → List StepKey → List StepKey
add_step k ks = if is_approved k ks then ks else k ∷ ks

abbrev total_data : MissionTemplate → Fields
total_data mission = field "total_steps" (nat_value (length mission.steps)) end

-- The states of a job that is resumed and running.
unfoldable pub announce : Env → FilePath → Option Fields → MissionTemplate → ℕ → M (Unit {0})
announce env job payload mission step = do
  set_state env job (record (state_only "resumed" none) {
    payload = payload;
    mission = some mission;
    rr_data = some (progress (step - 1) (step - 1) step (total_data mission));
    approval_status = some "approved";
  })
  set_state env job (record (state_only "running" none) {
    payload = payload;
    mission = some mission;
    rr_data = some (total_data mission);
    approval_status = some "approved";
  })

abbrev given_payload : Option Fields → Raising Fields
given_payload none = raises "AttributeError()"
given_payload (some d) = value d

-- The mission waits again.
unfoldable pub wait_again : Env → FilePath → Option Fields → MissionTemplate → Fields → M Bool
wait_again env job payload mission d = do
  given ← lift (given_payload payload)
  write_pending_artifacts env job given mission d
  set_state env job (record (state_only "awaiting_approval" none) {
    payload = payload;
    mission = some mission;
    rr_data = some d;
    approval_status = some "pending";
  })
  note job (Artifact.action "queue_job_pending_approval")
  ret false

abbrev pub resumed_failed :
    Env
    → DeskHost
    → Waiting
    → Option Fields
    → MissionTemplate
    → RunResult
    → Option FilePath
    → M Bool
resumed_failed env host w payload mission rr none = remove_waiting w false
resumed_failed env host w payload mission rr (some t) = do
  let error = error_or rr.error "mission failed"
  let outcome = str_or_empty (get "terminal_outcome" rr.result_data)
  failed_sidecar env t error payload
  set_state env t
      (record (state_only
        (or_else (str_or_empty (get "lifecycle_state" rr.result_data)) "step_failed")
        (some (or_else outcome "failed"))) {
          payload = payload;
          mission = some mission;
          rr_data = some rr.result_data;
          failure_summary = some error;
          blocked_reason = if outcome == "blocked" then some error else none;
          approval_status = some "approved";
        })
  count_failed
  note t (Artifact.run_streams rr.result_data)
  note t (Artifact.action "queue_job_failed")
  prune host.prune
  remove_waiting w false

abbrev pub resumed_done :
    Env → Waiting → Option Fields → MissionTemplate → RunResult → Option FilePath → M Bool
resumed_done env w payload mission rr none = remove_waiting w false
resumed_done env w payload mission rr (some t) = do
  count_processed
  note t (Artifact.run_streams rr.result_data)
  set_state env t
      (record (state_only "done"
        (some (or_else (str_or_empty (get "terminal_outcome" rr.result_data)) "succeeded"))) {
          payload = payload;
          mission = some mission;
          rr_data = some rr.result_data;
          approval_status = some "approved";
        })
  note t (Artifact.action "queue_job_done")
  remove_waiting w true

abbrev pub resumed_moved :
    Env
    → DeskHost
    → Waiting
    → Option Fields
    → MissionTemplate
    → RunResult
    → Option FilePath
    → M Bool
resumed_moved env host w payload mission rr moved =
    if rr.ok
    then resumed_done env w payload mission rr moved
    else resumed_failed env host w payload mission rr moved

unfoldable pub resumed_moving :
    Env → DeskHost → Waiting → Option Fields → MissionTemplate → RunResult → Dir → M Bool
resumed_moving env host w payload mission rr dir = do
  moved ← move env w.job dir
  resumed_moved env host w payload mission rr moved

-- How the run of a resumed mission ends the job, or lets it wait again.
unfoldable pub end_resumed :
    Env → DeskHost → Waiting → Option Fields → MissionTemplate → RunResult → M Bool
unfolding resumed_moving wait_again
end_resumed env host w payload mission rr =
    if waits (get "status" rr.result_data)
    then wait_again env w.job payload mission rr.result_data
    else resumed_moving env host w payload mission rr (if rr.ok then done else failed)

abbrev pub after_start :
    Env
    → DeskHost
    → Waiting
    → Option Fields
    → MissionTemplate
    → Raising RunResult × List StepKey
    → Desk
    → Raising Bool × Desk
after_start env host w payload mission (raises e, ks) s =
    (raises e, record s { approved_steps = ks })
after_start env host w payload mission (value rr, ks) s =
    on_queue (record s { approved_steps = ks }) (end_resumed env host w payload mission rr s.queue)

unfoldable pub start_resumed :
    Env → DeskHost → Waiting → Option Fields → MissionTemplate → ℕ → Desk → Raising Bool × Desk
start_resumed env host w payload mission step s =
    after_start env host w payload mission (host.run s.approved_steps s.grants step mission)
      (record s {
        starts = record { mission = mission; step = step; approved = s.approved_steps } ∷ s.starts;
      })

abbrev pub announced :
    Env
    → DeskHost
    → Waiting
    → Option Fields
    → MissionTemplate
    → ℕ
    → Desk
    → Raising (Unit {0}) × Queue
    → Raising Bool × Desk
announced env host w payload mission step s (raises e, q) = (raises e, record s { queue = q })
announced env host w payload mission step s (value u, q) =
    start_resumed env host w payload mission step (record s { queue = q })

-- The step is approved, and the mission run from it.
unfoldable pub resume :
    Env → DeskHost → Waiting → Option Fields → MissionTemplate → ℕ → Desk → Raising Bool × Desk
resume env host w payload mission step s =
    announced env host w payload mission step
      (record s {
        approved_steps = add_step (resumed_key host w.job mission step) s.approved_steps;
      })
      (announce env w.job payload mission step s.queue)
