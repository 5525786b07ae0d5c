-- ===== src/Queue/Execution/Endings.antt =====
-- How a job leaves the loop (src/voxera/core/queue_execution.py, and the shutdown of
-- src/voxera/core/queue_recovery.py): failed, waiting, or done with a child enqueued. A job that is
-- no longer there when it is moved ends with `False`.
use voxera_os.Base.{
  ℕ, suc, String, Bool, true, false, Option, none, some, List, [], ◌∷◌, ◌==◌, length, if◌then◌else◌,
}
use voxera_os.Base.Text.{◌+s◌, strip, is_empty, or_else}
use voxera_os.Py.{Value, text, array, object, nil, cons, Fields, end, field, truthy}
use voxera_os.Py.Dict.{get, put}
use voxera_os.Models.{RunResult}
use voxera_os.Skill.Result.{str_or_empty}
use voxera_os.Mission.{MissionTemplate}
use voxera_os.Automation.{raises}
use voxera_os.Queue.State.{Update, nat_value}
use voxera_os.Queue.Disk.{inbox, pending, done, failed, FilePath, at, stem}
use voxera_os.Queue.Requests.{ChildRequest, compute_child_lineage, or_text}
use voxera_os.Queue.Lifecycle.{Env, Artifact, state_only, read_job_state, job_state_sidecar_path}
use voxera_os.Queue.Steps.{
  M, ◌>>=◌, ◌>>◌, ret, set_state, move, failed_sidecar, note, count_failed, count_processed,
  write_file, prune,
}
use voxera_os.Queue.Gate.{write_pending_artifacts}
use voxera_os.Queue.Execution.Host.{Host, Job, Progress}

-- A failure, in the form that its four places share.
pub record Failure : Type 0 where
  pub error : String
  pub payload : Option Fields
  pub outcome : String
  pub rr_data : Fields
  pub update : Update
  pub actions : List Artifact

unfoldable pub note_all : FilePath → List Artifact → M (Unit {0})
note_all job [] = ret tt
note_all job (a ∷ as') = do note job a; note_all job as'

unfoldable pub fail_moved : Env → Host → Failure → Option FilePath → M Bool
unfolding note_all
fail_moved env host f none = ret false
fail_moved env host f (some job) = do
  failed_sidecar env job f.error f.payload
  note job (Artifact.execution_result f.rr_data f.outcome (some f.error))
  set_state env job f.update
  count_failed
  note_all job f.actions
  prune host.prune
  ret false

unfoldable pub fail_job : Env → Host → FilePath → Failure → M Bool
unfolding fail_moved
fail_job env host job f = do moved ← move env job failed; fail_moved env host f moved

-- The data of a job that failed before a run.
unfoldable pub failed_before_run : Host → Progress → ℕ → String → String → String → Fields → Fields
failed_before_run host p total evaluation_class reason stop rest = field "results" (array nil) (
    field "step_outcomes" (array nil) (
      field "total_steps" (nat_value total) (
        field "lifecycle_state" (text "step_failed") (
          field "attempt_index" (nat_value p.attempts) (
            field "replan_count" (nat_value p.replans) (
              field "max_replans" (nat_value host.max_replans) (
                field "evaluation_class" (text evaluation_class) (
                  field "evaluation_reason" (text reason)
                    (field "stop_reason" (text stop) rest)))))))))

unfoldable pub planning_failure : Host → Job → Progress → String → String → String → Failure
unfolding failed_before_run
planning_failure host job p error evaluation_class reason =
    let rr = failed_before_run host p 0 evaluation_class reason "planning_failure" end in
    record {
      error = error;
      payload = some job.payload;
      outcome = "failed";
      rr_data = rr;
      update = record (state_only "step_failed" (some "failed")) {
        payload = some job.payload;
        mission = p.previous;
        rr_data = some rr;
        failure_summary = some error;
      };
      actions = [];
    }

-- The plan's first step is of another family of skills than the request's.
unfoldable pub mismatch_failure :
    Host → Job → Progress → MissionTemplate → String → Fields → Failure
unfolding failed_before_run
mismatch_failure host job p mission error route =
    let rr =
      failed_before_run host p (length mission.steps) "terminal_failure"
        "simple_intent_skill_family_mismatch" "planner_intent_route_rejected"
        (field "intent_route" (object route) end) in
    record {
      error = error;
      payload = some job.payload;
      outcome = "failed";
      rr_data = rr;
      update = record (state_only "step_failed" (some "failed")) {
        payload = some job.payload;
        mission = p.previous;
        rr_data = some rr;
        failure_summary = some error;
      };
      actions = [];
    }

abbrev pub error_or : Option String → String → String
error_or none other = other
error_or (some e) other = or_else e other

-- A run that failed.
unfoldable pub run_failure : Job → MissionTemplate → RunResult → Fields → Failure
run_failure job mission rr d =
    let error = error_or rr.error "mission failed" in
    let outcome = str_or_empty (get "terminal_outcome" d) in
    record {
      error = error;
      payload = some job.payload;
      outcome = or_else outcome "failed";
      rr_data = d;
      update =
          record (state_only (or_else (str_or_empty (get "lifecycle_state" d)) "step_failed")
            (some (or_else outcome "failed"))) {
              payload = some job.payload;
              mission = some mission;
              rr_data = some d;
              failure_summary = some error;
              blocked_reason = if outcome == "blocked" then some error else none;
            };
      actions = Artifact.action "queue_job_failed" ∷ [];
    }

abbrev shutdown_error : String
shutdown_error = "shutdown: daemon shutdown requested"

abbrev shutdown_payload : String → Value
shutdown_payload signal = object (
    field "reason" (text "shutdown")
      (field "message" (text "daemon shutdown requested") (field "signal" (text signal) end)))

unfoldable pub finalize_moved : Env → Host → Job → Option FilePath → M Bool
finalize_moved env host job none = ret false
finalize_moved env host job (some t) = do
  failed_sidecar env t shutdown_error
      (some (put "shutdown" (shutdown_payload (or_else host.signal "UNKNOWN")) job.payload))
  set_state env t (record (state_only "step_failed" (some "failed")) {
    payload = some job.payload;
    failure_summary = some shutdown_error;
  })
  count_failed
  note t (Artifact.action "queue_job_failed")
  prune host.prune
  ret false

-- `_finalize_job_shutdown_failure`, and the answer after it
unfoldable pub finalize_job_shutdown_failure : Env → Host → Job → M Bool
unfolding finalize_moved
finalize_job_shutdown_failure env host job = do
  moved ← move env job.path failed
  finalize_moved env host job moved

unfoldable pub wait_moved :
    Env → Job → MissionTemplate → RunResult → Fields → Option FilePath → M Bool
wait_moved env job mission rr d none = ret false
wait_moved env job mission rr d (some t) = do
  write_pending_artifacts env t job.payload mission d
  note t (Artifact.execution_result d "awaiting_approval" rr.error)
  set_state env t (record (state_only "awaiting_approval" none) {
    payload = some job.payload;
    mission = some mission;
    rr_data = some d;
    approval_status = some "pending";
  })
  note t (Artifact.action "queue_job_pending_approval")
  ret false

-- The mission waits at a step for an approval.
unfoldable pub wait_job : Env → Job → MissionTemplate → RunResult → Fields → M Bool
unfolding wait_moved
wait_job env job mission rr d = do
  moved ← move env job.path pending
  wait_moved env job mission rr d moved

-- The children that a job has enqueued.
count_children : String → List (String × Artifact) → ℕ
count_children s [] = 0
count_children s ((t, Artifact.child_ref d) ∷ as') =
    let rest = count_children s as' in if t == s then suc rest else rest
count_children s ((t, _) ∷ as') = count_children s as'

-- `_enqueue_child_job_from_parent`: the child in the inbox, and the reference to it.
unfoldable pub enqueue_child_job_from_parent : Env → Host → Job → ChildRequest → M Fields
unfolding count_children
enqueue_child_job_from_parent env host job request q =
    let sequence = suc (count_children (stem job.path.name) q.artifacts) in
    let parent_id = stem job.path.name +s ".json" in
    let lineage =
      put "sequence_index" (nat_value sequence) (compute_child_lineage parent_id job.payload) in
    let child_name = "child-" +s host.child_id +s ".json" in
    let payload =
      field "goal" (text (strip request.goal))
        (field "title" (text (or_text request.title ("Child of " +s parent_id))) lineage) in
    let reference = field "child_job_id" (text child_name) (
      field "parent_job_id" (text parent_id) (
        field "root_job_id" (get "root_job_id" lineage) (
          field "orchestration_depth" (get "orchestration_depth" lineage)
            (field "sequence_index" (nat_value sequence) end)))) in
    let writes : M Fields = (do
      write_file (at inbox child_name) (some (object payload))
      note job.path (Artifact.child_ref reference)
      note job.path (Artifact.action "queue_child_enqueued")
      ret reference) in
    if is_empty (strip request.goal)
    then (raises "ValueError('enqueue_child.goal must be a non-empty string')", q)
    else writes q

abbrev pub child_refs : Option Fields → Fields → Fields
child_refs none d = d
child_refs (some c) d = put "child_refs" (array (cons (object c) nil)) d

-- The state of a job that has a child.
unfoldable pub add_child_state : FilePath → Option Fields → M (Unit {0})
add_child_state job none q = ret tt q
add_child_state job (some c) q =
    write_file (job_state_sidecar_path job q.files)
      (some (object (child_refs (some c) (read_job_state job q.files)))) q

unfoldable pub done_moved :
    Env → Job → MissionTemplate → Fields → Option Fields → Option FilePath → M Bool
unfolding add_child_state
done_moved env job mission d child none = ret false
done_moved env job mission d child (some t) = do
  count_processed
  note t (Artifact.run_streams d)
  set_state env t
      (record (state_only "done"
        (some (or_else (str_or_empty (get "terminal_outcome" d)) "succeeded"))) {
          payload = some job.payload;
          mission = some mission;
          rr_data = some d;
          approval_status = if truthy (get "step_outcomes" d) then some "approved" else none;
        })
  add_child_state t child
  note t (Artifact.action "queue_job_done")
  ret true

abbrev pub enqueued : Env → Host → Job → Option ChildRequest → M (Option Fields)
enqueued env host job none = ret none
enqueued env host job (some request) = do
  reference ← enqueue_child_job_from_parent env host job request
  ret (some reference)

-- The mission is done.
unfoldable pub complete_job : Env → Host → Job → MissionTemplate → Fields → M Bool
unfolding done_moved
complete_job env host job mission d = do
  child ← enqueued env host job job.child
  moved ← move env job.path done
  done_moved env job mission (child_refs child d) child moved
