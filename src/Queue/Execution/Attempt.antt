-- ===== src/Queue/Execution/Attempt.antt =====
-- One turn of the loop (src/voxera/core/queue_execution.py): a plan, the check of its first step
-- against the request, the run and its evaluation, and whether another plan may be tried.
use voxera_os.Base.{
  suc, String, Bool, true, false, not, Option, none, some, List, [], ◌∷◌, ◌==◌, ◌&&◌, ◌||◌, ◌⊎◌,
  inl, inr, contains, length, ltb, if◌then◌else◌,
}
use voxera_os.Base.Text.{◌+s◌, strip, lower, has_substring, sorted}
use voxera_os.Py.{Value, text, object, Fields, end, field, texts}
use voxera_os.Py.Dict.{get, set_default}
use voxera_os.Py.Str.{repr}
use voxera_os.Models.{RunResult}
use voxera_os.Mission.{MissionStep, MissionTemplate}
use voxera_os.Evaluator.{
  EvaluationClass, EvaluationResult, evaluate_run_result, replan_allowed_for_class,
}
use voxera_os.Automation.{Raising, value, raises}
use voxera_os.Queue.State.{nat_value}
use voxera_os.Queue.Requests.{extract_lineage_metadata}
use voxera_os.Queue.Lifecycle.{Env, Artifact, state_only}
use voxera_os.Queue.Steps.{M, ◌>>=◌, ◌>>◌, ret, set_state, note}
use voxera_os.Queue.Execution.Host.{PlanError, Intent, Host, Job, Progress, Next, again, finished}
use voxera_os.Queue.Execution.Endings.{
  fail_job, planning_failure, mismatch_failure, run_failure, finalize_job_shutdown_failure,
  wait_job, complete_job,
}

pub record PlanningClass : Type 0 where
  pub evaluation_class : String
  pub reason : String
  pub replannable : Bool

abbrev planning_class : String → String → Bool → PlanningClass
planning_class c r b = record { evaluation_class = c; reason = r; replannable = b }

-- `_planning_error_metadata`
unfoldable pub planning_error_metadata : String → PlanningClass
planning_error_metadata message =
    let lowered = lower (strip message) in
    if has_substring "planner referenced unknown skill" lowered
      || has_substring "unknown skill" lowered
    then planning_class "replannable_mismatch" "skill_not_found" true
    else if has_substring "without a valid skill_id" lowered
    then planning_class "replannable_mismatch" "planner_skill_mismatch" true
    else if has_substring "args" lowered && has_substring "invalid" lowered
    then planning_class "replannable_mismatch" "arg_shape_mismatch" true
    else planning_class "terminal_failure" "planning_failure" false

abbrev pub replanned : Progress → Option MissionTemplate → Progress
replanned p previous = record p { replans = suc p.replans; previous = previous }

-- The loop goes on with another attempt.
unfoldable pub replan : Job → Progress → Option MissionTemplate → M Next
replan job p previous = do
  note job.path (Artifact.action "queue_job_replanned")
  ret (again (replanned p previous))

unfoldable pub ending : M Bool → M Next
ending m = do answer ← m; ret (finished answer)

-- `should_replan` of a plan that could not be made
unfoldable pub may_replan_planning : Host → Job → Progress → PlanningClass → Bool
may_replan_planning host job p c =
    c.replannable
    && (job.kind == "goal")
    && ltb p.replans host.max_replans
    && contains c.evaluation_class ("retryable_failure" ∷ "replannable_mismatch" ∷ [])

unfoldable pub planning_next : Env → Host → Job → Progress → PlanError → M Next
unfolding may_replan_planning
planning_next env host job p e =
    let c = planning_error_metadata e.message in
    if may_replan_planning host job p c
    then replan job p p.previous
    else ending (
        fail_job env host job.path
          (planning_failure host job p e.shown c.evaluation_class c.reason))

-- No plan could be made.
unfoldable pub planning_failed : Env → Host → Job → Progress → PlanError → M Next
planning_failed env host job p e = do
  let c = planning_error_metadata e.message
  note job.path (Artifact.planning_failure p.attempts p.replans c.evaluation_class c.reason e.shown)
  planning_next env host job p e

abbrev pub no_skills : List String → Bool
no_skills [] = true
no_skills (s ∷ ss) = false

-- `check_skill_family_mismatch`
unfoldable pub check_skill_family_mismatch : Intent → String → Bool
check_skill_family_mismatch intent skill =
    intent.deterministic
    && intent.fail_closed
    && not (intent.kind == "unknown_or_ambiguous")
    && not (no_skills intent.allowed_skill_ids)
    && not (contains skill intent.allowed_skill_ids)

abbrev pub first_skill : List MissionStep → Option String
first_skill [] = none
first_skill (s ∷ ss) = some s.skill_id

abbrev pub mismatching : Intent → Option String → Option (Intent × String)
mismatching i none = none
mismatching i (some skill) = if check_skill_family_mismatch i skill then some (i, skill) else none

-- The intent of the request with the first skill of the plan, where the two do not fit.
unfoldable pub mismatch : Option Intent → MissionTemplate → Option (Intent × String)
mismatch none mission = none
mismatch (some i) mission = mismatching i (first_skill mission.steps)

unfoldable pub mismatch_error : Intent → String → String
mismatch_error i skill =
    "planner_intent_route_rejected: simple intent '"
    +s i.kind
    +s "' (allowed: "
    +s repr (texts (sorted i.allowed_skill_ids))
    +s ") but planner produced first step '"
    +s skill
    +s "'"

abbrev pub rejection : Env → Host → Job → Progress → MissionTemplate → Intent → String → M Bool
rejection env host job p mission i skill =
    fail_job env host job.path
      (mismatch_failure host job p mission (mismatch_error i skill) (host.sanitize_route i.as_dict))

abbrev pub plan_rejected : Env → Host → Job → Progress → MissionTemplate → Intent → String → M Next
plan_rejected env host job p mission i skill = do
  note job.path (Artifact.action "queue_simple_intent_mismatch")
  ending (rejection env host job p mission i skill)

unfoldable pub reject_plan :
    Env → Host → Job → Progress → MissionTemplate → Intent → String → M Next
reject_plan env host job p mission i skill = do
  note job.path (Artifact.intent_mismatch p.attempts p.replans skill)
  plan_rejected env host job p mission i skill

abbrev class_name : EvaluationClass → String
class_name EvaluationClass.succeeded = "succeeded"
class_name EvaluationClass.awaiting_approval = "awaiting_approval"
class_name EvaluationClass.blocked_non_retryable = "blocked_non_retryable"
class_name EvaluationClass.invalid_input_non_retryable = "invalid_input_non_retryable"
class_name EvaluationClass.retryable_failure = "retryable_failure"
class_name EvaluationClass.replannable_mismatch = "replannable_mismatch"
class_name EvaluationClass.terminal_failure = "terminal_failure"

abbrev default_object : String → Option Fields → Fields → Fields
default_object k none d = d
default_object k (some v) d = set_default k (object v) d

abbrev intent_route : Host → Option Intent → Option Fields
intent_route host none = none
intent_route host (some i) = some (host.sanitize_route i.as_dict)

-- The run's data, with what the loop adds.
unfoldable pub attempt_data : Host → Job → Progress → EvaluationResult → Fields → Fields
attempt_data host job p e d = default_object "intent_route" (intent_route host job.intent) (
    default_object "lineage" (extract_lineage_metadata job.payload) (
      set_default "evaluation_reason" (text e.reason) (
        set_default "evaluation_class" (text (class_name e.evaluation_class)) (
          set_default "max_replans" (nat_value host.max_replans) (
            set_default "replan_count" (nat_value p.replans)
              (set_default "attempt_index" (nat_value p.attempts) d))))))

-- `should_replan` of a run
unfoldable pub may_replan_run : Host → Progress → EvaluationResult → Bool
may_replan_run host p e =
    e.replan_allowed
    && replan_allowed_for_class e.evaluation_class
    && ltb p.replans host.max_replans

abbrev stopped : String → Fields → Fields
stopped reason = set_default "stop_reason" (text reason)

abbrev pub waits : Value → Bool
waits (text s) = s == "pending_approval"
waits _ = false

-- How a run that is not followed by another ends the job.
unfoldable pub end_run : Env → Host → Job → MissionTemplate → RunResult → Fields → M Bool
end_run env host job mission rr d =
    if waits (get "status" d)
    then wait_job env job mission rr (stopped "awaiting_approval" d)
    else if not rr.ok
    then fail_job env host job.path (run_failure job mission rr (stopped "terminal_failure" d))
    else complete_job env host job mission (stopped "succeeded" d)

-- What follows an evaluated run.
unfoldable pub after_run :
    Env → Host → Job → Progress → MissionTemplate → RunResult → EvaluationResult → M Next
unfolding attempt_data may_replan_run
after_run env host job p mission rr e =
    if may_replan_run host p e
    then replan job p (some mission)
    else ending (end_run env host job mission rr (attempt_data host job p e rr.result_data))

abbrev pub evaluated :
    Env → Host → Job → Progress → MissionTemplate → RunResult → Option EvaluationResult → M Next
evaluated env host job p mission rr none q = (raises "TypeError()", q)
evaluated env host job p mission rr (some e) q = after_run env host job p mission rr e q

-- The run's result, or its exception, which leaves the loop.
unfoldable pub run_ended :
    Env → Host → Job → Progress → MissionTemplate → Raising RunResult → M Next
run_ended env host job p mission (raises e) = λ q. (raises e, q)
run_ended env host job p mission (value rr) =
    if host.shutdown_after p.attempts
    then ending (finalize_job_shutdown_failure env host job)
    else evaluated env host job p mission rr (evaluate_run_result rr job.kind)

unfoldable pub give_to_runner : MissionTemplate → M (Unit {0})
give_to_runner mission q = (value tt, record q { runs = mission ∷ q.runs })

abbrev pub run_given : Env → Host → Job → Progress → MissionTemplate → M Next
run_given env host job p mission = do
  give_to_runner mission
  run_ended env host job p mission (host.run p.attempts mission)

abbrev pub start_run : Env → Host → Job → Progress → MissionTemplate → M Next
start_run env host job p mission = do
  set_state env job.path (record (state_only "running" none) {
    payload = some job.payload;
    mission = some mission;
    rr_data = some (field "total_steps" (nat_value (length mission.steps)) end);
  })
  run_given env host job p mission

-- The plan is written down and run.
unfoldable pub run_plan : Env → Host → Job → Progress → MissionTemplate → M Next
run_plan env host job p mission = do
  note job.path (Artifact.plan p.attempts p.replans mission)
  start_run env host job p mission

abbrev pub checked :
    Env → Host → Job → Progress → MissionTemplate → Option (Intent × String) → M Next
checked env host job p mission none = run_plan env host job p mission
checked env host job p mission (some (i, skill)) = reject_plan env host job p mission i skill

abbrev pub planned : Env → Host → Job → Progress → MissionTemplate ⊎ PlanError → M Next
planned env host job p (inr e) = planning_failed env host job p e
planned env host job p (inl mission) = checked env host job p mission (mismatch job.intent mission)

-- The body of the loop.
unfoldable pub attempt : Env → Host → Job → Progress → M Next
attempt env host job p =
    let p' = record p { attempts = suc p.attempts } in
    planned env host job p' (host.build_mission p'.attempts job.payload)
