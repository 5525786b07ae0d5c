-- ===== src/Skill/Run.antt =====
-- `SkillRunner` of src/voxera/skills/runner.py. A run returns how it ended and what it did on the
-- way, in order: the audit events that it logged and the calls of the skill. What executes a skill
-- (src/voxera/skills/execution.py, the entry points, the clock) is the argument `Host`.
pub mod Gate
use voxera_os.Base.{
  ℕ, String, Bool, true, false, Option, none, some, List, [], ◌∷◌, ◌++◌, ◌==◌, nat_eq, length,
  if◌then◌else◌,
}
use voxera_os.Base.Text.{◌+s◌, sorted}
use voxera_os.Py.{
  Value, null, bool, int, text, object, Fields, end, field, texts, optional_text, truthy,
}
use voxera_os.Py.Dict.{get, put}
use voxera_os.Models.{
  Verdict, allow, ask, deny, PolicyApprovals, SkillManifest, PlanStep, PlanSimulation, RunResult,
  ExecMode,
}
use voxera_os.Policy.{PolicyDecision, decide, verdict_name, is_deny}
use voxera_os.Skill.Args.{FloatRead, Canonical, done, raised, canonicalize_args}
use voxera_os.Skill.Result.{SkillResult, result_of, build_skill_result}
use voxera_os.Skill.Report.{
  Effect, audit, invoke, failed_result, required, runner_name, denied_event, denied_result,
  pending_result, rejected_result,
}
use voxera_os.Skill.Enforce.{Enforcement, is_ask, enforce_runtime_capabilities}

-- What a call of the skill gives: a result, or an exception with its `repr`.
pub data Reply : Type 0 where
  returned : RunResult → Reply
  threw : String → Reply

-- How a call of the runner ends: with a result, or with an exception that leaves it.
pub data Exit : Type 0 where
  finished : RunResult → Exit
  escaped : String → Exit

pub record Host : Type 0 where
  pub read_float : String → FloatRead
  pub load_entrypoint : SkillManifest → Option String
  pub execute : SkillManifest → Fields → String → Reply
  pub sanitize : Fields → Value
  pub job_id : String

-- `require_approval_cb(manifest, decision, audit_context=…, args=…)`, where `none` is a `TypeError`,
-- and the two-argument call that follows one.
pub record Callback : Type 0 where
  pub full : SkillManifest → PolicyDecision → Fields → Fields → Option Value
  pub short : SkillManifest → PolicyDecision → Value

pub record Outcome : Type 0 where
  pub exit : Exit
  pub effects : List Effect

-- An event of the mission, if the audit context names one.
mission_event : String → Fields → SkillManifest → Enforcement → List Effect
mission_event name context m e =
    if truthy (get "mission" context)
    then audit name (
        field "mission" (get "mission" context) (
          field "step" (get "step" context)
            (field "skill" (text m.id) (field "reason" (text e.reason) end))))
      ∷ []
    else []

-- From `registry.load_entrypoint` on: the skill is loaded and called.
execute_skill : Host → SkillManifest → Fields → Enforcement → Outcome
execute_skill host m args e = elim (host.load_entrypoint m) [
  | some exception ↦ record { exit = escaped exception; effects = [] }
  | none ↦
      let start = audit "skill_start" (
        field "skill" (text m.id) (
          field "args" (host.sanitize args) (
            field "reason" (text e.reason) (
              field "runner" (text (runner_name m.exec_mode)) (
                field "job_id" (text host.job_id)
                  (required e (field "execution_capabilities" (object e.declaration) end))))))) in
      elim (host.execute m args host.job_id) [
        | returned rr ↦ record {
          exit = finished rr;
          effects =
              start
              ∷ invoke m.id args
              ∷ audit "skill_done" (
                  field "skill" (text m.id) (
                    field "ok" (bool rr.ok) (
                      field "error" (optional_text rr.error) (
                        field "runner" (text (runner_name m.exec_mode)) (
                          field "job_id" (text host.job_id)
                            (field "artifacts_dir" (get "artifacts_dir" rr.result_data) end))))))
              ∷ [];
        }
        | threw exception ↦ record {
          exit = finished (failed_result exception end);
          effects =
              start
              ∷ invoke m.id args
              ∷ audit "skill_error" (
                  field "skill" (text m.id) (
                    field "error" (text exception) (
                      field "runner" (text (runner_name m.exec_mode))
                        (field "job_id" (text host.job_id) end))))
              ∷ [];
        }
      ]
]

abbrev preceded : List Effect → Outcome → Outcome
preceded before o = record { exit = o.exit; effects = before ++ o.effects }

-- `isinstance(approved, dict) and approved.get("status") == "pending"`
abbrev pub pending_answer : Value → Option Fields
pending_answer (object d) = elim (get "status" d) [
  | text s ↦ if s == "pending" then some d else none
  | _ ↦ none
]
pending_answer _ = none

-- What follows the answer of the callback.
unfoldable pub run_answered : Host → SkillManifest → Fields → Fields → Enforcement → Value → Outcome
unfolding execute_skill mission_event
run_answered host m args context e approved = elim (pending_answer approved) [
  | some d ↦ record {
    exit = finished (pending_result m e d);
    effects =
        audit "skill_pending_approval"
          (field "skill" (text m.id) (field "reason" (text e.reason) end))
        ∷ [];
  }
  | none ↦
      if truthy approved
      then preceded (mission_event "mission_approved" context m e) (execute_skill host m args e)
      else record {
        exit = finished (rejected_result e);
        effects =
            mission_event "mission_denied" context m e
            ++ audit "skill_rejected"
                (field "skill" (text m.id) (field "reason" (text e.reason) end))
              ∷ [];
      }
]

-- The callback, with the second form of its call after a `TypeError`.
unfoldable pub ask_callback : Callback → SkillManifest → PolicyDecision → Fields → Fields → Value
ask_callback cb m d context args = elim (cb.full m d context args) [
  | some answer ↦ answer
  | none ↦ cb.short m d
]

unfoldable pub run_enforced :
    Host
    → SkillManifest
    → Fields
    → PolicyApprovals
    → Option Callback
    → Fields
    → Enforcement
    → Outcome
unfolding denied_event execute_skill
run_enforced host m args policy none context e =
    if e.denied
    then record { exit = finished (denied_result e); effects = denied_event m e ∷ [] }
    else execute_skill host m args e
run_enforced host m args policy (some cb) context e =
    if e.denied
    then record { exit = finished (denied_result e); effects = denied_event m e ∷ [] }
    else if e.needs_approval
    then run_answered host m args context e (ask_callback cb m (decide m policy args) context args)
    else execute_skill host m args e

-- `SkillRunner.run`
unfoldable pub run :
    Host → SkillManifest → Fields → PolicyApprovals → Option Callback → Fields → Outcome
run host m args policy cb context = elim (canonicalize_args host.read_float m.id args) [
  | raised exception ↦ record { exit = escaped exception; effects = [] }
  | done a ↦ run_enforced host m a policy cb context (enforce_runtime_capabilities m policy a)
]

abbrev first_sorted : List String → Option String
first_sorted caps = elim (sorted caps) [ [] ↦ none | c ∷ cs ↦ some c ]

abbrev summary_of : Verdict → String
summary_of deny = "Blocked by policy"
summary_of ask = "Approval required before execution"
summary_of allow = "Safe to execute"

-- `SkillRunner.simulate`, for canonical arguments and then whole
unfoldable pub simulate_canonical : SkillManifest → Fields → PolicyApprovals → PlanSimulation
simulate_canonical m args policy =
    let d = decide m policy args in
    record {
      title = "Dry-run: " +s m.name;
      goal = m.description;
      steps =
          record {
            action = "Run skill";
            skill_id = some m.id;
            args = args;
            requires_approval = is_ask d.decision;
            capability = first_sorted m.capabilities;
            risk = m.risk;
            policy_decision = some d.decision;
            reason = some d.reason;
          }
          ∷ [];
      approvals_required = if is_ask d.decision then 1 else 0;
      blocked = is_deny d.decision;
      summary = summary_of d.decision;
      capabilities_snapshot = end;
      capabilities_used = [];
    }

unfoldable pub simulate :
    (String → FloatRead) → SkillManifest → Fields → PolicyApprovals → Canonical PlanSimulation
unfolding simulate_canonical
simulate read_float m args policy = elim (canonicalize_args read_float m.id args) [
  | raised exception ↦ raised exception
  | done a ↦ done (simulate_canonical m a policy)
]
