-- ===== src/Mission/Run.antt =====
-- `MissionRunner.run` (src/voxera/core/missions.py): the loop over the steps. What a run does is a
-- list of effects: those of the skill runner, the mission's events, and the lines of the mission
-- log. The clock gives the start and the end of each step.
pub mod Laws
pub mod Effects
use voxera_os.Base.{
  ℕ, suc, zero, ◌+◌, ◌-◌, max, String, Bool, true, false, Option, none, some, List, [], ◌∷◌, ◌++◌,
  map, ◌&&◌, nat_eq, ltb, length, if◌then◌else◌,
}
use voxera_os.Base.Text.{◌+s◌, starts_with, decimal}
use voxera_os.Py.{
  Value, null, bool, int, text, array, object, Fields, end, field, optional_text, truthy, of_list,
}
use voxera_os.Py.Dict.{get, put, set_default}
use voxera_os.Models.{RunResult, SkillManifest, PolicyApprovals}
use voxera_os.Skill.Report.{Effect, failed_result}
use voxera_os.Skill.Run.{Host, Callback, Exit, finished, escaped, Outcome, run}
use voxera_os.Mission.{
  MissionStep, MissionTemplate, nat_value, step_output, step_outcome, is_blocked, is_pending,
}

-- What a mission runner is built from: the skill runner's registry and host, the policy, the
-- callback, and a clock.
pub record Runner : Type 0 where
  pub registry : String → Option SkillManifest
  pub host : Host
  pub policy : PolicyApprovals
  pub callback : Option Callback
  pub clock : ℕ → ℕ × ℕ

pub data MissionEffect : Type 0 where
  skill : Effect → MissionEffect
  event : String → Fields → MissionEffect
  log_line : String → ℕ → Option ℕ → MissionEffect

pub record MissionOutcome : Type 0 where
  pub exit : Exit
  pub effects : List MissionEffect

unfoldable pub unknown_skill : String → RunResult
unknown_skill id = failed_result ("Unknown skill: " +s id) (
    field "status" (text "failed") (
      field "error_class" (text "skill_not_found") (
        field "retryable" (bool false) (
          field "summary" (text ("Unknown skill: " +s id)) (
            field "next_action_hint" (text "replan_with_known_skill")
              (field "machine_payload" (object (field "missing_skill_id" (text id) end)) end))))))

-- `{"mission": …, "step": …, **context}`
put_all : Fields → Fields → Fields
put_all end d = d
put_all (field k v rest) d = put_all rest (put k v d)

unfoldable pub audit_context : MissionTemplate → ℕ → Fields → Fields
unfolding put_all
audit_context mission idx context =
    put_all context (field "mission" (text mission.id) (field "step" (nat_value idx) end))

-- A `KeyError`, of the registry or of anything under the skill runner, is an unknown skill.
abbrev caught : String → Exit → Exit
caught id (finished rr) = finished rr
caught id (escaped e) = if starts_with e "KeyError(" then finished (unknown_skill id) else escaped e

-- One step, through the skill runner.
unfoldable pub attempt : Runner → MissionTemplate → Fields → ℕ → MissionStep → Outcome
unfolding unknown_skill
attempt r mission context idx ms = elim (r.registry ms.skill_id) [
  | none ↦ record { exit = finished (unknown_skill ms.skill_id); effects = [] }
  | some m ↦
      let o = run r.host m ms.args r.policy r.callback (audit_context mission idx context) in
      record { exit = caught ms.skill_id o.exit; effects = o.effects }
]

-- How a step leaves the loop.
pub data StepEnd : Type 0 where
  pending failed passed : StepEnd

unfoldable pub step_end : RunResult → StepEnd
unfolding is_pending
step_end rr = if is_pending rr then pending else if rr.ok then passed else failed

abbrev objects : List Fields → Value
objects ds = array (of_list (map object ds))

-- The data of a mission that is paused at a step: what the step's data has is kept.
unfoldable pub paused_data : ℕ → ℕ → MissionStep → List Fields → List Fields → Fields → Fields
paused_data total idx ms outputs outcomes d = set_default "total_steps" (nat_value total) (
    set_default "last_attempted_step" (nat_value idx) (
      set_default "last_completed_step" (nat_value (max (idx - 1) 0)) (
        set_default "current_step_index" (nat_value idx) (
          set_default "terminal_outcome" null (
            set_default "lifecycle_state" (text "awaiting_approval") (
              set_default "step_outcomes" (objects outcomes) (
                set_default "skill" (text ms.skill_id) (
                  set_default "step" (nat_value idx)
                    (set_default "results" (objects outputs) d)))))))))

-- The data of a mission that ends, done or at a failed step.
unfoldable pub end_data : List Fields → List Fields → String → String → ℕ → ℕ → ℕ → ℕ → Fields
end_data outputs outcomes state outcome current completed attempted total =
    field "results" (objects outputs) (
      field "step_outcomes" (objects outcomes) (
        field "lifecycle_state" (text state) (
          field "terminal_outcome" (text outcome) (
            field "current_step_index" (nat_value current) (
              field "last_completed_step" (nat_value completed) (
                field "last_attempted_step" (nat_value attempted)
                  (field "total_steps" (nat_value total) end)))))))

-- `f"{rr.error}"`
abbrev error_str : Option String → String
error_str none = "None"
error_str (some e) = e

unfoldable pub paused_result :
    ℕ → ℕ → MissionStep → List Fields → List Fields → RunResult → RunResult
unfolding paused_data
paused_result total idx ms outputs outcomes rr =
    failed_result "Mission paused for approval."
      (paused_data total idx ms outputs outcomes rr.result_data)

unfoldable pub failed_mission :
    ℕ → ℕ → MissionStep → List Fields → List Fields → RunResult → RunResult
unfolding end_data
failed_mission total idx ms outputs outcomes rr =
    failed_result
      ("Mission failed at step "
        +s decimal idx
        +s " ("
        +s ms.skill_id
        +s "): "
        +s error_str rr.error)
      (end_data outputs outcomes (if is_blocked rr then "blocked" else "step_failed")
        (if is_blocked rr then "blocked" else "failed") idx (max (idx - 1) 0) idx total)

unfoldable pub completed_mission : MissionTemplate → List Fields → List Fields → RunResult
unfolding end_data
completed_mission mission outputs outcomes =
    let total = length mission.steps in
    record {
      ok = true;
      output = "Mission completed: " +s mission.title;
      result_data = end_data outputs outcomes "done" "succeeded" total total total total;
      error = none;
    }

abbrev step_event : String → MissionTemplate → ℕ → String → Value → MissionEffect
step_event name mission idx key v =
    event name (field "mission" (text mission.id) (field "step" (nat_value idx) (field key v end)))

abbrev preceded : List MissionEffect → MissionOutcome → MissionOutcome
preceded before o = record { exit = o.exit; effects = before ++ o.effects }

-- The loop from the step `idx` on, with the results and the outcomes so far.
unfoldable pub run_from :
    Runner
    → MissionTemplate
    → Fields
    → ℕ
    → ℕ
    → List MissionStep
    → List Fields
    → List Fields
    → MissionOutcome
run_from r mission context start idx [] outputs outcomes = record {
  exit = finished (completed_mission mission outputs outcomes);
  effects =
      event "mission_done"
        (field "mission" (text mission.id) (field "steps" (nat_value (length mission.steps)) end))
      ∷ log_line "ok" (length outputs) none
      ∷ [];
}
run_from r mission context start idx (ms ∷ rest) outputs outcomes = elim (ltb idx start) [
  | true ↦ run_from r mission context start (suc idx) rest outputs outcomes
  | false ↦
      let o = attempt r mission context idx ms in
      elim o.exit [
        | escaped e ↦ record { exit = escaped e; effects = map skill o.effects }
        | finished rr ↦
            let resumed = truthy (get "approval_resumed" context) && nat_eq idx start in
            let outputs' = outputs ++ step_output idx ms (r.clock idx) rr ∷ [] in
            let outcomes' = outcomes ++ step_outcome idx ms resumed rr ∷ [] in
            elim (step_end rr) [
              | pending ↦ record {
                exit = finished (paused_result (length mission.steps) idx ms outputs' outcomes' rr);
                effects =
                    map skill o.effects
                    ++ step_event "mission_pending_approval" mission idx "skill" (text ms.skill_id)
                      ∷ log_line "pending_approval" (length outputs') (some idx)
                      ∷ [];
              }
              | failed ↦ record {
                exit =
                    finished (failed_mission (length mission.steps) idx ms outputs' outcomes' rr);
                effects =
                    map skill o.effects
                    ++ step_event "mission_error" mission idx "error" (optional_text rr.error)
                      ∷ log_line "failed" (length outputs') none
                      ∷ [];
              }
              | passed ↦
                  preceded (map skill o.effects)
                    (run_from r mission context start (suc idx) rest outputs' outcomes')
            ]
      ]
]

-- `MissionRunner.run`
unfoldable pub run_mission : Runner → MissionTemplate → ℕ → Fields → MissionOutcome
unfolding run_from
run_mission r mission start context =
    preceded
      (event "mission_start" (
          field "mission" (text mission.id) (
            field "steps" (nat_value (length mission.steps))
              (field "start_step" (nat_value start) end)))
        ∷ [])
      (run_from r mission context start 1 mission.steps [] [])
