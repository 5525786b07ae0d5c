-- ===== src/Examples/Mission.antt =====
-- Missions of sample skills, run and evaluated.
use voxera_os.Base.{
  String, true, false, Option, none, some, [], ◌∷◌, ◌≡◌, refl, ◌==◌, ◌&&◌, if◌then◌else◌,
}
use voxera_os.Py.{Fields, end, field, array, cons, nil, object, bool, null}
use voxera_os.Models.{
  SkillManifest, PolicyApprovals, PlanSimulation, RunResult, Verdict, default_policy,
}
use voxera_os.Base.Text.{strip, sorted, distinct}
use voxera_os.Py.{truthy}
use voxera_os.Py.Dict.{get, find}
use voxera_os.Capability.{
  capability_semantic, capability_effect_class, manifest_capability_semantics,
}
use voxera_os.Declaration.{normalize_manifest_capabilities, as_dict}
use voxera_os.Policy.{decide, decide_capabilities, capability_verdict}
use voxera_os.Skill.Args.{Canonical, done, raised, canonicalize_args}
use voxera_os.Skill.Enforce.{
  network_boundary_violation, unknown_capabilities, effects_of, enforce_boundary, Enforcement,
  enforce_runtime_capabilities,
}
use voxera_os.Skill.Report.{denied_result}
use voxera_os.Skill.Run.{simulate, finished, run, run_enforced}
use voxera_os.Evaluator.{
  is_member, last_step_result, EvaluationClass, EvaluationResult, evaluate_run_result,
}
use voxera_os.Evaluator.Laws.{evaluate_run_result-replan}
use voxera_os.Mission.{is_pending, MissionStep, MissionTemplate}
use voxera_os.Mission.Run.{Runner, attempt, run_mission, step_end}
use voxera_os.Mission.Simulate.{no_steps, plan_of, simulate_mission}
use voxera_os.Mission.Simulate.Laws.{IsPlan, simulate_mission-IsPlan}
use voxera_os.Mission.Run.Laws.{failed_at, ending, Reports, run_mission-Reports, denied_mission}
use voxera_os.Mission.Run.Effects.{skill_effects, due_effects, skill_effects-run_mission}
use voxera_os.Examples.Samples.{open_url_skill, write_skill, note_args}
use voxera_os.Examples.Skills.{sample_host}

abbrev offline_policy : PolicyApprovals
offline_policy = record default_policy { network_changes = Verdict.deny }

abbrev sample_registry : String → Option SkillManifest
sample_registry id =
    if id == open_url_skill.id
    then some open_url_skill
    else if id == write_skill.id
    then some write_skill
    else none

abbrev sample_runner : Runner
sample_runner = record {
  registry = sample_registry;
  host = sample_host;
  policy = offline_policy;
  callback = none;
  clock = λ idx. (idx, idx);
}

abbrev step_of : SkillManifest → Fields → MissionStep
step_of m args = record { skill_id = m.id; args = args }

-- A note, a page that the policy denies, and another note.
abbrev sample_mission : MissionTemplate
sample_mission = record {
  id = "sample";
  title = "Sample";
  goal = "Write a note";
  steps =
      step_of write_skill note_args
      ∷ step_of open_url_skill end
      ∷ step_of write_skill note_args
      ∷ [];
}

abbrev denial : Enforcement
denial = enforce_runtime_capabilities open_url_skill offline_policy end

denial_denied : denial.denied ≡ true
unfolding enforce_runtime_capabilities enforce_boundary decide decide_capabilities
    capability_verdict capability_semantic capability_effect_class manifest_capability_semantics
    normalize_manifest_capabilities as_dict network_boundary_violation unknown_capabilities
    effects_of strip sorted distinct get find truthy
denial_denied = refl

denied_attempt :
    (attempt sample_runner sample_mission end 2 (step_of open_url_skill end)).exit
    ≡ finished (denied_result denial)
unfolding attempt run run_enforced canonicalize_args
denied_attempt = rw denial_denied refl

-- The run starts at the second step.
denied_ending :
    ending sample_runner sample_mission end 2 1 sample_mission.steps
    ≡ failed_at 2 (denied_result denial)
unfolding ending step_end is_pending denied_result get find
denied_ending = rw (ending, denied_attempt) refl

run_mission-Reports_example :
    Reports 3 "goal"
      (ending sample_runner sample_mission end 2 1 sample_mission.steps)
      (run_mission sample_runner sample_mission 2 end).exit
run_mission-Reports_example = run_mission-Reports sample_runner sample_mission 2 end "goal"

skill_effects-run_mission_example :
    skill_effects (run_mission sample_runner sample_mission 2 end).effects
    ≡ due_effects sample_runner sample_mission end 2 1 sample_mission.steps
skill_effects-run_mission_example = skill_effects-run_mission sample_runner sample_mission 2 end

denied_mission_example :
    (rr : RunResult) × ((run_mission sample_runner sample_mission 2 end).exit ≡ finished rr)
    × (evaluate_run_result rr "goal"
        ≡ some (record {
          evaluation_class = EvaluationClass.blocked_non_retryable;
          reason = "policy_or_runtime_boundary_block";
          replan_allowed = false;
        }))
denied_mission_example =
    denied_mission sample_runner sample_mission 2 end "goal" 2 denial denied_ending

-- Failed at a step that says it can be retried.
abbrev retryable_run : RunResult
retryable_run = record {
  ok = false;
  output = "";
  result_data =
      field "results" (array (cons (object (field "retryable" (bool true) end)) (cons null nil)))
        end;
  error = some "Mission failed";
}

abbrev retryable_evaluation : EvaluationResult
retryable_evaluation = record {
  evaluation_class = EvaluationClass.retryable_failure;
  reason = "step_marked_retryable";
  replan_allowed = true;
}

retryable_evaluated : evaluate_run_result retryable_run "goal" ≡ some retryable_evaluation
unfolding evaluate_run_result last_step_result is_member get find truthy
retryable_evaluated = refl

evaluate_run_result-replan_example : true ≡ (("goal" == "goal") && true)
evaluate_run_result-replan_example =
    evaluate_run_result-replan retryable_run "goal" retryable_evaluation retryable_evaluated

abbrev done_or : PlanSimulation → Canonical PlanSimulation → PlanSimulation
done_or p (done q) = q
done_or p (raised e) = p

-- A mission that writes two notes.
abbrev note_mission : MissionTemplate
note_mission = record sample_mission {
  steps = step_of write_skill note_args ∷ step_of write_skill note_args ∷ [];
}

abbrev note_plan : PlanSimulation
note_plan =
    done_or (plan_of note_mission none no_steps) (simulate_mission sample_runner note_mission none)

note_planned : simulate_mission sample_runner note_mission none ≡ done note_plan
unfolding simulate_mission simulate canonicalize_args
note_planned = refl

simulate_mission-IsPlan_example : IsPlan sample_runner note_mission note_plan
simulate_mission-IsPlan_example =
    simulate_mission-IsPlan sample_runner note_mission none note_plan note_planned
