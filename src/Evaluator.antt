-- ===== src/Evaluator.antt =====
-- src/voxera/core/execution_evaluator.py: the class of a run's result, and whether a replan is
-- allowed.
pub mod Laws
use voxera_os.Base.{
  String, Bool, true, false, Option, none, some, List, [], ◌∷◌, ◌==◌, ◌||◌, contains, if◌then◌else◌,
}
use voxera_os.Base.Text.{or_else}
use voxera_os.Py.{Value, null, bool, text, array, object, Items, nil, cons, Fields, end}
use voxera_os.Py.Dict.{get}
use voxera_os.Py.Str.{py_str}
use voxera_os.Models.{RunResult}
use voxera_os.Skill.Result.{str_or_empty}

pub data EvaluationClass : Type 0 where
  succeeded awaiting_approval blocked_non_retryable invalid_input_non_retryable : EvaluationClass
  retryable_failure replannable_mismatch terminal_failure : EvaluationClass

pub record EvaluationResult : Type 0 where
  pub evaluation_class : EvaluationClass
  pub reason : String
  pub replan_allowed : Bool

abbrev pub replannable_error_classes : List String
replannable_error_classes = "planner_skill_mismatch" ∷ "skill_not_found" ∷ "arg_shape_mismatch" ∷ []

abbrev pub invalid_input_error_classes : List String
invalid_input_error_classes =
    "invalid_input" ∷ "validation_error" ∷ "argument_validation_error" ∷ []

-- The last dictionary of a list, or the one given.
abbrev last_object : Fields → Items → Fields
last_object d nil = d
last_object d (cons (object e) vs) = last_object e vs
last_object d (cons _ vs) = last_object d vs

unfoldable pub last_step_result : Fields → Fields
last_step_result data' = elim (get "results" data') [ array vs ↦ last_object end vs | _ ↦ end ]

-- `v in texts`, where `none` is the `TypeError` of a list or a dictionary
unfoldable pub is_member : Value → List String → Option Bool
is_member (text s) ss = some (contains s ss)
is_member (array _) ss = none
is_member (object _) ss = none
is_member _ ss = some false

abbrev is_true : Value → Bool
is_true (bool b) = b
is_true _ = false

abbrev evaluation : EvaluationClass → String → Bool → EvaluationResult
evaluation c r b = record { evaluation_class = c; reason = r; replan_allowed = b }

-- A failure at a step that was neither paused nor blocked, from the last result's error class and
-- its `retryable`, the terminal outcome and the request's kind.
classify_failure : Value → Value → String → String → Option EvaluationResult
unfolding is_member
classify_failure error_class retryable outcome kind =
    elim (is_member error_class replannable_error_classes) [
      | none ↦ none
      | some true ↦
          some
            (evaluation EvaluationClass.replannable_mismatch (py_str error_class) (kind == "goal"))
      | some false ↦
          if is_true retryable
          then some (
              evaluation EvaluationClass.retryable_failure "step_marked_retryable" (kind == "goal"))
          else elim (is_member error_class invalid_input_error_classes) [
            | none ↦ none
            | some true ↦
                some (
                  evaluation EvaluationClass.invalid_input_non_retryable (py_str error_class) false)
            | some false ↦ some (
                evaluation EvaluationClass.terminal_failure (or_else outcome "mission_failed")
                  false)
          ]
    ]

-- `none` is a `TypeError`.
unfoldable pub evaluate_run_result : RunResult → String → Option EvaluationResult
unfolding classify_failure last_step_result
evaluate_run_result rr kind =
    if rr.ok
    then some (evaluation EvaluationClass.succeeded "mission_completed" false)
    else if str_or_empty (get "status" rr.result_data) == "pending_approval"
    then some (evaluation EvaluationClass.awaiting_approval "approval_required" false)
    else if str_or_empty (get "terminal_outcome" rr.result_data) == "blocked"
    then some
        (evaluation EvaluationClass.blocked_non_retryable "policy_or_runtime_boundary_block" false)
    else let last = last_step_result rr.result_data in
      classify_failure (get "error_class" last) (get "retryable" last)
        (str_or_empty (get "terminal_outcome" rr.result_data)) kind

abbrev pub replan_allowed_for_class : EvaluationClass → Bool
replan_allowed_for_class EvaluationClass.retryable_failure = true
replan_allowed_for_class EvaluationClass.replannable_mismatch = true
replan_allowed_for_class _ = false
