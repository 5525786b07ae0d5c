-- ===== src/Evaluator/Laws.antt =====
-- When a replan is allowed (src/voxera/core/execution_evaluator.py).
use voxera_os.Base.{String, some, ◌≡◌, ◌==◌, ◌&&◌, arith, Bool-cases, inl, inr}
use voxera_os.Py.{Value}
use voxera_os.Py.Dict.{get}
use voxera_os.Skill.Result.{str_or_empty}
use voxera_os.Models.{RunResult}
use voxera_os.Evaluator.{
  EvaluationResult, is_member, last_step_result, classify_failure, evaluate_run_result,
  replan_allowed_for_class,
}

classify_failure-replan :
    (error_class retryable : Value) (outcome kind : String) (e : EvaluationResult)
    → classify_failure error_class retryable outcome kind ≡ some e
    → e.replan_allowed ≡ ((kind == "goal") && replan_allowed_for_class e.evaluation_class)
unfolding classify_failure is_member
classify_failure-replan error_class retryable outcome kind e h = ground arith

-- Whatever a run returns, a replan is allowed exactly for a goal whose result is of a class that
-- `replan_allowed_for_class` allows.
pub evaluate_run_result-replan :
    (rr : RunResult) (kind : String) (e : EvaluationResult)
    → evaluate_run_result rr kind ≡ some e
    → e.replan_allowed ≡ ((kind == "goal") && replan_allowed_for_class e.evaluation_class)
unfolding evaluate_run_result
evaluate_run_result-replan rr kind e h = elim (Bool-cases rr.ok) [
  | inl ok ↦ ground arith
  | inr bad ↦ elim (Bool-cases (str_or_empty (get "status" rr.result_data) == "pending_approval")) [
    | inl pending ↦ ground arith
    | inr over ↦
        elim (Bool-cases (str_or_empty (get "terminal_outcome" rr.result_data) == "blocked")) [
          | inl blocked ↦ ground arith
          | inr other ↦
              classify_failure-replan (get "error_class" (last_step_result rr.result_data))
                (get "retryable" (last_step_result rr.result_data))
                (str_or_empty (get "terminal_outcome" rr.result_data)) kind e
                (rw (bad, over, other) at h)
        ]
  ]
]
