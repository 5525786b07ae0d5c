-- ===== src/Examples/Contracts.antt =====
-- The results of steps and the artifacts of a job on concrete inputs
-- (src/voxera/core/queue_contracts.py).
use voxera_os.Base.{String, Bool, [], ◌∷◌, ◌≡◌, refl, ◌==◌}
use voxera_os.Base.Text.{strip, lower}
use voxera_os.Py.{null, text, array, nil, cons, object, Fields, end, field, truthy}
use voxera_os.Py.Dict.{get, find}
use voxera_os.Py.Str.{py_str}
use voxera_os.Automation.{value}
use voxera_os.Queue.State.{nat_value, int_of}
use voxera_os.Queue.Contracts.Steps.{
  build_structured_step_results, structured_steps, items_of, step_result, timed_step, outcome_of,
}
use voxera_os.Queue.Contracts.Steps.Laws.{
  OwnOrExisting, build_structured_step_results-NamesBoundary,
}
use voxera_os.Queue.Contracts.Artifacts.{refresh_execution_result_artifact_contract}
use voxera_os.Queue.Contracts.Artifacts.Laws.{refresh_twice}

-- A step that timed out and says that its scope blocked it.
abbrev timed_out : Fields
timed_out = field "step" (nat_value 1) (
    field "skill" (text "files.read_text") (
      field "error_class" (text "timeout")
        (field "blocked_reason_class" (text "path_blocked_scope") end)))

abbrev one_result : Fields
one_result = field "results" (array (cons (object timed_out) nil)) end

-- Its result names no class.
timed_out_result : Fields
timed_out_result = step_result 1 1 timed_out end null null null

timed_out_class : get "blocked_reason_class" timed_out_result ≡ null
unfolding timed_out_result step_result get find strip lower truthy py_str
timed_out_class = refl

timed_out_built : build_structured_step_results one_result 1 [] ≡ value (timed_out_result ∷ [])
unfolding timed_out_result build_structured_step_results timed_step get find int_of truthy
    outcome_of
timed_out_built = refl

build_structured_step_results-NamesBoundary_example : OwnOrExisting [] (timed_out_result ∷ []) (
    structured_steps 1
      (items_of (get "step_outcomes" one_result))
      (items_of (get "results" one_result)))
build_structured_step_results-NamesBoundary_example =
    build_structured_step_results-NamesBoundary one_result 1 [] (timed_out_result ∷ [])
      timed_out_built

abbrev only_plan : String → Bool
only_plan s = s == "plan.json"

abbrev two_expected : Fields
two_expected =
    field "review_summary"
      (object
        (field "expected_artifacts" (array (cons (text "plan") (cons (text "stdout") nil))) end))
      end

refresh_twice_example :
    refresh_execution_result_artifact_contract only_plan
      (refresh_execution_result_artifact_contract only_plan two_expected)
    ≡ refresh_execution_result_artifact_contract only_plan two_expected
refresh_twice_example = refresh_twice only_plan two_expected
