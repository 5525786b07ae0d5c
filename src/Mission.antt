-- ===== src/Mission.antt =====
-- src/voxera/core/missions.py: `MissionRunner`, which runs the steps of a mission through the skill
-- runner and stops at the first that does not succeed. Mission is the step's record, Mission/Run
-- the loop, Mission/Simulate the dry run.
pub mod Run
pub mod Simulate
use voxera_os.Base.{
  ℕ, ◌-◌, String, Bool, true, false, Option, none, some, List, [], ◌∷◌, ◌||◌, ◌==◌, contains,
  nat_eq, if◌then◌else◌,
}
use voxera_os.Base.Text.{strip, lower, or_else, has_substring}
use voxera_os.Base.Int.{pos}
use voxera_os.Py.{
  Value, null, bool, int, text, array, object, nil, Fields, end, field, optional_text, truthy,
}
use voxera_os.Py.Dict.{get}
use voxera_os.Py.Str.{py_str}
use voxera_os.Models.{RunResult}
use voxera_os.Skill.Result.{str_or_empty, extract_skill_result}

pub record MissionStep : Type 0 where
  pub skill_id : String
  pub args : Fields

-- Without its notes, which nothing modelled here decides by.
pub record MissionTemplate : Type 0 where
  pub id : String
  pub title : String
  pub goal : String
  pub steps : List MissionStep

abbrev pub nat_value : ℕ → Value
nat_value n = int (pos n)

-- `v == s` for a text `s`
abbrev pub is_text : String → Value → Bool
is_text s (text t) = t == s
is_text s _ = false

-- `isinstance(v, bool)`, `isinstance(v, list)` and `is not None`, with what is taken otherwise
abbrev bool_else : Value → Value → Value
bool_else (bool b) other = bool b
bool_else _ other = other

abbrev list_else : Value → Value → Value
list_else (array vs) other = array vs
list_else _ other = other

abbrev some_else : Value → Value → Value
some_else null other = other
some_else v other = v

-- `str(v) if v is not None else other`
abbrev str_else : Value → Value → Value
str_else null other = other
str_else v other = text (py_str v)

abbrev payload_of : Value → Fields → Value
payload_of (object p) d = object p
payload_of _ d = object d

abbrev error_text : Option String → String
error_text none = ""
error_text (some e) = e

-- `str(canonical.get("summary") or rr.output or rr.error or "").strip()`
summary_of : Fields → RunResult → String
summary_of canonical rr =
    strip
      (or_else (str_or_empty (get "summary" canonical)) (or_else rr.output (error_text rr.error)))

-- The entry of a step in the results, with the times of its start and its end.
unfoldable pub step_output : ℕ → MissionStep → ℕ × ℕ → RunResult → Fields
unfolding summary_of
step_output idx ms (started, finished) rr =
    let d = rr.result_data in
    let canonical = extract_skill_result d in
    field "step" (nat_value idx) (
      field "skill" (text ms.skill_id) (
        field "args" (object ms.args) (
          field "ok" (bool rr.ok) (
            field "output" (text rr.output) (
              field "machine_payload" (payload_of (get "machine_payload" canonical) d) (
                field "started_at_ms" (nat_value started) (
                  field "finished_at_ms" (nat_value finished) (
                    field "duration_ms" (nat_value (finished - started)) (
                      field "summary" (text (summary_of canonical rr)) (
                        field "output_artifacts"
                          (list_else (get "output_artifacts" canonical)
                            (list_else (get "artifacts" d) (array nil)))
                          (field "operator_note" (get "operator_note" canonical) (
                            field "next_action_hint" (get "next_action_hint" canonical) (
                              field "retryable"
                                (bool_else (get "retryable" canonical)
                                  (bool_else (get "retryable" d) null))
                                (field "blocked" (bool_else (get "blocked" canonical) null) (
                                  field "approval_status"
                                    (str_else (get "approval_status" canonical) null)
                                    (field "error"
                                      (str_else (get "error" canonical) (optional_text rr.error))
                                      (field "error_class"
                                        (some_else (get "error_class" canonical)
                                          (get "error_class" d))
                                        end)))))))))))))))))

-- `str(a or b or "")`
abbrev first_str : Value → Value → String
first_str a b = if truthy a then py_str a else str_or_empty b

unfoldable pub error_class_of : RunResult → String
error_class_of rr = lower (
    strip (
      first_str (get "error_class" (extract_skill_result rr.result_data))
        (get "error_class" rr.result_data)))

abbrev boundary_classes : List String
boundary_classes = "path_blocked_scope" ∷ "capability_boundary_mismatch" ∷ "policy_denied" ∷ []

abbrev is_true : Value → Bool
is_true (bool b) = b
is_true _ = false

-- `blocked_now` and `blocked_terminal`, which are written alike
unfoldable pub is_blocked : RunResult → Bool
unfolding error_class_of
is_blocked rr =
    is_true (get "blocked" (extract_skill_result rr.result_data))
    || (str_or_empty (get "status" rr.result_data) == "blocked")
    || has_substring "Denied by policy" (error_text rr.error)
    || contains (error_class_of rr) boundary_classes

unfoldable pub is_pending : RunResult → Bool
is_pending rr = is_text "pending_approval" (get "status" rr.result_data)

abbrev outcome_entry : ℕ → MissionStep → String → Value → Fields → Fields
outcome_entry idx ms outcome approval rest = field "step" (nat_value idx) (
    field "skill" (text ms.skill_id)
      (field "outcome" (text outcome) (field "approval_status" approval rest)))

-- The entry of a step in the outcomes; `resumed` says that the run resumes at this step after an
-- approval.
unfoldable pub step_outcome : ℕ → MissionStep → Bool → RunResult → Fields
unfolding is_pending is_blocked
step_outcome idx ms resumed rr =
    if is_pending rr
    then outcome_entry idx ms "awaiting_approval" (text "pending") end
    else if rr.ok
    then outcome_entry idx ms "succeeded" (if resumed then text "approved" else null) end
    else let reason_class = get "blocked_reason_class" rr.result_data in
      outcome_entry idx ms (if is_blocked rr then "blocked" else "failed")
        (if has_substring "User rejected approval" (error_text rr.error)
          then text "denied"
          else null)
        (field "reason" (get "reason" rr.result_data) (
          field "blocked_reason_class"
            (if truthy reason_class
              then reason_class
              else if is_blocked rr
              then text (error_class_of rr)
              else null)
            end))
