-- ===== src/Queue/Contracts/Steps.antt =====
-- `build_structured_step_results` and `_derive_blocked_metadata` of
-- src/voxera/core/queue_contracts.py.
pub mod Laws
use voxera_os.Base.{
  ℕ, zero, suc, String, Bool, true, false, Option, none, some, List, [], ◌∷◌, ◌==◌, ◌||◌, not,
  contains, nat_eq, if◌then◌else◌,
}
use voxera_os.Base.Text.{strip, lower, or_else, is_empty}
use voxera_os.Base.Int.{ℤ, pos, negsuc}
use voxera_os.Py.{
  Value, null, bool, int, text, array, object, Items, nil, cons, Fields, end, field, truthy,
}
use voxera_os.Py.Dict.{get}
use voxera_os.Py.Str.{py_str}
use voxera_os.Automation.{Raising, value, raises}
use voxera_os.Skill.Result.{str_or_empty}
use voxera_os.Queue.State.{nat_value, int_of, or_value}
use voxera_os.Queue.Requests.{◌>>=◌}

abbrev pub boundary_classes : List String
boundary_classes = "path_blocked_scope" ∷ "capability_boundary_mismatch" ∷ "policy_denied" ∷ []

abbrev pub items_of : Value → Items
items_of (array vs) = vs
items_of _ = nil

abbrev dict_of : Value → Value
dict_of (object d) = object d
dict_of _ = object end

abbrev list_of : Value → Value
list_of (array vs) = array vs
list_of _ = array nil

abbrev bool_or_null : Value → Value
bool_or_null (bool b) = bool b
bool_or_null _ = null

abbrev bool_or : Bool → Value → Value
bool_or b (bool c) = bool c
bool_or b _ = bool b

abbrev pub text_or_null : String → Value
text_or_null s = if is_empty s then null else text s

-- `int(item.get(key) or 0)`
abbrev pub number : String → Fields → Option ℤ
number key d = int_of (or_value (get key d) (nat_value 0))

abbrev pub null_at_zero : Option ℤ → Raising Value
null_at_zero none = raises "ValueError()"
null_at_zero (some (pos zero)) = value null
null_at_zero (some z) = value (int z)

abbrev is_step : ℕ → Option ℤ → Bool
is_step n (some (pos m)) = nat_eq m n
is_step n _ = false

abbrev own_outcome : ℕ → Fields → Option Fields
own_outcome n d = if is_step n (number "step" d) then some d else none

-- The last outcome of a step.
unfoldable pub outcome_of : ℕ → Items → Option Fields
outcome_of n nil = none
outcome_of n (cons (object d) vs) = elim (outcome_of n vs) [
  | some o ↦ some o
  | none ↦ own_outcome n d
]
outcome_of n (cons _ vs) = outcome_of n vs

abbrev pub or_end : Option Fields → Fields
or_end none = end
or_end (some d) = d

abbrev pub error_class_of : Fields → String
error_class_of item = lower (strip (str_or_empty (get "error_class" item)))

abbrev pub is_boundary : Fields → Bool
is_boundary item = contains (error_class_of item) boundary_classes

abbrev step_status : Fields → Fields → String
step_status item outcome = py_str (
    or_value (get "outcome" outcome)
      (text (if truthy (get "ok" item) then "succeeded" else "failed")))

-- The conditional covers the whole of the alternatives.
unfoldable pub reason_class : Fields → Fields → String
reason_class item outcome =
    if is_boundary item
    then or_else (strip (str_or_empty (get "blocked_reason_class" item)))
        (or_else (strip (str_or_empty (get "blocked_reason_class" outcome))) (error_class_of item))
    else ""

abbrev is_blocked : Fields → String → Value
is_blocked item status =
    if is_boundary item then bool true else bool_or (status == "blocked") (get "blocked" item)

unfoldable pub step_result : ℕ → ℕ → Fields → Fields → Value → Value → Value → Fields
unfolding reason_class
step_result total index item outcome started finished duration =
    let status = step_status item outcome in
    field "schema_version" (nat_value 1) (
      field "step_index" (nat_value index) (
        field "step_total" (nat_value total) (
          field "skill_id" (text (str_or_empty (get "skill" item))) (
            field "effective_args" (dict_of (get "args" item)) (
              field "status" (text status) (
                field "started_at_ms" started (
                  field "finished_at_ms" finished (
                    field "duration_ms" duration (
                      field "summary"
                        (text (
                          str_or_empty (
                            or_value (get "summary" item)
                              (or_value (get "output" item) (get "error" item)))))
                        (field "output_artifacts" (list_of (get "output_artifacts" item)) (
                          field "machine_payload" (dict_of (get "machine_payload" item)) (
                            field "operator_note" (get "operator_note" item) (
                              field "next_action_hint" (get "next_action_hint" item) (
                                field "retryable" (bool_or_null (get "retryable" item)) (
                                  field "blocked" (is_blocked item status) (
                                    field "approval_status"
                                      (or_value (get "approval_status" item)
                                        (get "approval_status" outcome))
                                      (field "blocked_reason_class"
                                        (text_or_null (reason_class item outcome))
                                        (field "error"
                                          (text_or_null (str_or_empty (get "error" item)))
                                          (field "error_class" (get "error_class" item)
                                            end)))))))))))))))))))

unfoldable pub timed_step : ℕ → ℕ → Fields → Fields → Raising Fields
timed_step total index item outcome = do
  started ← null_at_zero (number "started_at_ms" item)
  finished ← null_at_zero (number "finished_at_ms" item)
  duration ← null_at_zero (number "duration_ms" item)
  value (step_result total index item outcome started finished duration)

abbrev pub numbered_step : ℕ → Items → Fields → Option ℤ → Raising (Option Fields)
numbered_step total outcomes item none = raises "ValueError()"
numbered_step total outcomes item (some (negsuc n)) = value none
numbered_step total outcomes item (some (pos zero)) = value none
numbered_step total outcomes item (some (pos (suc n))) = do
  r ← timed_step total (suc n) item (or_end (outcome_of (suc n) outcomes))
  value (some r)

abbrev pub kept : Option Fields → List Fields → List Fields
kept none rs = rs
kept (some r) rs = r ∷ rs

unfoldable pub structured_steps : ℕ → Items → Items → Raising (List Fields)
structured_steps total outcomes nil = value []
structured_steps total outcomes (cons (object item) vs) = do
  r ← numbered_step total outcomes item (number "step" item)
  rs ← structured_steps total outcomes vs
  value (kept r rs)
structured_steps total outcomes (cons _ vs) = structured_steps total outcomes vs

abbrev pub or_existing : List Fields → List Fields → List Fields
or_existing [] existing = existing
or_existing (r ∷ rs) existing = r ∷ rs

-- `build_structured_step_results`
unfoldable pub build_structured_step_results : Fields → ℕ → List Fields → Raising (List Fields)
unfolding structured_steps
build_structured_step_results rr_data total existing = do
  rs ←
      structured_steps total (items_of (get "step_outcomes" rr_data))
        (items_of (get "results" rr_data))
  value (or_existing rs existing)

last_step : List Fields → Fields
last_step [] = end
last_step (r ∷ []) = r
last_step (r ∷ s ∷ rs) = last_step (s ∷ rs)

-- Whether a job was blocked, the class and the reason.
pub record Blocked : Type 0 where
  pub reason_class : Option String
  pub reason : Option String

abbrev text_option : String → Option String
text_option s = if is_empty s then none else some s

abbrev or_blank : Option String → String
or_blank none = ""
or_blank (some s) = s

-- `_derive_blocked_metadata`, where `none` is a job that was not blocked
unfoldable pub derive_blocked_metadata : Fields → List Fields → Option String → Option Blocked
unfolding last_step
derive_blocked_metadata rr_data steps fallback =
    let latest = last_step steps in
    let step_class = lower (strip (str_or_empty (get "blocked_reason_class" latest))) in
    if truthy (get "blocked" latest) || not (is_empty step_class) || is_boundary latest
    then some (record {
      reason_class = text_option (
          or_else step_class (
            or_else (error_class_of latest)
              (lower (strip (str_or_empty (get "blocked_reason_class" rr_data))))));
      reason = text_option (
          or_else (strip (str_or_empty (get "error" latest))) (
            or_else (strip (str_or_empty (get "blocked_reason" rr_data)))
              (strip (or_blank fallback))));
    })
    else none
