-- ===== src/Skill/Result.antt =====
-- src/voxera/skills/result_contract.py: the canonical result of a skill, as the dictionary that it
-- is in a run's data.
use voxera_os.Base.{String, if◌then◌else◌}
use voxera_os.Base.Text.{strip}
use voxera_os.Py.{Value, null, bool, text, array, object, nil, Fields, end, field, truthy}
use voxera_os.Py.Dict.{get}
use voxera_os.Py.Str.{py_str}

-- The keyword arguments of `build_skill_result`.
pub record SkillResult : Type 0 where
  pub summary : String
  pub machine_payload : Value
  pub output_artifacts : Value
  pub operator_note : Value
  pub next_action_hint : Value
  pub retryable : Value
  pub blocked : Value
  pub approval_status : Value
  pub error : Value
  pub error_class : Value

-- All keyword arguments but the summary at their default `None`.
abbrev pub result_of : String → SkillResult
result_of s = record {
  summary = s;
  machine_payload = null;
  output_artifacts = null;
  operator_note = null;
  next_action_hint = null;
  retryable = null;
  blocked = null;
  approval_status = null;
  error = null;
  error_class = null;
}

abbrev object_or_empty : Value → Value
object_or_empty (object d) = object d
object_or_empty _ = object end

abbrev array_or_empty : Value → Value
array_or_empty (array xs) = array xs
array_or_empty _ = array nil

abbrev bool_or_none : Value → Value
bool_or_none (bool b) = bool b
bool_or_none _ = null

-- `str(v) if v is not None else None`
abbrev str_or_none : Value → Value
str_or_none null = null
str_or_none v = text (py_str v)

abbrev stripped_or_none : Value → Value
stripped_or_none null = null
stripped_or_none v = text (strip (py_str v))

unfoldable pub build_skill_result : SkillResult → Fields
build_skill_result r = field "summary" (text (strip r.summary)) (
    field "machine_payload" (object_or_empty r.machine_payload) (
      field "output_artifacts" (array_or_empty r.output_artifacts) (
        field "operator_note" r.operator_note (
          field "next_action_hint" r.next_action_hint (
            field "retryable" (bool_or_none r.retryable) (
              field "blocked" (bool_or_none r.blocked) (
                field "approval_status" (stripped_or_none r.approval_status) (
                  field "error" (str_or_none r.error)
                    (field "error_class" r.error_class end)))))))))

-- `str(v or "")`
abbrev pub str_or_empty : Value → String
str_or_empty v = if truthy v then py_str v else ""

extract_raw : Value → Fields
extract_raw (object raw) = build_skill_result (record {
  summary = strip (str_or_empty (get "summary" raw));
  machine_payload = object_or_empty (get "machine_payload" raw);
  output_artifacts = array_or_empty (get "output_artifacts" raw);
  operator_note = str_or_none (get "operator_note" raw);
  next_action_hint = str_or_none (get "next_action_hint" raw);
  retryable = bool_or_none (get "retryable" raw);
  blocked = bool_or_none (get "blocked" raw);
  approval_status = str_or_none (get "approval_status" raw);
  error = str_or_none (get "error" raw);
  error_class = str_or_none (get "error_class" raw);
})
extract_raw _ = build_skill_result (result_of "")

unfoldable pub extract_skill_result : Fields → Fields
unfolding extract_raw build_skill_result
extract_skill_result d = extract_raw (get "skill_result" d)
