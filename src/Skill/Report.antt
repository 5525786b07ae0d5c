-- ===== src/Skill/Report.antt =====
-- What `SkillRunner.run` (src/voxera/skills/runner.py) logs, and the results that it makes itself: of
-- a denied, a pending and a rejected call.
use voxera_os.Base.{String, true, false, some, List, [], ◌∷◌, ◌==◌, if◌then◌else◌}
use voxera_os.Base.Text.{◌+s◌}
use voxera_os.Py.{Value, null, bool, text, object, Fields, end, field, texts}
use voxera_os.Py.Dict.{put}
use voxera_os.Models.{SkillManifest, RunResult, ExecMode}
use voxera_os.Policy.{verdict_name, is_deny}
use voxera_os.Skill.Result.{build_skill_result}
use voxera_os.Skill.Enforce.{Enforcement}

-- A logged event with its fields, or the call of the skill with its arguments.
pub data Effect : Type 0 where
  audit : String → Fields → Effect
  invoke : String → Fields → Effect

abbrev pub failed_result : String → Fields → RunResult
failed_result e d = record { ok = false; output = ""; result_data = d; error = some e }

abbrev pub first_text : List String → Value
first_text [] = null
first_text (s ∷ ss) = text s

abbrev pub runner_name : ExecMode → String
runner_name ExecMode.sandbox = "sandbox.podman"
runner_name ExecMode.local = "local"

-- The fields that tell what the skill requires.
abbrev pub required : Enforcement → Fields → Fields
required e rest =
    field "required_capabilities" (texts e.capabilities)
      (field "required_effect_classes" (texts e.effect_classes) rest)

unfoldable pub denied_event : SkillManifest → Enforcement → Effect
denied_event m e = audit "skill_denied" (
    field "skill" (text m.id) (
      field "reason" (text e.reason) (
        field "reason_class" (text e.reason_class)
          (required e (field "execution_capabilities" (object e.declaration) end)))))

denied_payload : Enforcement → Value
denied_payload e = object (
    field "reason" (text e.reason) (
      field "reason_class" (text e.reason_class) (
        required e (
          field "policy_decision" (text (verdict_name e.decision))
            (field "execution_capabilities" (object e.declaration) end)))))

unfoldable pub denied_result : Enforcement → RunResult
unfolding denied_payload
denied_result e = failed_result ("Denied by policy: " +s e.reason) (
    field "status" (text "blocked") (
      field "reason" (text e.reason) (
        field "blocked_reason_class" (text e.reason_class) (
          field "capabilities" (texts e.capabilities) (
            field "effect_classes" (texts e.effect_classes) (
              field "policy_decision" (text (verdict_name e.decision)) (
                field "skill_result"
                  (object (
                    build_skill_result (record {
                      summary = "Step blocked before execution by runtime capability enforcement";
                      machine_payload = denied_payload e;
                      output_artifacts = null;
                      operator_note = text e.reason;
                      next_action_hint = text (
                          if e.reason_class == "policy_decision"
                          then "request_policy_change_or_review"
                          else "fix_skill_manifest");
                      retryable = bool false;
                      blocked = bool true;
                      approval_status = text (if is_deny e.decision then "denied" else "none");
                      error = text ("Denied by policy: " +s e.reason);
                      error_class = text e.reason_class;
                    })))
                  end)))))))

-- `{**approved, "status": "pending_approval", …}`
unfoldable pub pending_result : SkillManifest → Enforcement → Fields → RunResult
pending_result m e approved = failed_result "Approval required." (
    put "skill_result"
      (object (
        build_skill_result (record {
          summary = "Step blocked pending operator approval";
          machine_payload = object (
              field "reason" (text e.reason) (
                required e (
                  field "policy_decision" (text (verdict_name e.decision))
                    (field "execution_capabilities" (object e.declaration) end))));
          output_artifacts = null;
          operator_note = text "Approval is required before this step may execute.";
          next_action_hint = text "await_operator_approval";
          retryable = bool true;
          blocked = bool true;
          approval_status = text "pending";
          error = text "Approval required.";
          error_class = text "approval_required";
        })))
      (put "policy_decision" (text (verdict_name e.decision)) (
        put "effect_classes" (texts e.effect_classes) (
          put "capabilities" (texts e.capabilities) (
            put "capability" (first_text e.capabilities) (
              put "reason" (text e.reason)
                (put "skill" (text m.id) (put "status" (text "pending_approval") approved))))))))

unfoldable pub rejected_result : Enforcement → RunResult
rejected_result e = failed_result "User rejected approval." (
    field "status" (text "blocked") (
      field "reason" (text "User rejected approval.") (
        field "blocked_reason_class" (text "approval_rejected") (
          field "capabilities" (texts e.capabilities) (
            field "effect_classes" (texts e.effect_classes) (
              field "skill_result"
                (object (
                  build_skill_result (record {
                    summary = "Step blocked because operator denied approval";
                    machine_payload = object (
                        field "reason" (text "User rejected approval.")
                          (required e (field "execution_capabilities" (object e.declaration) end)));
                    output_artifacts = null;
                    operator_note = text "Operator denied approval for this step.";
                    next_action_hint = text "operator_review_required";
                    retryable = bool false;
                    blocked = bool true;
                    approval_status = text "denied";
                    error = text "User rejected approval.";
                    error_class = text "approval_rejected";
                  })))
                end))))))
