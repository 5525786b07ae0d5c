-- ===== src/Examples/Automation.antt =====
-- The automation runner on sample definitions.
use voxera_os.Base.{◌+◌, true, false, not, none, some, [], ◌≡◌, refl, ltb}
use voxera_os.Base.Text.{sorted, strip, decimal}
use voxera_os.Base.{◌∷◌}
use voxera_os.Automation.{Raising, raises}
use voxera_os.Base.Int.{pos}
use voxera_os.Base.Assoc.{lookup}
use voxera_os.Py.{end, field, int, text}
use voxera_os.Py.Dict.{get, find}
use voxera_os.Automation.{value, TriggerKind, AutomationDefinition, validated_id_segment}
use voxera_os.Automation.Trigger.{compute_due_anchor_ms, evaluate_due_automation}
use voxera_os.Automation.Inbox.{add_inbox_payload, canonical_request_anchor_text}
use voxera_os.Automation.History.{generate_run_id, history_record_name, write_history_record}
use voxera_os.Automation.Runner.{
  interval_ms, Env, Disk, process_automation_definition, left_alone, state_update,
  save_automation_definition,
}
use voxera_os.Automation.Pass.{
  RunnerPassResult, pass_of, process_all, run_due_automations, run_due_automations_locked,
}
use voxera_os.Automation.Runner.Laws.{is_submitted, process-keeps}
use voxera_os.Automation.Runner.Fires.{fires_once, fires_again}

abbrev working : Env
working = record {
  digest = λ s. "0a1b2c3d";
  payload_hash = λ d. "hash";
  enrich = λ d. d;
  inbox_error = λ name. none;
  history_error = λ name. none;
  save_error = λ id. none;
}

abbrev full_disk : Env
full_disk = record working { save_error = λ id. some "No space left on device" }

abbrev empty_disk : Disk
empty_disk = record { inbox = []; history = []; definitions = [] }

abbrev reminder : AutomationDefinition
reminder = record {
  id = "reminder";
  title = "Reminder";
  description = "";
  enabled = true;
  trigger_kind = TriggerKind.delay;
  trigger_config = field "delay_ms" (int (pos 500)) end;
  payload_template = field "goal" (text "write a note") end;
  created_at_ms = 1000;
  updated_at_ms = 1000;
  last_run_at_ms = none;
  next_run_at_ms = none;
  last_job_ref = none;
  run_history_refs = [];
  policy_posture = "standard";
  created_from = "cli";
}

abbrev backup : AutomationDefinition
backup = record reminder {
  id = "backup";
  trigger_kind = TriggerKind.recurring_interval;
  trigger_config = field "interval_ms" (int (pos 200)) end;
}

reminder_fires :
    is_submitted (process_automation_definition working reminder 1500 false empty_disk).result
    ≡ true
unfolding process_automation_definition evaluate_due_automation compute_due_anchor_ms get
    add_inbox_payload canonical_request_anchor_text strip generate_run_id decimal lookup
    write_history_record history_record_name validated_id_segment state_update
    save_automation_definition
reminder_fires = refl

backup_fires :
    is_submitted (process_automation_definition working backup 1300 false empty_disk).result ≡ true
unfolding process_automation_definition evaluate_due_automation compute_due_anchor_ms get
    add_inbox_payload canonical_request_anchor_text strip generate_run_id decimal lookup
    write_history_record history_record_name validated_id_segment state_update
    save_automation_definition
backup_fires = refl

unsaved :
    is_submitted (process_automation_definition full_disk reminder 1500 false empty_disk).result
    ≡ false
unfolding process_automation_definition evaluate_due_automation compute_due_anchor_ms get
    add_inbox_payload canonical_request_anchor_text strip generate_run_id decimal lookup
    write_history_record history_record_name validated_id_segment state_update
    save_automation_definition
unsaved = refl

process-keeps_example :
    (process_automation_definition full_disk reminder 1500 false empty_disk).disk.definitions
    ≡ empty_disk.definitions
process-keeps_example = process-keeps full_disk reminder 1500 false empty_disk unsaved

fires_once_example :
    (saved : AutomationDefinition) × (lookup
        (strip reminder.id)
        (process_automation_definition working reminder 1500 false empty_disk).disk.definitions
      ≡ some saved)
    × (process_automation_definition full_disk saved 9000 true empty_disk
        ≡ left_alone saved "definition is disabled" empty_disk)
fires_once_example =
    fires_once working reminder 1500 false empty_disk full_disk 9000 true empty_disk refl
      reminder_fires

backup_interval : interval_ms backup.trigger_config ≡ value 200
unfolding find
backup_interval = refl

fires_again_example :
    (saved : AutomationDefinition) × (lookup
        (strip backup.id)
        (process_automation_definition working backup 1300 false empty_disk).disk.definitions
      ≡ some saved)
    × ((evaluate_due_automation saved 1499 false).0 ≡ not (ltb 1499 (1300 + 200)))
fires_again_example =
    fires_again working backup 1300 200 false empty_disk 1499 refl backup_interval backup_fires

abbrev two_saved : Disk
two_saved = record empty_disk { definitions = ("reminder", reminder) ∷ ("backup", backup) ∷ [] }

abbrev pass_or : RunnerPassResult → Raising RunnerPassResult → RunnerPassResult
pass_or p (value q) = q
pass_or p (raises e) = p

abbrev two_passed : RunnerPassResult
two_passed = pass_or (pass_of []) (run_due_automations_locked working false 1300 two_saved).0

two_ran : (run_due_automations_locked working false 1300 two_saved).0 ≡ value two_passed
unfolding run_due_automations_locked run_due_automations process_all process_automation_definition
    evaluate_due_automation compute_due_anchor_ms get add_inbox_payload
    canonical_request_anchor_text strip generate_run_id decimal lookup write_history_record
    history_record_name validated_id_segment state_update save_automation_definition sorted find
two_ran = refl
