-- ===== src/Automation/Runner.antt =====
-- src/voxera/automation/runner.py: the run of one saved definition. The disk is
-- the inbox, the history and the definitions; what the runner does not decide is in `Env`: digests,
-- the enrichment of a job, and which writes fail.
pub mod Laws
pub mod Fires
use voxera_os.Base.{
  ℕ, suc, ◌+◌, String, Bool, true, false, Option, none, some, List, [], ◌∷◌, ◌++◌, map, present,
  nat_eq, length, if◌then◌else◌,
}
use voxera_os.Base.Text.{◌+s◌, sorted, join, decimal}
use voxera_os.Base.Int.{pos}
use voxera_os.Base.Assoc.{Assoc, lookup, store, keys}
use voxera_os.Py.{Value, int, Fields}
use voxera_os.Py.Dict.{find}
use voxera_os.Automation.{
  Raising, value, raises, TriggerKind, AutomationDefinition, kind_name, is_one_shot,
  recurring_interval, validated_id_segment,
}
use voxera_os.Automation.Trigger.{touch_updated, evaluate_due_automation}
use voxera_os.Automation.Inbox.{add_inbox_payload}
use voxera_os.Automation.History.{
  RunOutcome, submitted, skipped, error, HistoryRecord, generate_run_id, summarize_payload,
  write_history_record,
}

pub record Env : Type 0 where
  pub digest : String → String
  pub payload_hash : Fields → String
  pub enrich : Fields → Fields
  pub inbox_error : String → Option String
  pub history_error : String → Option String
  pub save_error : String → Option String

pub record Disk : Type 0 where
  pub inbox : Assoc Fields
  pub history : Assoc HistoryRecord
  pub definitions : Assoc AutomationDefinition

pub record AutomationRunResult : Type 0 where
  pub automation_id : String
  pub outcome : RunOutcome
  pub message : String
  pub queue_job_ref : Option String
  pub history_ref : Option String
  pub run_id : Option String
  pub trigger_kind : TriggerKind

-- A result, or the exception that leaves the runner, and the disk then.
pub record Processed : Type 0 where
  pub result : Raising AutomationRunResult
  pub disk : Disk

abbrev pub left_alone : AutomationDefinition → String → Disk → Processed
left_alone d reason disk = record {
  result = value (record {
    automation_id = d.id;
    outcome = skipped;
    message = reason;
    queue_job_ref = none;
    history_ref = none;
    run_id = none;
    trigger_kind = d.trigger_kind;
  });
  disk = disk;
}

-- What follows a write, with the reference of the record; an exception leaves the runner.
abbrev pub after_write : Raising String → Disk → (String → Disk → Processed) → Processed
after_write (raises e) disk next = record { result = raises e; disk = disk }
after_write (value name) disk next = next ("history/" +s name) disk

-- `_persist_history`, and what follows it
pub persist_history :
    Env
    → AutomationDefinition
    → String
    → ℕ
    → RunOutcome
    → Option String
    → String
    → Disk
    → (String → Disk → Processed)
    → Processed
persist_history env d run_id now outcome job_ref message disk next =
    let (written, history) =
      write_history_record env.history_error
        (record {
          automation_id = d.id;
          run_id = run_id;
          triggered_at_ms = now;
          trigger_kind = kind_name d.trigger_kind;
          outcome = outcome;
          queue_job_ref = job_ref;
          message = message;
          payload_summary = summarize_payload d.payload_template;
          payload_hash = env.payload_hash d.payload_template;
        })
        disk.history in
    after_write written (record disk { history = history }) next

abbrev pub reported :
    AutomationDefinition → RunOutcome → String → Option String → String → String → Disk → Processed
reported d outcome message job_ref run_id history_ref disk = record {
  result = value (record {
    automation_id = d.id;
    outcome = outcome;
    message = message;
    queue_job_ref = job_ref;
    history_ref = some history_ref;
    run_id = some run_id;
    trigger_kind = d.trigger_kind;
  });
  disk = disk;
}

-- `save_automation_definition` with its default `touch_updated=True`
unfoldable pub save_automation_definition :
    Env
    → ℕ
    → AutomationDefinition
    → Assoc AutomationDefinition
    → Raising (Assoc AutomationDefinition)
save_automation_definition env now d definitions = elim (validated_id_segment d.id) [
  | raises e ↦ raises e
  | value id ↦ elim (env.save_error id) [
    | some e ↦ raises e
    | none ↦ value (store id (touch_updated now d) definitions)
  ]
]

-- `trigger_config["interval_ms"]`, which a validated definition has
abbrev pub interval_ms : Fields → Raising ℕ
interval_ms config = elim (find "interval_ms" config) [
  | some (int (pos n)) ↦ value n
  | some _ ↦ raises "TypeError: interval_ms"
  | none ↦ raises "KeyError: interval_ms"
]

abbrev fired : AutomationDefinition → ℕ → String → String → AutomationDefinition
fired d now job_ref history_ref = record d {
  last_run_at_ms = some now;
  last_job_ref = some job_ref;
  run_history_refs = d.run_history_refs ++ history_ref ∷ [];
}

-- The state of a definition after a job was submitted.
unfoldable pub state_update :
    AutomationDefinition → ℕ → String → String → Raising AutomationDefinition
state_update d now job_ref history_ref =
    let d' = fired d now job_ref history_ref in
    elim d.trigger_kind [
      | TriggerKind.once_at ↦ value (record d' { enabled = false; next_run_at_ms = none })
      | TriggerKind.delay ↦ value (record d' { enabled = false; next_run_at_ms = none })
      | TriggerKind.recurring_interval ↦ elim (interval_ms d.trigger_config) [
        | raises e ↦ raises e
        | value n ↦ value (record d' { enabled = true; next_run_at_ms = some (now + n) })
      ]
      | _ ↦ value d'
    ]

-- The runner's answer to a save of the definition; a failure is recorded.
pub after_save :
    Env
    → AutomationDefinition
    → ℕ
    → String
    → String
    → String
    → String
    → Disk
    → Raising (Assoc AutomationDefinition)
    → Processed
unfolding persist_history
after_save env d now reason run_id job_ref history_ref disk (value definitions) =
    reported d submitted reason (some job_ref) run_id history_ref
      (record disk { definitions = definitions })
after_save env d now reason run_id job_ref history_ref disk (raises e) =
    let message =
      "queue job " +s job_ref +s " was emitted but definition state save failed: " +s e in
    let error_run_id = generate_run_id env.digest d.id (now + 1) in
    persist_history env d error_run_id now error (some job_ref) message disk
      (λ ref disk'. reported d error message (some job_ref) error_run_id ref disk')

-- After the job and its history record, with the definition's new state.
pub save_fired :
    Env
    → AutomationDefinition
    → ℕ
    → String
    → String
    → String
    → String
    → Disk
    → Raising AutomationDefinition
    → Processed
unfolding after_save
save_fired env d now reason run_id job_ref history_ref disk (raises e) = record {
  result = raises e;
  disk = disk;
}
save_fired env d now reason run_id job_ref history_ref disk (value updated) =
    after_save env d now reason run_id job_ref history_ref disk
      (save_automation_definition env now updated disk.definitions)

-- What follows the submission of the job.
pub after_emit :
    Env → AutomationDefinition → ℕ → String → String → Disk → Raising String → Processed
unfolding persist_history save_fired
after_emit env d now reason run_id disk (raises e) =
    let message = "failed to emit queue job: " +s e in
    persist_history env d run_id now error none message disk
      (λ ref disk'. reported d error message none run_id ref disk')
after_emit env d now reason run_id disk (value job_ref) =
    persist_history env d run_id now submitted (some job_ref) reason disk (λ ref disk'.
      save_fired env d now reason run_id job_ref ref disk' (state_update d now job_ref ref))

-- A due definition.
pub fire : Env → AutomationDefinition → ℕ → String → Disk → Processed
unfolding after_emit
fire env d now reason disk =
    let run_id = generate_run_id env.digest d.id now in
    let (emitted, inbox) =
      add_inbox_payload env.enrich env.inbox_error run_id d.payload_template disk.inbox in
    after_emit env d now reason run_id (record disk { inbox = inbox }) emitted

unfoldable pub process_automation_definition :
    Env → AutomationDefinition → ℕ → Bool → Disk → Processed
unfolding fire
process_automation_definition env d now force disk =
    let (due, reason) = evaluate_due_automation d now force in
    if due then fire env d now reason disk else left_alone d reason disk
