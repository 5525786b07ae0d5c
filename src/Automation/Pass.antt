-- ===== src/Automation/Pass.antt =====
-- src/voxera/automation/runner.py: a pass of the runner over the saved definitions, and the pass
-- under the runner's lock.
pub mod Laws
use voxera_os.Base.{
  ℕ, suc, ◌+◌, String, Bool, true, false, Option, none, some, List, [], ◌∷◌, ◌++◌, map, present,
  nat_eq, length, if◌then◌else◌,
}
use voxera_os.Base.Text.{◌+s◌, sorted, join, decimal}
use voxera_os.Base.Int.{pos}
use voxera_os.Base.Assoc.{Assoc, lookup, store, keys}
use voxera_os.Py.{Value, int, Fields}
use voxera_os.Py.Dict.{find}
use voxera_os.Automation.{
  Raising, value, raises, TriggerKind, AutomationDefinition, kind_name, is_one_shot,
  recurring_interval, validated_id_segment,
}
use voxera_os.Automation.Trigger.{touch_updated, evaluate_due_automation}
use voxera_os.Automation.Inbox.{add_inbox_payload}
use voxera_os.Automation.History.{
  RunOutcome, submitted, skipped, error, HistoryRecord, generate_run_id, summarize_payload,
  write_history_record,
}
use voxera_os.Automation.Runner.{
  Env, Disk, AutomationRunResult, Processed, process_automation_definition,
}

-- A pass over definitions, until an exception leaves it.
-- The result of one definition before those of the rest.
abbrev pub with_result :
    Raising AutomationRunResult
    → Disk
    → Raising (List AutomationRunResult) × Disk
    → Raising (List AutomationRunResult) × Disk
with_result (raises e) disk rest = (raises e, disk)
with_result (value r) disk rest =
    (elim rest.0 [ raises e ↦ raises e | value rs ↦ value (r ∷ rs) ], rest.1)

unfoldable pub process_all :
    Env → List AutomationDefinition → ℕ → Disk → Raising (List AutomationRunResult) × Disk
process_all env [] now disk = (value [], disk)
process_all env (d ∷ ds) now disk =
    let p = process_automation_definition env d now false disk in
    with_result p.result p.disk (process_all env ds now p.disk)

-- `list_automation_definitions`, in the order of the ids
abbrev pub listed : Assoc AutomationDefinition → List AutomationDefinition
listed d = present (map (λ k. lookup k d) (sorted (keys d)))

unfoldable pub run_due_automations : Env → ℕ → Disk → Raising (List AutomationRunResult) × Disk
unfolding process_all
run_due_automations env now disk = process_all env (listed disk.definitions) now disk

pub record RunnerPassResult : Type 0 where
  pub status : String
  pub message : String
  pub results : List AutomationRunResult

abbrev outcome_is : RunOutcome → RunOutcome → Bool
outcome_is submitted submitted = true
outcome_is skipped skipped = true
outcome_is error error = true
outcome_is _ _ = false

unfoldable pub count_outcome : RunOutcome → List AutomationRunResult → ℕ
count_outcome o [] = 0
count_outcome o (r ∷ rs) =
    let rest = count_outcome o rs in if outcome_is o r.outcome then suc rest else rest

abbrev counted : ℕ → String → List String
counted n words = if nat_eq n 0 then [] else (decimal n +s words) ∷ []

pub pass_message : List AutomationRunResult → String
unfolding count_outcome
pass_message rs =
    let parts =
      counted (count_outcome submitted rs) " submitted"
      ++ counted (count_outcome skipped rs) " skipped"
      ++ counted (count_outcome error rs) " errors" in
    if nat_eq (length parts) 0 then "no definitions found" else join ", " parts

abbrev pub pass_of : List AutomationRunResult → RunnerPassResult
pass_of rs = record { status = "ok"; message = pass_message rs; results = rs }

-- `run_due_automations_locked`: `held` says that another runner holds the lock.
unfoldable pub run_due_automations_locked : Env → Bool → ℕ → Disk → Raising RunnerPassResult × Disk
unfolding pass_message
run_due_automations_locked env held now disk =
    if held
    then (
      value (record {
        status = "busy";
        message = "automation runner lock is held — skipping this pass";
        results = [];
      }),
      disk,
    )
    else let (results, disk') = run_due_automations env now disk in
      (elim results [ raises e ↦ raises e | value rs ↦ value (pass_of rs) ], disk')
