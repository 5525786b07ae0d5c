-- ===== src/Automation/Runner/Laws.antt =====
-- What a run of the runner leaves behind (src/voxera/automation/runner.py).
use voxera_os.Base.{
  ℕ, String, Bool, true, false, Option, ◌≡◌, refl, ◌⊎◌, inl, inr, arith, if◌then◌else◌,
}
use voxera_os.Base.Text.{◌+s◌}
use voxera_os.Base.Assoc.{Assoc}
use voxera_os.Automation.{Raising, value, raises, AutomationDefinition, kind_name}
use voxera_os.Automation.Trigger.{evaluate_due_automation}
use voxera_os.Automation.Inbox.{add_inbox_payload}
use voxera_os.Automation.History.{
  RunOutcome, submitted, HistoryRecord, generate_run_id, summarize_payload, write_history_record,
}
use voxera_os.Automation.Runner.{
  Env, Disk, AutomationRunResult, Processed, left_alone, persist_history,
  save_automation_definition, state_update, after_write, after_save, after_emit, save_fired, fire,
  process_automation_definition,
}

abbrev pub is_submitted : Raising AutomationRunResult → Bool
is_submitted (raises e) = false
is_submitted (value r) = elim r.outcome [ submitted ↦ true | _ ↦ false ]

pub Raising-cases {ℓ} :
    {A : Type ℓ} (x : Raising A) → ((e : String) × (x ≡ raises e)) ⊎ ((a : A) × (x ≡ value a))
Raising-cases (raises e) = inl (e, refl)
Raising-cases (value a) = inr (a, refl)

-- What holds if a write of the history fails, and of all that follows one, holds of both.
after_write-elim :
    (P : Processed → Type 0) (written : Raising String) (disk : Disk)
    (next : String → Disk → Processed)
    → ((e : String) → P (record { result = raises e; disk = disk }))
    → ((ref : String) → P (next ref disk))
    → P (after_write written disk next)
after_write-elim P (raises e) disk next bad good = bad e
after_write-elim P (value name) disk next bad good = good ("history/" +s name)

pub persist_history-elim :
    (P : Processed → Type 0) (env : Env) (d : AutomationDefinition) (run_id : String) (now : ℕ)
    (outcome : RunOutcome) (job_ref : Option String) (message : String) (disk : Disk)
    (next : String → Disk → Processed)
    → ((e : String) (h : Assoc HistoryRecord)
        → P (record { result = raises e; disk = record disk { history = h } }))
    → ((ref : String) (h : Assoc HistoryRecord) → P (next ref (record disk { history = h })))
    → P (persist_history env d run_id now outcome job_ref message disk next)
unfolding persist_history
persist_history-elim P env d run_id now outcome job_ref message disk next bad good =
    let r : HistoryRecord = record {
      automation_id = d.id;
      run_id = run_id;
      triggered_at_ms = now;
      trigger_kind = kind_name d.trigger_kind;
      outcome = outcome;
      queue_job_ref = job_ref;
      message = message;
      payload_summary = summarize_payload d.payload_template;
      payload_hash = env.payload_hash d.payload_template;
    } in
    let w = write_history_record env.history_error r disk.history in
    after_write-elim P w.0 (record disk { history = w.1 }) next (λ e. bad e w.1)
      (λ ref. good ref w.1)

-- A run that is not reported as submitted leaves the definitions as they were.
abbrev Keeps : Assoc AutomationDefinition → Processed → Type 0
Keeps ds p = is_submitted p.result ≡ false → p.disk.definitions ≡ ds

after_save-Keeps :
    (env : Env) (d : AutomationDefinition) (now : ℕ) (reason run_id job_ref ref : String)
    (disk : Disk) (saved : Raising (Assoc AutomationDefinition))
    → Keeps disk.definitions (after_save env d now reason run_id job_ref ref disk saved)
unfolding after_save
after_save-Keeps env d now reason run_id job_ref ref disk (value definitions) s = ground arith
after_save-Keeps env d now reason run_id job_ref ref disk (raises e) s =
    persist_history-elim (Keeps disk.definitions) env d _ now _ _ _ disk _ (λ e h s'. refl)
      (λ r h s'. refl) s

save_fired-Keeps :
    (env : Env) (d : AutomationDefinition) (now : ℕ) (reason run_id job_ref ref : String)
    (disk : Disk) (updated : Raising AutomationDefinition)
    → Keeps disk.definitions (save_fired env d now reason run_id job_ref ref disk updated)
unfolding save_fired
save_fired-Keeps env d now reason run_id job_ref ref disk (raises e) s = refl
save_fired-Keeps env d now reason run_id job_ref ref disk (value updated) s =
    after_save-Keeps env d now reason run_id job_ref ref disk
      (save_automation_definition env now updated disk.definitions) s

after_emit-Keeps :
    (env : Env) (d : AutomationDefinition) (now : ℕ) (reason run_id : String) (disk : Disk)
    (emitted : Raising String)
    → Keeps disk.definitions (after_emit env d now reason run_id disk emitted)
unfolding after_emit
after_emit-Keeps env d now reason run_id disk (raises e) s =
    persist_history-elim (Keeps disk.definitions) env d _ now _ _ _ disk _ (λ e h s'. refl)
      (λ r h s'. refl) s
after_emit-Keeps env d now reason run_id disk (value job_ref) s =
    persist_history-elim (Keeps disk.definitions) env d _ now _ _ _ disk _ (λ e h s'. refl)
      (λ r h.
        save_fired-Keeps env d now reason run_id job_ref r (record disk { history = h })
          (state_update d now job_ref r))
      s

fire-Keeps :
    (env : Env) (d : AutomationDefinition) (now : ℕ) (reason : String) (disk : Disk)
    → Keeps disk.definitions (fire env d now reason disk)
unfolding fire
fire-Keeps env d now reason disk =
    let run_id = generate_run_id env.digest d.id now in
    let w = add_inbox_payload env.enrich env.inbox_error run_id d.payload_template disk.inbox in
    after_emit-Keeps env d now reason run_id (record disk { inbox = w.1 }) w.0

chosen-Keeps :
    (env : Env) (d : AutomationDefinition) (now : ℕ) (disk : Disk) (due : Bool) (reason : String)
    → Keeps disk.definitions (if due then fire env d now reason disk else left_alone d reason disk)
chosen-Keeps env d now disk true reason s = fire-Keeps env d now reason disk s
chosen-Keeps env d now disk false reason s = refl

-- Whatever fails, a run of a definition that is not reported as submitted, or that an exception
-- leaves, keeps every saved definition as it was.
pub process-keeps :
    (env : Env) (d : AutomationDefinition) (now : ℕ) (force : Bool) (disk : Disk)
    → is_submitted (process_automation_definition env d now force disk).result ≡ false
    → (process_automation_definition env d now force disk).disk.definitions ≡ disk.definitions
unfolding process_automation_definition
process-keeps env d now force disk =
    let e = evaluate_due_automation d now force in chosen-Keeps env d now disk e.0 e.1
