-- ===== src/Automation/Runner/Fires.antt =====
-- What a submitted run saves, and what the next runs make of it
-- (src/voxera/automation/runner.py and store.py).
use voxera_os.Base.{
  ℕ, ◌+◌, String, Bool, true, false, not, some, ◌≡◌, refl, subst, arith, ltb, if◌then◌else◌,
  eq_refl,
}
use voxera_os.Base.Text.{strip}
use voxera_os.Base.Assoc.{Assoc, lookup, lookup-store}
use voxera_os.Automation.{
  Raising, value, raises, AutomationDefinition, is_one_shot, recurring_interval,
  validated_id_segment,
}
use voxera_os.Automation.Trigger.{
  touch_updated, evaluate_due_automation, compute_due_anchor_ms, at_anchor,
}
use voxera_os.Automation.Inbox.{add_inbox_payload}
use voxera_os.Automation.History.{generate_run_id}
use voxera_os.Automation.Runner.{
  Env, Disk, Processed, left_alone, save_automation_definition, state_update, after_save,
  after_emit, save_fired, fire, process_automation_definition, interval_ms,
}
use voxera_os.Automation.Runner.Laws.{is_submitted, persist_history-elim}

-- The definition that a submitted run saves.
pub record IsSaved (d : AutomationDefinition) (now : ℕ) (before after : Assoc AutomationDefinition)
    : Type 0 where
  pub job_ref : String
  pub history_ref : String
  pub updated : AutomationDefinition
  pub state : state_update d now job_ref history_ref ≡ value updated
  pub stored : lookup (strip updated.id) after ≡ some (touch_updated now updated)

abbrev Saves : AutomationDefinition → ℕ → Assoc AutomationDefinition → Processed → Type 0
Saves d now ds p = is_submitted p.result ≡ true → IsSaved d now ds p.disk.definitions

save-stored :
    (env : Env) (now : ℕ) (d : AutomationDefinition) (ds after : Assoc AutomationDefinition)
    → save_automation_definition env now d ds ≡ value after
    → lookup (strip d.id) after ≡ some (touch_updated now d)
unfolding save_automation_definition validated_id_segment
save-stored env now d ds after h =
    ground
      (arith, lookup-store (strip d.id) (strip d.id) (touch_updated now d) ds, eq_refl (strip d.id))

after_save-Saves :
    (env : Env) (d : AutomationDefinition) (now : ℕ) (reason run_id job_ref ref : String)
    (disk : Disk) (updated : AutomationDefinition) (saved : Raising (Assoc AutomationDefinition))
    → state_update d now job_ref ref ≡ value updated
    → save_automation_definition env now updated disk.definitions ≡ saved
    → Saves d now disk.definitions (after_save env d now reason run_id job_ref ref disk saved)
unfolding after_save
after_save-Saves env d now reason run_id job_ref ref disk updated (value after) state saved s =
    record {
      job_ref = job_ref;
      history_ref = ref;
      updated = updated;
      state = state;
      stored = save-stored env now updated disk.definitions after saved;
    }
after_save-Saves env d now reason run_id job_ref ref disk updated (raises e) state saved s =
    persist_history-elim (Saves d now disk.definitions) env d _ now _ _ _ disk _
      (λ e' h s'. ground arith) (λ r h s'. ground arith) s

save_fired-Saves :
    (env : Env) (d : AutomationDefinition) (now : ℕ) (reason run_id job_ref ref : String)
    (disk : Disk) (updated : Raising AutomationDefinition)
    → state_update d now job_ref ref ≡ updated
    → Saves d now disk.definitions (save_fired env d now reason run_id job_ref ref disk updated)
unfolding save_fired
save_fired-Saves env d now reason run_id job_ref ref disk (raises e) state s = ground arith
save_fired-Saves env d now reason run_id job_ref ref disk (value updated) state s =
    after_save-Saves env d now reason run_id job_ref ref disk updated _ state refl s

after_emit-Saves :
    (env : Env) (d : AutomationDefinition) (now : ℕ) (reason run_id : String) (disk : Disk)
    (emitted : Raising String)
    → Saves d now disk.definitions (after_emit env d now reason run_id disk emitted)
unfolding after_emit
after_emit-Saves env d now reason run_id disk (raises e) s =
    persist_history-elim (Saves d now disk.definitions) env d _ now _ _ _ disk _
      (λ e' h s'. ground arith) (λ r h s'. ground arith) s
after_emit-Saves env d now reason run_id disk (value job_ref) s =
    persist_history-elim (Saves d now disk.definitions) env d _ now _ _ _ disk _
      (λ e' h s'. ground arith)
      (λ r h.
        save_fired-Saves env d now reason run_id job_ref r (record disk { history = h })
          (state_update d now job_ref r) refl)
      s

chosen-Saves :
    (env : Env) (d : AutomationDefinition) (now : ℕ) (disk : Disk) (due : Bool) (reason : String)
    → Saves d now disk.definitions
        (if due then fire env d now reason disk else left_alone d reason disk)
unfolding fire
chosen-Saves env d now disk true reason s =
    let run_id = generate_run_id env.digest d.id now in
    let w = add_inbox_payload env.enrich env.inbox_error run_id d.payload_template disk.inbox in
    after_emit-Saves env d now reason run_id (record disk { inbox = w.1 }) w.0 s
chosen-Saves env d now disk false reason s = ground arith

pub process-IsSaved :
    (env : Env) (d : AutomationDefinition) (now : ℕ) (force : Bool) (disk : Disk)
    → is_submitted (process_automation_definition env d now force disk).result ≡ true
    → IsSaved d now disk.definitions
        (process_automation_definition env d now force disk).disk.definitions
unfolding process_automation_definition
process-IsSaved env d now force disk =
    let e = evaluate_due_automation d now force in chosen-Saves env d now disk e.0 e.1

one_shot_update :
    (d : AutomationDefinition) (now : ℕ) (job_ref ref : String) (updated : AutomationDefinition)
    → is_one_shot d.trigger_kind ≡ true
    → state_update d now job_ref ref ≡ value updated
    → (updated.id ≡ d.id) × (updated.enabled ≡ false)
unfolding state_update
one_shot_update d now job_ref ref updated once h = ground arith

disabled_left_alone :
    (env : Env) (d : AutomationDefinition) (now : ℕ) (force : Bool) (disk : Disk)
    → d.enabled ≡ false
    → process_automation_definition env d now force disk
      ≡ left_alone d "definition is disabled" disk
unfolding process_automation_definition evaluate_due_automation
disabled_left_alone env d now force disk off = rw off refl

-- A one-shot definition fires at most once: after a run that is reported as submitted, its saved
-- definition is disabled, and any later run of that, forced or not, leaves it and the disk alone.
pub fires_once :
    (env : Env) (d : AutomationDefinition) (now : ℕ) (force : Bool) (disk : Disk) (env' : Env)
    (now' : ℕ) (force' : Bool) (disk' : Disk)
    → is_one_shot d.trigger_kind ≡ true
    → is_submitted (process_automation_definition env d now force disk).result ≡ true
    → (saved : AutomationDefinition) × (lookup
          (strip d.id)
          (process_automation_definition env d now force disk).disk.definitions
        ≡ some saved)
      × (process_automation_definition env' saved now' force' disk'
          ≡ left_alone saved "definition is disabled" disk')
unfolding touch_updated
fires_once env d now force disk env' now' force' disk' once s =
    let after = (process_automation_definition env d now force disk).disk.definitions in
    let h = process-IsSaved env d now force disk s in
    let (same, off) = one_shot_update d now h.job_ref h.history_ref h.updated once h.state in
    (
      touch_updated now h.updated,
      subst (λ i. lookup (strip i) after ≡ some (touch_updated now h.updated)) same h.stored,
      disabled_left_alone env' (touch_updated now h.updated) now' force' disk' off,
    )

recurring_update :
    (d : AutomationDefinition) (now n : ℕ) (job_ref ref : String) (updated : AutomationDefinition)
    → d.trigger_kind ≡ recurring_interval
    → interval_ms d.trigger_config ≡ value n
    → state_update d now job_ref ref ≡ value updated
    → (updated.id ≡ d.id)
      × (updated.enabled ≡ true)
      × (updated.trigger_kind ≡ recurring_interval)
      × (updated.next_run_at_ms ≡ some (now + n))
unfolding state_update
recurring_update d now n job_ref ref updated kind interval h = ground arith

due_at :
    (d : AutomationDefinition) (now anchor : ℕ)
    → d.enabled ≡ true
    → d.trigger_kind ≡ recurring_interval
    → d.next_run_at_ms ≡ some anchor
    → (evaluate_due_automation d now false).0 ≡ not (ltb now anchor)
unfolding evaluate_due_automation compute_due_anchor_ms at_anchor
due_at d now anchor on kind next = ground arith

-- A recurring definition is re-armed from the time that it fired: after a run that is reported as
-- submitted, its saved definition is due from one interval after that time on, and not before.
pub fires_again :
    (env : Env) (d : AutomationDefinition) (now n : ℕ) (force : Bool) (disk : Disk) (now' : ℕ)
    → d.trigger_kind ≡ recurring_interval
    → interval_ms d.trigger_config ≡ value n
    → is_submitted (process_automation_definition env d now force disk).result ≡ true
    → (saved : AutomationDefinition) × (lookup
          (strip d.id)
          (process_automation_definition env d now force disk).disk.definitions
        ≡ some saved)
      × ((evaluate_due_automation saved now' false).0 ≡ not (ltb now' (now + n)))
unfolding touch_updated
fires_again env d now n force disk now' kind interval s =
    let after = (process_automation_definition env d now force disk).disk.definitions in
    let h = process-IsSaved env d now force disk s in
    let (same, on, kind', next) =
      recurring_update d now n h.job_ref h.history_ref h.updated kind interval h.state in
    (
      touch_updated now h.updated,
      subst (λ i. lookup (strip i) after ≡ some (touch_updated now h.updated)) same h.stored,
      due_at (touch_updated now h.updated) now' (now + n) on kind' next,
    )
