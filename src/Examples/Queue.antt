-- ===== src/Examples/Queue.antt =====
-- Snapshots of a sample job.
use voxera_os.Base.{ℕ, String, true, Option, none, some, ◌≡◌, refl, ◌==◌, if◌then◌else◌}
use voxera_os.Base.Text.{strip, lower, has_substring}
use voxera_os.Base.Int.{pos}
use voxera_os.Py.{Fields, end, field, int, truthy, object}
use voxera_os.Py.Dict.{get, find}
use voxera_os.Base.{false, [], ◌∷◌}
use voxera_os.Models.{Verdict}
use voxera_os.Policy.{PolicyDecision}
use voxera_os.Queue.Approvals.{
  Approvals, Daemon, before, decision_capability, has_approval_grant, grant_for, auto_approved,
  queue_approval_prompt,
}
use voxera_os.Queue.Approvals.Asked.{Answered, queue_approval_prompt-Answered}
use voxera_os.Queue.Approvals.Laws.{lets_run, prompt-once}
use voxera_os.Examples.Samples.{open_url_skill}
use voxera_os.Queue.State.{
  Update, normalized_lifecycle, int_of, counter, resolved_terminal, snapshot,
  update_job_state_snapshot, nat_value, dict_or,
}
use voxera_os.Queue.State.Laws.{IsLegal, update_job_state_snapshot-IsLegal, update-keeps_history}

abbrev to_state : String → Update
to_state state = record {
  lifecycle_state = state;
  payload = none;
  mission = none;
  rr_data = none;
  terminal_outcome = none;
  failure_summary = none;
  blocked_reason = none;
  blocked_reason_class = none;
  approval_status = none;
}

abbrev made : Update → Fields → ℕ → Option Fields
made u current now = update_job_state_snapshot "job-1" u current now

abbrev or_end : Option Fields → Fields
or_end none = end
or_end (some d) = d

abbrev queued : Fields
queued = or_end (made (to_state "queued") end 1000)

abbrev finished : Fields
finished = or_end (made (to_state " DONE ") queued 2000)

queued_made : made (to_state "queued") end 1000 ≡ some queued
unfolding update_job_state_snapshot int_of counter resolved_terminal get find truthy
    normalized_lifecycle strip lower
queued_made = refl

finished_made : made (to_state " DONE ") queued 2000 ≡ some finished
unfolding update_job_state_snapshot int_of counter resolved_terminal snapshot get find truthy
    normalized_lifecycle strip lower
finished_made = refl

has_started : truthy (get "started_at_ms" queued) ≡ true
unfolding update_job_state_snapshot int_of counter resolved_terminal snapshot get find truthy
    normalized_lifecycle strip lower
has_started = refl

update_job_state_snapshot-IsLegal_example : IsLegal (to_state " DONE ") 2000 finished
update_job_state_snapshot-IsLegal_example =
    update_job_state_snapshot-IsLegal "job-1" (to_state " DONE ") queued 2000 finished finished_made

update-keeps_history_example :
    (get "started_at_ms" finished ≡ get "started_at_ms" queued)
    × (find "queued" (dict_or (get "transitions" finished) end) ≡ (
        if normalized_lifecycle " DONE " == "queued"
        then some (nat_value 2000)
        else find "queued" (dict_or (get "transitions" queued) end)))
update-keeps_history_example =
    update-keeps_history "job-1" (to_state "queued") (to_state " DONE ") end queued finished 1000
      2000 "queued" queued_made finished_made has_started

abbrev sample_daemon : Daemon
sample_daemon = record {
  current_job_ref = "job-1.json";
  auto_approve_ask = true;
  dev_mode = true;
  redact_args = λ d. object d;
}

-- The policy allows to open an application, and asks about the network.
abbrev sample_decision : PolicyDecision
sample_decision = record {
  decision = Verdict.ask;
  reason = "apps.open -> allow; network.change -> ask";
}

abbrev sample_context : Fields
sample_context = field "step" (int (pos 2)) end

abbrev sample_approvals : Approvals
sample_approvals = record {
  approved_steps = record { job = "job-1.json"; step = 2; skill_id = "system.open_url" } ∷ [];
  grants = [];
}

first_capability : decision_capability sample_decision.reason ≡ "apps.open"
unfolding decision_capability before strip has_substring
first_capability = refl

not_automatic : auto_approved sample_daemon sample_decision ≡ false
unfolding auto_approved decision_capability before strip has_substring
not_automatic = refl

no_grant :
    has_approval_grant (grant_for open_url_skill sample_decision) sample_approvals.grants ≡ false
unfolding has_approval_grant
no_grant = refl

queue_approval_prompt-Answered_example :
    Answered sample_daemon open_url_skill sample_decision sample_context sample_approvals end (
      queue_approval_prompt sample_daemon open_url_skill sample_decision sample_context end
        sample_approvals)
queue_approval_prompt-Answered_example =
    queue_approval_prompt-Answered sample_daemon open_url_skill sample_decision sample_context end
      sample_approvals

prompt-once_example :
    lets_run
      (queue_approval_prompt sample_daemon open_url_skill sample_decision sample_context end
        (queue_approval_prompt sample_daemon open_url_skill sample_decision sample_context end
          sample_approvals).1).0
    ≡ false
prompt-once_example =
    prompt-once sample_daemon open_url_skill sample_decision sample_context end sample_approvals
      no_grant not_automatic
