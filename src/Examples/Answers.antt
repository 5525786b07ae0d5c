-- ===== src/Examples/Answers.antt =====
-- Answers to an approval on concrete inputs (src/voxera/core/queue_approvals.py).
use voxera_os.Base.{true, false, some, [], ◌∷◌, ◌≡◌, refl, inr}
use voxera_os.Base.Text.{strip, lower, has_substring}
use voxera_os.Base.Text.Affix.{remove_suffix, remove_prefix, replace_all}
use voxera_os.Py.{Value, text, object, Fields, end, field, truthy}
use voxera_os.Py.Dict.{get, find, put, has}
use voxera_os.Automation.{value, raises}
use voxera_os.Mission.{MissionStep, MissionTemplate}
use voxera_os.Queue.State.{
  nat_value, update_job_state_snapshot, int_of, counter, normalized_lifecycle,
  resolved_reason_class, resolved_terminal, snapshot,
}
use voxera_os.Queue.Disk.{
  pending, FilePath, at, stem, read, exists, same_path, write, move_job, replace, move_target,
  unlink, suffix,
}
use voxera_os.Queue.Names.{ends_with, base_name}
use voxera_os.Queue.Lifecycle.{update_job_state, job_state_sidecar_path, read_job_state}
use voxera_os.Queue.Steps.{
  set_state, write_file, remove_file, move, failed_sidecar, note, count_failed, prune,
}
use voxera_os.Queue.Sidecar.{write_failed_error_sidecar, validate_failed_error_sidecar}
use voxera_os.Queue.Gate.{write_pending_artifacts, resumption}
use voxera_os.Queue.Answer.{
  waiting_for, waiting_at, approval_ref_candidates, resolve_pending_approval_paths,
}
use voxera_os.Queue.Answer.Stored.{read_meta, resume_step, denied_total, denied_template}
use voxera_os.Queue.Answer.Desk.{DeskHost, Desk, remove_waiting}
use voxera_os.Queue.Answer.Resume.{announce, add_step, resumed_key}
use voxera_os.Queue.Answer.Resolve.{resolve_approval}
use voxera_os.Queue.Answer.Deny.{deny, deny_moved, denied_data}
use voxera_os.Queue.Answer.Resolve.Laws.{waiting_desk, resolve_approval-resumes}
use voxera_os.Models.{SkillManifest, Verdict}
use voxera_os.Policy.{PolicyDecision}
use voxera_os.Queue.Approvals.{Daemon, queue_approval_prompt}
use voxera_os.Queue.Approvals.Laws.{lets_run}
use voxera_os.Queue.Answer.Resolve.Prompt.{approved_step_runs}
use voxera_os.Examples.Samples.{open_url_skill}
use voxera_os.Examples.Jobs.{sample_env}
use voxera_os.Examples.Runs.{unknown_skill}

abbrev waiting_job : FilePath
waiting_job = at pending "notes.json"

abbrev notes_step : MissionStep
notes_step = record { skill_id = "system.open_app"; args = end }

abbrev notes_mission : MissionTemplate
notes_mission = record {
  id = "notes";
  title = "Notes";
  goal = "open notes";
  steps = notes_step ∷ [];
}

abbrev notes_goal : Fields
notes_goal = field "goal" (text "open notes") end

abbrev desk_host : DeskHost
desk_host = record {
  path_text = λ p. p.name;
  recent = λ names. names;
  build_mission = λ d. inr unknown_skill;
  run = λ ks gs n m. (raises "RuntimeError()", ks);
  prune = λ fs. fs;
}

abbrev empty_desk : Desk
empty_desk = record {
  queue = record {
    files = (waiting_job, some (object notes_goal)) ∷ [];
    artifacts = [];
    runs = [];
    processed = 0;
    failures = 0;
  };
  approved_steps = [];
  grants = [];
  starts = [];
}

abbrev at_first_step : Fields
at_first_step = field "step" (nat_value 1) end

notes_found :
    resolve_pending_approval_paths desk_host.recent "notes"
      (waiting_desk sample_env waiting_job notes_goal notes_mission at_first_step
        empty_desk).queue.files
    ≡ value (waiting_for waiting_job (stem "notes.json"))
unfolding resolve_pending_approval_paths approval_ref_candidates waiting_at remove_suffix
    remove_prefix replace_all base_name stem strip has_substring ends_with exists read same_path
    waiting_desk write_pending_artifacts write_file write truthy get find int_of
notes_found = refl

notes_told :
    (announce sample_env waiting_job
      (some notes_goal)
      notes_mission
      1
      (waiting_desk sample_env waiting_job notes_goal notes_mission at_first_step
        empty_desk).queue).0
    ≡ value tt
unfolding announce set_state update_job_state update_job_state_snapshot int_of counter truthy get
    find read waiting_desk write_pending_artifacts write_file write same_path stem
    job_state_sidecar_path read_job_state exists normalized_lifecycle resolved_reason_class
    resolved_terminal put has_substring strip lower snapshot
notes_told = refl

abbrev notes_desk : Desk
notes_desk = waiting_desk sample_env waiting_job notes_goal notes_mission at_first_step empty_desk

resolve_approval-resumes_example :
    (resolve_approval sample_env desk_host "notes" true false notes_desk).1.starts
    ≡ record {
      mission = notes_mission;
      step = 1;
      approved = add_step (resumed_key desk_host waiting_job notes_mission 1) [];
    }
      ∷ []
unfolding find
resolve_approval-resumes_example =
    resolve_approval-resumes sample_env desk_host "notes" false waiting_job notes_goal notes_mission
      at_first_step 0 empty_desk refl notes_found (λ e. cc) notes_told

abbrev notes_meta : Value
notes_meta = object (resumption waiting_job notes_goal notes_mission 1)

notes_denied : (resolve_approval sample_env desk_host "notes" false false notes_desk).0 ≡ value true
unfolding resolve_approval deny read_meta resolve_pending_approval_paths approval_ref_candidates
    waiting_at remove_suffix remove_prefix replace_all base_name stem strip has_substring ends_with
    exists read same_path waiting_desk write_pending_artifacts write_file write truthy get find
    int_of move move_job replace move_target deny_moved resume_step resumption denied_total
    denied_data denied_template failed_sidecar write_failed_error_sidecar
    validate_failed_error_sidecar has note count_failed set_state update_job_state
    update_job_state_snapshot job_state_sidecar_path read_job_state counter normalized_lifecycle
    resolved_reason_class resolved_terminal snapshot put lower prune remove_file remove_waiting
    unlink suffix
notes_denied = refl

abbrev notes_daemon : Daemon
notes_daemon = record {
  current_job_ref = "notes.json";
  auto_approve_ask = false;
  dev_mode = false;
  redact_args = λ args. object args;
}

abbrev opening : PolicyDecision
opening = record { decision = Verdict.ask; reason = "apps.open -> ask" }

abbrev open_app_skill : SkillManifest
open_app_skill = record open_url_skill { id = "system.open_app" }

approved_step_runs_example :
    lets_run
      (queue_approval_prompt notes_daemon open_app_skill opening at_first_step end (record {
        approved_steps = add_step (resumed_key desk_host waiting_job notes_mission 1) [];
        grants = [];
      })).0
    ≡ true
unfolding get find
approved_step_runs_example =
    approved_step_runs desk_host waiting_job notes_mission [] [] notes_step refl notes_daemon
      open_app_skill opening at_first_step end [] [] refl refl refl
