-- ===== src/Queue/Execution/Intake/Laws.antt =====
-- A job that demands an approval is not run before it has one
-- (src/voxera/core/queue_execution.py, src/voxera/core/queue_approvals.py).
use voxera_os.Base.{
  Bool, true, false, not, Option, none, some, ◌≡◌, refl, ◌∙◌, arith, ◌==◌, Bool-cases, inl, inr,
  if◌then◌else◌,
}
use voxera_os.Py.{Fields}
use voxera_os.Automation.{Raising, value, raises}
use voxera_os.Queue.Disk.{Dir, FilePath, exists, same_dir}
use voxera_os.Queue.Names.{is_primary_job_json}
use voxera_os.Queue.Requests.{ChildRequest, extract_enqueue_child_request, detect_request_kind}
use voxera_os.Queue.Lifecycle.{Env, Queue, state_only}
use voxera_os.Queue.Steps.{M, ◌>>=◌, ret, set_state, move, note, write_file, remove_file}
use voxera_os.Queue.Gate.{
  is_hard_approval_required, ensure_hard_approval_gate, gate_in_pending, gate_moved,
}
use voxera_os.Queue.Execution.Host.{Host}
use voxera_os.Queue.Execution.Runs.{
  Quiet, >>-Quiet, either-Quiet, ret-Quiet, set_state-Quiet, fail_job-Quiet,
}
use voxera_os.Queue.Execution.Intake.{
  Taken, ended, rejected, accepted, sanitized_payload, load_job_payload_with_retry, gated,
  requested, take_payload, invalid_job, taken, intake, planning, process_job_file,
}

-- What the gate answers: that the job waits.
record Holds (m : M Bool) : Type 0 where
  waits : (q : Queue) → (b : Bool) → (m q).0 ≡ value b → b ≡ true
  quiet : (q : Queue) → (m q).1.runs ≡ q.runs

gate_in_pending-Holds :
    (env : Env) (job : FilePath) (payload : Fields) → Holds (gate_in_pending env job payload)
unfolding gate_in_pending write_file remove_file set_state note
gate_in_pending-Holds env job payload = record {
  waits = λ q b h. ground arith;
  quiet = λ q. ground arith;
}

gate_moved-Holds :
    (env : Env) (payload : Fields) (o : Option FilePath) → Holds (gate_moved env payload o)
gate_moved-Holds env payload none = record { waits = λ q b h. ground arith; quiet = λ q. refl }
gate_moved-Holds env payload (some job) = gate_in_pending-Holds env job payload

moving-Holds :
    (env : Env) (job : FilePath) (payload : Fields)
    → Holds (move env job Dir.pending >>= gate_moved env payload)
unfolding move
moving-Holds env job payload = record {
  waits = λ q b h. (gate_moved-Holds env payload _).waits _ b h;
  quiet = λ q. (gate_moved-Holds env payload _).quiet _;
}

gate-Holds :
    (env : Env) (job : FilePath) (payload : Fields)
    → is_hard_approval_required payload ≡ true
    → Holds (ensure_hard_approval_gate env job payload)
unfolding ensure_hard_approval_gate
gate-Holds env job payload required = rw required (elim (Bool-cases (same_dir job.dir Dir.inbox)) [
  | inl arrived ↦ rw arrived (moving-Holds env job payload)
  | inr elsewhere ↦ rw elsewhere (gate_in_pending-Holds env job payload)
])

-- What comes of a job, where it is not to be run, and the queue then.
abbrev Stops : Queue → Taken × Queue → Type 0
Stops q (accepted payload child, q') = ⊥
Stops q (ended answer, q') = q'.runs ≡ q.runs
Stops q (rejected payload e, q') = q'.runs ≡ q.runs

gated-Stops :
    (payload : Fields) (child : Option ChildRequest) (q : Queue) (r : Raising Bool) (q' : Queue)
    → ((b : Bool) → r ≡ value b → b ≡ true)
    → q'.runs ≡ q.runs
    → Stops q (gated payload child (r, q'))
gated-Stops payload child q (value true) q' h same = same
gated-Stops payload child q (value false) q' h same = cc (h false refl)
gated-Stops payload child q (raises e) q' h same = same

requested-Stops :
    (env : Env) (job : FilePath) (n : Fields) (c : Raising (Option ChildRequest)) (q : Queue)
    → is_hard_approval_required n ≡ true
    → Stops q (requested env job n c q)
requested-Stops env job n (raises e) q required = refl
requested-Stops env job n (value child) q required =
    let holds = gate-Holds env job n required in
    gated-Stops n child q (ensure_hard_approval_gate env job n q).0
      (ensure_hard_approval_gate env job n q).1 (holds.waits q) (holds.quiet q)

taken-Stops :
    (env : Env) (host : Host) (job : FilePath) (q : Queue) (t : Taken) (q' : Queue)
    → Stops q (t, q')
    → (taken env host job t q').1.runs ≡ q.runs
unfolding taken
taken-Stops env host job q (ended answer) q' same = same
taken-Stops env host job q (rejected payload e) q' same =
    (fail_job-Quiet env host job (invalid_job host payload e)).same q' ∙ same
taken-Stops env host job q (accepted payload child) q' same = absurd same

module _ (env : Env) (host : Host) (job : FilePath) (raw n : Fields)
    (read_as : load_job_payload_with_retry host job ≡ value raw)
    (no_question : (detect_request_kind (sanitized_payload host raw) == "assistant_question")
      ≡ false)
    (normal : host.normalize (sanitized_payload host raw) ≡ value n)
    (required : is_hard_approval_required n ≡ true) where
  intake-Quiet : Quiet (intake env host job)
  unfolding intake take_payload
  intake-Quiet = record {
    same = λ q. rw read_as (
        rw no_question (
          rw normal (
            taken-Stops env host job q _ _
              (requested-Stops env job n (extract_enqueue_child_request n) q required))));
  }

  shut_or_intake-Quiet : Quiet (if host.shutdown_before then ret false else intake env host job)
  shut_or_intake-Quiet =
      either-Quiet host.shutdown_before (ret false) (intake env host job) (ret-Quiet false)
        intake-Quiet

  planning-Quiet : Quiet (planning env host job)
  planning-Quiet =
      >>-Quiet (set_state env job (state_only "planning" none))
        (if host.shutdown_before then ret false else intake env host job)
        (set_state-Quiet env job (state_only "planning" none)) shut_or_intake-Quiet

either_runs :
    (b : Bool) (q : Queue) (r s : Raising Bool × Queue)
    → r.1.runs ≡ q.runs
    → s.1.runs ≡ q.runs
    → (if b then r else s).1.runs ≡ q.runs
either_runs true q r s h k = h
either_runs false q r s h k = k

-- A job whose payload is read and normalised, demands an approval, and is no question to the
-- assistant, is not run: nothing is given to the mission runner when it is processed.
pub process_job_file-gated :
    (env : Env) (host : Host) (job : FilePath) (q : Queue) (raw n : Fields)
    → load_job_payload_with_retry host job ≡ value raw
    → (detect_request_kind (sanitized_payload host raw) == "assistant_question") ≡ false
    → host.normalize (sanitized_payload host raw) ≡ value n
    → is_hard_approval_required n ≡ true
    → (process_job_file env host job q).1.runs ≡ q.runs
unfolding process_job_file
process_job_file-gated env host job q raw n read_as no_question normal required =
    let start_quiet =
      >>-Quiet (set_state env job (state_only "queued" none)) (planning env host job)
        (set_state-Quiet env job (state_only "queued" none))
        (planning-Quiet env host job raw n read_as no_question normal required) in
    either_runs (not (exists job q.files)) q (value false, q) _ refl
      (either_runs (not (is_primary_job_json job.name)) q (value false, q) _ refl
        (start_quiet.same q))
