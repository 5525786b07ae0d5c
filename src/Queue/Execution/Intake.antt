-- ===== src/Queue/Execution/Intake.antt =====
-- `process_job_file` of src/voxera/core/queue_execution.py: whether a file of the inbox is a job,
-- what it asks for, and the gate before it is run. What `try` catches there fails the job.
pub mod Laws
use voxera_os.Base.{
  ℕ, zero, suc, String, Bool, true, false, not, Option, none, some, List, [], ◌∷◌, ◌==◌,
  if◌then◌else◌,
}
use voxera_os.Base.Text.{◌+s◌}
use voxera_os.Py.{Value, null, object, Fields, end}
use voxera_os.Py.Dict.{get, put}
use voxera_os.Py.Str.{repr_text}
use voxera_os.Automation.{Raising, value, raises}
use voxera_os.Queue.Disk.{FilePath, exists}
use voxera_os.Queue.Names.{is_primary_job_json}
use voxera_os.Queue.Requests.{ChildRequest, extract_enqueue_child_request, detect_request_kind}
use voxera_os.Queue.Lifecycle.{Env, Queue, Artifact, state_only}
use voxera_os.Queue.Steps.{M, ◌>>=◌, ◌>>◌, ret, set_state, note}
use voxera_os.Queue.Gate.{ensure_hard_approval_gate}
use voxera_os.Queue.Execution.Host.{
  Read, parsed, malformed, unreadable, Intent, Host, Job, Progress,
}
use voxera_os.Queue.Execution.Endings.{Failure, fail_job, failed_before_run}
use voxera_os.Queue.Execution.Loop.{run_job}

abbrev an_object : Value → Raising Fields
an_object (object d) = value d
an_object _ = raises "ValueError('job payload must be a JSON object')"

-- The attempts that are left after a text that does not parse; any other exception ends them.
load_from : ℕ → ℕ → (ℕ → Read) → Raising Fields
load_from zero attempt reads = elim (reads attempt) [
  | parsed v ↦ an_object v
  | malformed e ↦ raises e
  | unreadable e ↦ raises e
]
load_from (suc left) attempt reads = elim (reads attempt) [
  | parsed v ↦ an_object v
  | malformed e ↦ load_from left (suc attempt) reads
  | unreadable e ↦ raises e
]

abbrev parse_retry_attempts : ℕ
parse_retry_attempts = 4

-- `_load_job_payload_with_retry`
unfoldable pub load_job_payload_with_retry : Host → FilePath → Raising Fields
unfolding load_from
load_job_payload_with_retry host job = load_from 3 1 (host.reads job)

abbrev routed : (Fields → Fields) → Value → Fields → Fields
routed f (object d) payload = put "_simple_intent" (object (f d)) payload
routed f _ payload = payload

abbrev pub sanitized_payload : Host → Fields → Fields
sanitized_payload host payload = routed host.sanitize_route (get "_simple_intent" payload) payload

-- What comes of a job before the loop: the answer, its failure with the payload read so far, or the
-- payload to run with the child that it asks for.
pub data Taken : Type 0 where
  ended : Bool → Taken
  rejected : Option Fields → String → Taken
  accepted : Fields → Option ChildRequest → Taken

abbrev assisted : Fields → Raising Bool × Queue → Taken × Queue
assisted payload (value answer, q) = (ended answer, q)
assisted payload (raises e, q) = (rejected (some payload) e, q)

abbrev pub gated : Fields → Option ChildRequest → Raising Bool × Queue → Taken × Queue
gated payload child (value true, q) = (ended false, q)
gated payload child (value false, q) = (accepted payload child, q)
gated payload child (raises e, q) = (rejected (some payload) e, q)

abbrev pub requested :
    Env → FilePath → Fields → Raising (Option ChildRequest) → Queue → Taken × Queue
requested env job payload (raises e) q = (
  rejected (some payload)
      ("ValueError(" +s repr_text ("invalid enqueue_child request: " +s e) +s ")"),
  q,
)
requested env job payload (value child) q =
    gated payload child (ensure_hard_approval_gate env job payload q)

abbrev pub normalized : Env → FilePath → Fields → Raising Fields → Queue → Taken × Queue
normalized env job payload (raises e) q = (rejected (some payload) e, q)
normalized env job payload (value n) q = requested env job n (extract_enqueue_child_request n) q

-- A question to the assistant, or a job for the loop.
unfoldable pub take_payload : Env → Host → FilePath → Fields → Queue → Taken × Queue
take_payload env host job payload q =
    let ask : M Bool =
      note job (Artifact.action "assistant_fast_lane_evaluated") >> host.assistant job payload in
    if detect_request_kind payload == "assistant_question"
    then assisted payload (ask q)
    else normalized env job payload (host.normalize payload) q

abbrev pub loaded_payload : Env → Host → FilePath → Raising Fields → Queue → Taken × Queue
loaded_payload env host job (raises e) q = (rejected none e, q)
loaded_payload env host job (value raw) q = take_payload env host job (sanitized_payload host raw) q

unfoldable pub invalid_job : Host → Option Fields → String → Failure
unfolding failed_before_run
invalid_job host payload e =
    let first : Progress = record { attempts = 1; replans = 0; previous = none } in
    record {
      error = e;
      payload = payload;
      outcome = "failed";
      rr_data = failed_before_run host first 0 "terminal_failure" "job_invalid" "job_invalid" end;
      update = record (state_only "step_failed" (some "failed")) {
        payload = payload;
        failure_summary = some e;
      };
      actions = [];
    }

-- A goal is classified, and the plan then held to what it is.
unfoldable pub start_job : Env → Host → FilePath → Fields → Option ChildRequest → M Bool
start_job env host job payload child =
    let kind = detect_request_kind payload in
    let intent = host.classify payload in
    let goal : Job = record {
      path = job;
      payload = put "_simple_intent" (object (host.sanitize_route intent.as_dict)) payload;
      kind = kind;
      intent = some intent;
      child = child;
    } in
    let other : Job = record {
      path = job;
      payload = payload;
      kind = kind;
      intent = none;
      child = child;
    } in
    if kind == "goal"
    then note job (Artifact.action "queue_simple_intent_routed") >> run_job env host goal
    else run_job env host other

unfoldable pub taken : Env → Host → FilePath → Taken → M Bool
taken env host job (ended answer) = ret answer
taken env host job (rejected payload e) = fail_job env host job (invalid_job host payload e)
taken env host job (accepted payload child) = start_job env host job payload child

unfoldable pub intake : Env → Host → FilePath → M Bool
intake env host job q =
    let (t, q') = loaded_payload env host job (load_job_payload_with_retry host job) q in
    taken env host job t q'

abbrev pub planning : Env → Host → FilePath → M Bool
planning env host job = do
  set_state env job (state_only "planning" none)
  if host.shutdown_before then ret false else intake env host job

unfoldable pub process_job_file : Env → Host → FilePath → M Bool
process_job_file env host job q =
    let start : M Bool = set_state env job (state_only "queued" none) >> planning env host job in
    if not (exists job q.files)
    then (value false, q)
    else if not (is_primary_job_json job.name)
    then (value false, q)
    else start q
