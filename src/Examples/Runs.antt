-- ===== src/Examples/Runs.antt =====
-- The loop over a job, its gate and the daemon's lock on concrete inputs
-- (src/voxera/core/queue_execution.py, queue_approvals.py, queue_daemon.py).
use voxera_os.Base.{
  ℕ, suc, ◌+◌, ◌≤◌, ◌<◌, ◌||◌, not, true, false, none, some, [], ◌∷◌, ◌≡◌, ◌≢◌, refl, arith, length,
  inr, ◌==◌,
}
use voxera_os.Base.Text.{lower, strip}
use voxera_os.Py.{text, object, bool, Fields, end, field, truthy}
use voxera_os.Py.Dict.{get, find}
use voxera_os.Automation.{value, raises}
use voxera_os.Queue.Disk.{inbox, at}
use voxera_os.Queue.Lifecycle.{Queue}
use voxera_os.Queue.Requests.{detect_request_kind}
use voxera_os.Queue.Gate.{is_hard_approval_required}
use voxera_os.Queue.Execution.Host.{Host, Job, Intent, PlanError, parsed}
use voxera_os.Queue.Execution.Loop.{attempts, at_first}
use voxera_os.Queue.Execution.Loop.Runs.{attempts_end}
use voxera_os.Queue.Execution.Loop.Fits.{AllFit, attempts-AllFit}
use voxera_os.Queue.Execution.Intake.{
  load_job_payload_with_retry, sanitized_payload, process_job_file,
}
use voxera_os.Queue.Execution.Intake.Laws.{process_job_file-gated}
use voxera_os.Queue.Lock.{
  Locks, LockPayload, Holder, fresh, open_lock, has_holder, close_file, closed, flock_file,
  write_lock_payload, acquire_daemon_lock, drop_holder, exit_process, is_stale, pid_is_alive,
  try_unlock_stale, Reach, start_process, started, opened_file, locked_file, refused_file,
  wrote_payload, here, next,
}
use voxera_os.Queue.Lock.Laws.{mutual_exclusion, stale_lock_shared, removed_lock_shared}
use voxera_os.Examples.Jobs.{sample_env}

-- A job that demands an approval.
abbrev asking_payload : Fields
asking_payload = field "goal" (text "open notes") (field "approval_required" (bool true) end)

abbrev pub unknown_skill : PlanError
unknown_skill = record { message = "unknown skill"; shown = "ValueError('unknown skill')" }

-- A planner that never makes a plan.
abbrev sample_host : Host
sample_host = record {
  reads = λ p n. parsed (object asking_payload);
  sanitize_route = λ d. d;
  normalize = λ d. value d;
  classify = λ d. record {
    kind = "open_app";
    deterministic = true;
    fail_closed = true;
    allowed_skill_ids = "system.open_app" ∷ [];
    as_dict = end;
  };
  build_mission = λ n d. inr unknown_skill;
  run = λ n m. raises "RuntimeError()";
  assistant = λ p d q. (value true, q);
  max_replans = 2;
  shutdown_before = false;
  shutdown_after = λ n. false;
  signal = "SIGTERM";
  child_id = "1";
  prune = λ fs. fs;
}

abbrev open_app : Intent
open_app = record {
  kind = "open_app";
  deterministic = true;
  fail_closed = true;
  allowed_skill_ids = "system.open_app" ∷ [];
  as_dict = end;
}

abbrev sample_job : Job
sample_job = record {
  path = at inbox "notes.json";
  payload = asking_payload;
  kind = "goal";
  intent = some open_app;
  child = none;
}

abbrev asking_queue : Queue
asking_queue = record {
  files = (at inbox "notes.json", some (object asking_payload)) ∷ [];
  artifacts = [];
  runs = [];
  processed = 0;
  failures = 0;
}

attempts_end_example :
    ((attempts
        (suc sample_host.max_replans)
        sample_env
        sample_host
        sample_job
        at_first
        asking_queue).0
      ≢ value none)
    × (length
          (attempts
            (suc sample_host.max_replans)
            sample_env
            sample_host
            sample_job
            at_first
            asking_queue).1.runs
        ≤ length asking_queue.runs + suc sample_host.max_replans)
attempts_end_example = attempts_end sample_env sample_host sample_job asking_queue

attempts-AllFit_example :
    AllFit
      ("system.open_app" ∷ [])
      (attempts 3 sample_env sample_host sample_job at_first asking_queue).1.runs
attempts-AllFit_example =
    attempts-AllFit 3 sample_env sample_host sample_job at_first asking_queue open_app refl refl
      refl refl (λ e. cc) tt

asking_read : load_job_payload_with_retry sample_host (at inbox "notes.json") ≡ value asking_payload
unfolding load_job_payload_with_retry
asking_read = refl

no_question :
    (detect_request_kind (sanitized_payload sample_host asking_payload) == "assistant_question")
    ≡ false
unfolding detect_request_kind get find lower strip truthy
no_question = refl

asking_required : is_hard_approval_required asking_payload ≡ true
unfolding is_hard_approval_required get find
asking_required = refl

process_job_file-gated_example :
    (process_job_file sample_env sample_host (at inbox "notes.json") asking_queue).1.runs ≡ []
unfolding get
process_job_file-gated_example =
    process_job_file-gated sample_env sample_host (at inbox "notes.json") asking_queue
      asking_payload asking_payload asking_read no_question refl asking_required

abbrev first_holder : Holder
first_holder = record { pid = 7; inode = 0 }

abbrev second_holder : Holder
second_holder = record { pid = 9; inode = 0 }

-- Two processes run and have opened the lock file.
abbrev both_open : Locks
both_open = open_lock 9 (open_lock 7 (start_process 9 (start_process 7 fresh)))

abbrev one_locked : Locks
one_locked = record {
  entry = some 0;
  next_inode = 1;
  payload = λ i. none;
  opens = second_holder ∷ [];
  holders = first_holder ∷ [];
  alive = (start_process 9 (start_process 7 fresh)).alive;
}

-- The second is refused, and the first then writes its payload.
abbrev locked : Locks
locked = write_lock_payload 100 first_holder (closed second_holder one_locked)

both_open-Reach : Reach fresh both_open
unfolding start_process open_lock
both_open-Reach =
    next (next (next (next here (started 7)) (started 9)) (opened_file 7 refl)) (opened_file 9 refl)

locked-Reach : Reach fresh locked
unfolding start_process open_lock flock_file has_holder close_file
locked-Reach =
    next
      (next (next both_open-Reach (locked_file first_holder {t = one_locked} refl refl))
        (refused_file second_holder refl refl))
      (wrote_payload 100 first_holder refl)

mutual_exclusion_example :
    (length locked.holders ≤ 1)
    × ((now pid : ℕ) → locked.holders ≡ [] → acquire_daemon_lock now pid locked ≢ none)
mutual_exclusion_example = mutual_exclusion refl refl locked-Reach

abbrev first_payload : LockPayload
first_payload = record { pid = 7; ts = 100 }

locked_holders : locked.holders ≡ first_holder ∷ []
unfolding start_process write_lock_payload close_file
locked_holders = refl

locked_entry : locked.entry ≡ some first_holder.inode
unfolding start_process write_lock_payload close_file
locked_entry = refl

locked_payload : locked.payload 0 ≡ some first_payload
unfolding start_process write_lock_payload close_file
locked_payload = refl

locked_old : first_holder.inode < locked.next_inode
unfolding start_process write_lock_payload close_file
locked_old = omega arith

stale_lock_shared_example :
    (t u : Locks) × (try_unlock_stale 60 200 locked ≡ some (true, t))
    × (acquire_daemon_lock 201 9 t ≡ some u)
    × (u.holders ≡ record { pid = 9; inode = locked.next_inode } ∷ first_holder ∷ [])
stale_lock_shared_example =
    stale_lock_shared 60 200 201 9 locked first_holder first_payload locked_holders locked_entry
      locked_payload refl locked_old

-- The first process ended, and left its lock file.
abbrev left_file : Locks
left_file = exit_process 7 locked

left_free : left_file.holders ≡ []
unfolding exit_process write_lock_payload drop_holder
left_free = refl

left_entry : left_file.entry ≡ some 0
unfolding exit_process write_lock_payload
left_entry = refl

left_payload : left_file.payload 0 ≡ some first_payload
unfolding exit_process write_lock_payload
left_payload = refl

left_dead :
    (is_stale 60 110 (some first_payload) || not (pid_is_alive (some first_payload) left_file))
    ≡ true
unfolding exit_process write_lock_payload start_process
left_dead = refl

left_old : 0 < left_file.next_inode
unfolding exit_process write_lock_payload
left_old = omega arith

removed_lock_shared_example :
    (t u v : Locks) × (try_unlock_stale 60 110 (open_lock 9 left_file) ≡ some (true, t))
    × (acquire_daemon_lock 111 8 t ≡ some u)
    × (has_holder second_holder u.opens ≡ true)
    × (flock_file second_holder u ≡ some v)
    × (v.holders ≡ second_holder ∷ record { pid = 8; inode = left_file.next_inode } ∷ [])
removed_lock_shared_example =
    removed_lock_shared 60 110 111 9 8 0 left_file first_payload left_free left_entry left_payload
      left_dead left_old
