-- ===== src/Queue/Execution/Runs.antt =====
-- Which parts of the loop leave the mission runner alone (src/voxera/core/queue_execution.py).
use voxera_os.Base.{
  String, Bool, true, false, Option, none, some, List, [], ◌∷◌, ◌≡◌, refl, ◌∙◌, arith,
  if◌then◌else◌,
}
use voxera_os.Py.{Fields}
use voxera_os.Automation.{Raising, value, raises}
use voxera_os.Models.{RunResult}
use voxera_os.Mission.{MissionTemplate}
use voxera_os.Queue.Disk.{Dir, FilePath, Files}
use voxera_os.Queue.State.{Update}
use voxera_os.Queue.Lifecycle.{Env, Queue, Artifact}
use voxera_os.Queue.Requests.{ChildRequest}
use voxera_os.Queue.Steps.{
  M, ◌>>=◌, ◌>>◌, ret, set_state, move, failed_sidecar, note, count_failed, count_processed,
  write_file, prune,
}
use voxera_os.Base.Int.{ℤ}
use voxera_os.Queue.Gate.{write_pending_artifacts, write_pending_at}
use voxera_os.Queue.Execution.Host.{Host, Job}
use voxera_os.Queue.Execution.Endings.{
  Failure, note_all, fail_moved, fail_job, finalize_moved, finalize_job_shutdown_failure,
  wait_moved, wait_job, enqueue_child_job_from_parent, add_child_state, done_moved, complete_job,
  enqueued, child_refs,
}

-- The runner is given nothing.
pub record Quiet {A : Type 0} (m : M A) : Type 0 where
  pub same : (q : Queue) → (m q).1.runs ≡ q.runs

after-runs :
    {A B : Type 0} (r : Raising A) (f : A → M B) (q : Queue)
    → ((a : A) → Quiet (f a))
    → (elim r as (λ x. Raising B × Queue) [ value a ↦ f a q | raises e ↦ (raises e, q) ]).1.runs
      ≡ q.runs
after-runs (value a) f q h = (h a).same q
after-runs (raises e) f q h = refl

pub >>=-Quiet :
    {A B : Type 0} (m : M A) (f : A → M B) → Quiet m → ((a : A) → Quiet (f a)) → Quiet (m >>= f)
>>=-Quiet m f h k = record { same = λ q. after-runs (m q).0 f (m q).1 k ∙ h.same q }

pub >>-Quiet : {B : Type 0} (m : M (Unit {0})) (k : M B) → Quiet m → Quiet k → Quiet (m >> k)
>>-Quiet m k h l = >>=-Quiet m (λ _. k) h (λ _. l)

pub either-Quiet :
    {A : Type 0} (b : Bool) (m n : M A) → Quiet m → Quiet n → Quiet (if b then m else n)
either-Quiet true m n h k = h
either-Quiet false m n h k = k

pub ret-Quiet : {A : Type 0} (a : A) → Quiet (ret a)
ret-Quiet a = record { same = λ q. refl }

pub note-Quiet : (job : FilePath) (a : Artifact) → Quiet (note job a)
unfolding note
note-Quiet job a = record { same = λ q. refl }

pub set_state-Quiet : (env : Env) (job : FilePath) (u : Update) → Quiet (set_state env job u)
unfolding set_state
set_state-Quiet env job u = record { same = λ q. ground arith }

pub move-Quiet : (env : Env) (job : FilePath) (dir : Dir) → Quiet (move env job dir)
unfolding move
move-Quiet env job dir = record { same = λ q. refl }

failed_sidecar-Quiet :
    (env : Env) (job : FilePath) (error : String) (payload : Option Fields)
    → Quiet (failed_sidecar env job error payload)
unfolding failed_sidecar
failed_sidecar-Quiet env job error payload = record { same = λ q. ground arith }

note_all-Quiet : (job : FilePath) (as' : List Artifact) → Quiet (note_all job as')
unfolding note_all
note_all-Quiet job [] = ret-Quiet tt
note_all-Quiet job (a ∷ as') =
    >>-Quiet (note job a) (note_all job as') (note-Quiet job a) (note_all-Quiet job as')

pub count_failed-Quiet : Quiet count_failed
unfolding count_failed
count_failed-Quiet = record { same = λ q. refl }

count_processed-Quiet : Quiet count_processed
unfolding count_processed
count_processed-Quiet = record { same = λ q. refl }

pub prune-Quiet : (f : Files → Files) → Quiet (prune f)
unfolding prune
prune-Quiet f = record { same = λ q. refl }

pub ruleset quiet_steps = (>>-Quiet, ret-Quiet, note-Quiet, set_state-Quiet)

fail_moved-Quiet :
    (env : Env) (host : Host) (f : Failure) (o : Option FilePath) → Quiet (fail_moved env host f o)
unfolding fail_moved
fail_moved-Quiet env host f none = ret-Quiet false
fail_moved-Quiet env host f (some job) =
    search (quiet_steps, failed_sidecar-Quiet, note_all-Quiet, count_failed-Quiet, prune-Quiet)
      depth 9

pub fail_job-Quiet :
    (env : Env) (host : Host) (job : FilePath) (f : Failure) → Quiet (fail_job env host job f)
unfolding fail_job
fail_job-Quiet env host job f =
    >>=-Quiet (move env job Dir.failed) (fail_moved env host f) (move-Quiet env job Dir.failed)
      (fail_moved-Quiet env host f)

finalize_moved-Quiet :
    (env : Env) (host : Host) (job : Job) (o : Option FilePath)
    → Quiet (finalize_moved env host job o)
unfolding finalize_moved
finalize_moved-Quiet env host job none = ret-Quiet false
finalize_moved-Quiet env host job (some t) =
    search (quiet_steps, failed_sidecar-Quiet, count_failed-Quiet, prune-Quiet) depth 9

pub finalize_job_shutdown_failure-Quiet :
    (env : Env) (host : Host) (job : Job) → Quiet (finalize_job_shutdown_failure env host job)
unfolding finalize_job_shutdown_failure
finalize_job_shutdown_failure-Quiet env host job =
    >>=-Quiet (move env job.path Dir.failed) (finalize_moved env host job)
      (move-Quiet env job.path Dir.failed) (finalize_moved-Quiet env host job)

write_pending_at-Quiet :
    (env : Env) (job : FilePath) (payload : Fields) (mission : MissionTemplate) (d : Fields)
    (o : Option ℤ)
    → Quiet (write_pending_at env job payload mission d o)
unfolding write_pending_at write_file
write_pending_at-Quiet env job payload mission d none = record { same = λ q. refl }
write_pending_at-Quiet env job payload mission d (some z) = record { same = λ q. refl }

write_pending_artifacts-Quiet :
    (env : Env) (job : FilePath) (payload : Fields) (mission : MissionTemplate) (d : Fields)
    → Quiet (write_pending_artifacts env job payload mission d)
unfolding write_pending_artifacts
write_pending_artifacts-Quiet env job payload mission d =
    write_pending_at-Quiet env job payload mission d _

wait_moved-Quiet :
    (env : Env) (job : Job) (mission : MissionTemplate) (rr : RunResult) (d : Fields)
    (o : Option FilePath)
    → Quiet (wait_moved env job mission rr d o)
unfolding wait_moved
wait_moved-Quiet env job mission rr d none = ret-Quiet false
wait_moved-Quiet env job mission rr d (some t) = search (quiet_steps, write_pending_artifacts-Quiet)

pub wait_job-Quiet :
    (env : Env) (job : Job) (mission : MissionTemplate) (rr : RunResult) (d : Fields)
    → Quiet (wait_job env job mission rr d)
unfolding wait_job
wait_job-Quiet env job mission rr d =
    >>=-Quiet (move env job.path Dir.pending) (wait_moved env job mission rr d)
      (move-Quiet env job.path Dir.pending) (wait_moved-Quiet env job mission rr d)

enqueue_child-Quiet :
    (env : Env) (host : Host) (job : Job) (request : ChildRequest)
    → Quiet (enqueue_child_job_from_parent env host job request)
unfolding enqueue_child_job_from_parent write_file note
enqueue_child-Quiet env host job request = record { same = λ q. ground arith }

enqueued-Quiet :
    (env : Env) (host : Host) (job : Job) (o : Option ChildRequest)
    → Quiet (enqueued env host job o)
enqueued-Quiet env host job none = ret-Quiet none
enqueued-Quiet env host job (some request) =
    >>=-Quiet (enqueue_child_job_from_parent env host job request) (λ r. ret (some r))
      (enqueue_child-Quiet env host job request) (λ r. ret-Quiet (some r))

add_child_state-Quiet : (job : FilePath) (o : Option Fields) → Quiet (add_child_state job o)
unfolding add_child_state write_file
add_child_state-Quiet job none = record { same = λ q. refl }
add_child_state-Quiet job (some c) = record { same = λ q. refl }

done_moved-Quiet :
    (env : Env) (job : Job) (mission : MissionTemplate) (d : Fields) (child : Option Fields)
    (o : Option FilePath)
    → Quiet (done_moved env job mission d child o)
unfolding done_moved
done_moved-Quiet env job mission d child none = ret-Quiet false
done_moved-Quiet env job mission d child (some t) =
    search (quiet_steps, count_processed-Quiet, add_child_state-Quiet) depth 9

complete_moved-Quiet :
    (env : Env) (job : Job) (mission : MissionTemplate) (d : Fields) (child : Option Fields)
    → Quiet (move env job.path Dir.done >>= done_moved env job mission (child_refs child d) child)
complete_moved-Quiet env job mission d child =
    >>=-Quiet (move env job.path Dir.done) (done_moved env job mission (child_refs child d) child)
      (move-Quiet env job.path Dir.done)
      (done_moved-Quiet env job mission (child_refs child d) child)

pub complete_job-Quiet :
    (env : Env) (host : Host) (job : Job) (mission : MissionTemplate) (d : Fields)
    → Quiet (complete_job env host job mission d)
unfolding complete_job
complete_job-Quiet env host job mission d =
    >>=-Quiet (enqueued env host job job.child)
      (λ child.
        move env job.path Dir.done >>= done_moved env job mission (child_refs child d) child)
      (enqueued-Quiet env host job job.child) (complete_moved-Quiet env job mission d)
