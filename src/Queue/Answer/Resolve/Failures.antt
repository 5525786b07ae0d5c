-- ===== src/Queue/Answer/Resolve/Failures.antt =====
-- What the steps of a denial add to the failures (src/voxera/core/queue_approvals.py).
use voxera_os.Base.{ℕ, ◌+◌, refl, String, Option, none, some, ◌≡◌, ◌∙◌, arith}
use voxera_os.Py.{Value, null, bool, int, text, array, object, Fields}
use voxera_os.Queue.State.{Update}
use voxera_os.Automation.{Raising, value, raises}
use voxera_os.Queue.Disk.{Dir, FilePath, Files}
use voxera_os.Queue.Lifecycle.{Env, Queue, Artifact}
use voxera_os.Queue.Steps.{M, move, on_files, failed_sidecar, set_state, note, prune, count_failed}
use voxera_os.Queue.Answer.Desk.{lift}
use voxera_os.Queue.Answer.Deny.{denial, denied_sidecar}

-- What is done starts no run, and adds to the failures.
pub record Adds {A : Type 0} (n : ℕ) (m : M A) : Type 0 where
  pub adds : (q : Queue) → (m q).1.failures ≡ n + q.failures
  pub quiet : (q : Queue) → (m q).1.runs ≡ q.runs

none_more : (n : ℕ) → n ≡ 0 + n
none_more n = omega arith

pub lift-Adds : {A : Type 0} (r : Raising A) → Adds 0 (lift r)
lift-Adds r = record { adds = λ q. omega arith; quiet = λ q. refl }

pub note-Adds : (t : FilePath) (a : Artifact) → Adds 0 (note t a)
unfolding note
note-Adds t a = record { adds = λ q. omega arith; quiet = λ q. refl }

pub count_failed-Adds : Adds 1 count_failed
unfolding count_failed
count_failed-Adds = record { adds = λ q. omega arith; quiet = λ q. refl }

pub prune-Adds : (f : Files → Files) → Adds 0 (prune f)
unfolding prune
prune-Adds f = record { adds = λ q. omega arith; quiet = λ q. refl }

pub move-Adds : (env : Env) (job : FilePath) (dir : Dir) → Adds 0 (move env job dir)
unfolding move
move-Adds env job dir = record { adds = λ q. omega arith; quiet = λ q. refl }

on_files-same :
    (q : Queue) (r : Raising Files)
    → ((on_files q r).1.failures ≡ q.failures) × ((on_files q r).1.runs ≡ q.runs)
on_files-same q (value fs) = (refl, refl)
on_files-same q (raises e) = (refl, refl)

pub set_state-Adds : (env : Env) (t : FilePath) (u : Update) → Adds 0 (set_state env t u)
unfolding set_state
set_state-Adds env t u = record {
  adds = λ q. (on_files-same q _).0 ∙ none_more q.failures;
  quiet = λ q. (on_files-same q _).1;
}

pub failed_sidecar-Adds :
    (env : Env) (t : FilePath) (error : String) (o : Option Fields)
    → Adds 0 (failed_sidecar env t error o)
unfolding failed_sidecar
failed_sidecar-Adds env t error o = record {
  adds = λ q. (on_files-same q _).0 ∙ none_more q.failures;
  quiet = λ q. (on_files-same q _).1;
}

pub denied_sidecar-Adds : (env : Env) (t : FilePath) (v : Value) → Adds 0 (denied_sidecar env t v)
denied_sidecar-Adds env t (object d) = failed_sidecar-Adds env t denial (some d)
denied_sidecar-Adds env t null = failed_sidecar-Adds env t denial none
denied_sidecar-Adds env t (bool b) = lift-Adds (raises "ValueError()")
denied_sidecar-Adds env t (int z) = lift-Adds (raises "ValueError()")
denied_sidecar-Adds env t (text x) = lift-Adds (raises "ValueError()")
denied_sidecar-Adds env t (array vs) = lift-Adds (raises "ValueError()")
