-- ===== src/Queue/Steps.antt =====
-- The steps of the daemon on a queue (src/voxera/core/queue_daemon.py), which may raise: what was
-- written before an exception stays.
use voxera_os.Base.{suc, String, Option, none, some, [], ◌∷◌, ◌++◌}
use voxera_os.Py.{Value, Fields}
use voxera_os.Automation.{Raising, value, raises}
use voxera_os.Queue.State.{Update}
use voxera_os.Queue.Disk.{Dir, FilePath, Files, write, unlink, stem, move_job}
use voxera_os.Queue.Sidecar.{write_failed_error_sidecar}
use voxera_os.Queue.Lifecycle.{Env, Queue, Artifact, update_job_state}

abbrev pub M : Type 0 → Type 0
M A = Queue → Raising A × Queue

infixl 1 ◌>>=◌
abbrev pub ◌>>=◌ : {A B : Type 0} → M A → (A → M B) → M B
◌>>=◌ m f q = elim (m q).0 [ value a ↦ f a (m q).1 | raises e ↦ (raises e, (m q).1) ]

infixl 1 ◌>>◌
abbrev pub ◌>>◌ : {B : Type 0} → M (Unit {0}) → M B → M B
m >> k = m >>= λ _. k

abbrev pub ret : {A : Type 0} → A → M A
ret a q = (value a, q)

abbrev pub on_files : Queue → Raising Files → Raising (Unit {0}) × Queue
on_files q (value fs) = (value tt, record q { files = fs })
on_files q (raises e) = (raises e, q)

abbrev raising : Option Files → Raising Files
raising none = raises "TypeError()"
raising (some fs) = value fs

unfoldable pub set_state : Env → FilePath → Update → M (Unit {0})
set_state env job u q = on_files q (raising (update_job_state env job u q.files))

-- `_move_job`, where `none` is a job that is no longer there
unfoldable pub move : Env → FilePath → Dir → M (Option FilePath)
move env job dir q =
    let (moved, fs) = move_job env.now job dir q.files in (value moved, record q { files = fs })

unfoldable pub failed_sidecar : Env → FilePath → String → Option Fields → M (Unit {0})
failed_sidecar env job error payload q = on_files q (
    write_failed_error_sidecar env.now job error
      (elim payload [ none ↦ none | some d ↦ some (env.sanitize_payload d) ]) q.files)

unfoldable pub note : FilePath → Artifact → M (Unit {0})
note job a q = (value tt, record q { artifacts = q.artifacts ++ (stem job.name, a) ∷ [] })

unfoldable pub count_failed : M (Unit {0})
count_failed q = (value tt, record q { failures = suc q.failures })

unfoldable pub count_processed : M (Unit {0})
count_processed q = (value tt, record q { processed = suc q.processed })

unfoldable pub write_file : FilePath → Option Value → M (Unit {0})
write_file p v q = (value tt, record q { files = write p v q.files })

unfoldable pub remove_file : FilePath → M (Unit {0})
remove_file p q = (value tt, record q { files = unlink p q.files })

-- `prune_failed_artifacts`, which the daemon's settings decide.
unfoldable pub prune : (Files → Files) → M (Unit {0})
prune f q = (value tt, record q { files = f q.files })
