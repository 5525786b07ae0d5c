-- ===== src/Queue/Execution/Loop.antt =====
-- The loop itself (src/voxera/core/queue_execution.py), on fuel, and that one turn more than there
-- are replans is enough.
pub mod Laws
pub mod Runs
pub mod Fits
use voxera_os.Base.{ℕ, zero, suc, Bool, Option, none, some}
use voxera_os.Automation.{Raising, value, raises}
use voxera_os.Queue.Lifecycle.{Env, Queue}
use voxera_os.Queue.Steps.{M, ◌>>=◌, ret}
use voxera_os.Queue.Execution.Host.{Host, Job, Progress, Next, again, finished}
use voxera_os.Queue.Execution.Attempt.{attempt}

abbrev pub go_on : (Progress → M (Option Bool)) → Next → M (Option Bool)
go_on loop (again p) = loop p
go_on loop (finished answer) = ret (some answer)

-- `while True`; `none` means that the fuel ran out.
unfoldable pub attempts : ℕ → Env → Host → Job → Progress → M (Option Bool)
attempts zero env host job p = ret none
attempts (suc fuel) env host job p = do
  next ← attempt env host job p
  go_on (attempts fuel env host job) next

abbrev pub at_first : Progress
at_first = record { attempts = 0; replans = 0; previous = none }

abbrev answered : Option Bool → Raising Bool
answered none = raises "the loop went on"
answered (some b) = value b

-- The loop from its start, with fuel that suffices.
unfoldable pub run_job : Env → Host → Job → M Bool
run_job env host job q =
    let (answer, q') = attempts (suc host.max_replans) env host job at_first q in
    (elim answer [ raises e ↦ raises e | value a ↦ answered a ], q')
