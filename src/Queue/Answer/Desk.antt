-- ===== src/Queue/Answer/Desk.antt =====
-- The state that an answer to an approval works on (src/voxera/core/queue_approvals.py), and what it
-- calls.
use voxera_os.Base.{ℕ, String, Bool, List, ◌⊎◌}
use voxera_os.Py.{Fields}
use voxera_os.Automation.{Raising}
use voxera_os.Models.{RunResult}
use voxera_os.Mission.{MissionTemplate}
use voxera_os.Queue.Disk.{FilePath, Files}
use voxera_os.Queue.Lifecycle.{Queue}
use voxera_os.Queue.Steps.{M, ◌>>◌, ret, remove_file}
use voxera_os.Queue.Approvals.{Grant, StepKey}
use voxera_os.Queue.Execution.Host.{PlanError}
use voxera_os.Queue.Answer.{Waiting}

-- What the answer calls but does not decide: the text of a path, the order of a listing, the planner,
-- and the mission runner from a step, whose prompt reads and takes away approved steps.
pub record DeskHost : Type 0 where
  pub path_text : FilePath → String
  pub recent : List String → List String
  pub build_mission : Fields → MissionTemplate ⊎ PlanError
  pub run : List StepKey → List Grant → ℕ → MissionTemplate → Raising RunResult × List StepKey
  pub prune : Files → Files

-- A run of a mission from a step, with the steps that were approved then.
pub record Start : Type 0 where
  pub mission : MissionTemplate
  pub step : ℕ
  pub approved : List StepKey

pub record Desk : Type 0 where
  pub queue : Queue
  pub approved_steps : List StepKey
  pub grants : List Grant
  pub starts : List Start

abbrev pub on_queue {ℓ} : {A : Type ℓ} → Desk → Raising A × Queue → Raising A × Desk
on_queue s (r, q) = (r, record s { queue = q })

unfoldable pub remove_waiting : Waiting → Bool → M Bool
remove_waiting w answer = do remove_file w.meta; remove_file w.artifact; ret answer

abbrev pub lift : {A : Type 0} → Raising A → M A
lift r q = (r, q)
