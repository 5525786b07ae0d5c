-- ===== src/Queue/Execution/Host.antt =====
-- What the loop over a job is given (src/voxera/core/queue_execution.py): the job, and what it calls
-- but does not decide. The planner and the runner may answer differently at each attempt.
use voxera_os.Base.{ℕ, String, Bool, Option, List, ◌⊎◌}
use voxera_os.Py.{Value, Fields}
use voxera_os.Automation.{Raising}
use voxera_os.Mission.{MissionTemplate}
use voxera_os.Models.{RunResult}
use voxera_os.Queue.Disk.{FilePath, Files}
use voxera_os.Queue.Requests.{ChildRequest}
use voxera_os.Queue.Steps.{M}

-- What `json.loads` makes of a file: a value, a `JSONDecodeError`, or another exception.
pub data Read : Type 0 where
  parsed : Value → Read
  malformed : String → Read
  unreadable : String → Read

-- The exception of a plan that cannot be made: its text, and its `repr`.
pub record PlanError : Type 0 where
  pub message : String
  pub shown : String

-- `SimpleIntentResult`, with its `to_dict`
pub record Intent : Type 0 where
  pub kind : String
  pub deterministic : Bool
  pub fail_closed : Bool
  pub allowed_skill_ids : List String
  pub as_dict : Fields

pub record Host : Type 0 where
  pub reads : FilePath → ℕ → Read
  pub sanitize_route : Fields → Fields
  pub normalize : Fields → Raising Fields
  pub classify : Fields → Intent
  pub build_mission : ℕ → Fields → MissionTemplate ⊎ PlanError
  pub run : ℕ → MissionTemplate → Raising RunResult
  pub assistant : FilePath → Fields → M Bool
  pub max_replans : ℕ
  pub shutdown_before : Bool
  pub shutdown_after : ℕ → Bool
  pub signal : String
  pub child_id : String
  pub prune : Files → Files

pub record Job : Type 0 where
  pub path : FilePath
  pub payload : Fields
  pub kind : String
  pub intent : Option Intent
  pub child : Option ChildRequest

-- Where the loop stands: the number of attempts made and of replans, and the plan before.
pub record Progress : Type 0 where
  pub attempts : ℕ
  pub replans : ℕ
  pub previous : Option MissionTemplate

-- How an attempt ends: with another, or with the answer.
pub data Next : Type 0 where
  again : Progress → Next
  finished : Bool → Next
