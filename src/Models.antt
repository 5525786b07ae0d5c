-- ===== src/Models.antt =====
-- src/voxera/models.py: the policy, the manifest of a skill, plan steps and the result of a run.
-- The literal strings of the source are constructors.
use voxera_os.Base.{ℕ, String, Bool, Option, List}
use voxera_os.Py.{Fields}

-- `Literal["allow", "ask", "deny"]`
pub data Verdict : Type 0 where
  allow ask deny : Verdict

pub record PolicyApprovals : Type 0 where
  pub network_changes : Verdict
  pub installs : Verdict
  pub file_delete : Verdict
  pub open_apps : Verdict
  pub system_settings : Verdict

-- The defaults of the policy's fields.
abbrev pub default_policy : PolicyApprovals
default_policy = record {
  network_changes = Verdict.ask;
  installs = Verdict.ask;
  file_delete = Verdict.ask;
  open_apps = Verdict.allow;
  system_settings = Verdict.ask;
}

pub data Risk : Type 0 where
  low medium high : Risk

pub data ExecMode : Type 0 where
  local sandbox : ExecMode

pub data FsScope : Type 0 where
  workspace_only read_only broader : FsScope

pub record SkillManifest : Type 0 where
  pub id : String
  pub name : String
  pub description : String
  pub entrypoint : String
  pub capabilities : List String
  pub risk : Risk
  pub exec_mode : ExecMode
  pub needs_network : Bool
  pub fs_scope : FsScope
  pub output_artifacts : List String
  pub output_schema : Option String
  pub args : Fields

pub record PlanStep : Type 0 where
  pub action : String
  pub skill_id : Option String
  pub args : Fields
  pub requires_approval : Bool
  pub capability : Option String
  pub risk : Risk
  pub policy_decision : Option Verdict
  pub reason : Option String

pub record PlanSimulation : Type 0 where
  pub title : String
  pub goal : String
  pub steps : List PlanStep
  pub approvals_required : ℕ
  pub blocked : Bool
  pub summary : String
  pub capabilities_snapshot : Fields
  pub capabilities_used : List String

pub record RunResult : Type 0 where
  pub ok : Bool
  pub output : String
  pub result_data : Fields
  pub error : Option String
