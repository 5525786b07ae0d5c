-- ===== src/Mission/Simulate.antt =====
-- `MissionRunner.simulate` (src/voxera/core/missions.py): the dry run of a mission, which asks the
-- policy about every step and calls no skill.
pub mod Laws
use voxera_os.Base.{
  ℕ, ◌+◌, String, Bool, true, false, Option, none, some, List, [], ◌∷◌, ◌++◌, ◌||◌, ltb,
  if◌then◌else◌,
}
use voxera_os.Base.Text.{◌+s◌, sorted, distinct}
use voxera_os.Py.{Value, bool, text, object, Fields, end, field}
use voxera_os.Py.Dict.{get, put}
use voxera_os.Models.{SkillManifest, PolicyApprovals, PlanStep, PlanSimulation}
use voxera_os.Capability.{
  IntentClass, read_only, mutating, destructive, Boundaries, Projection, intent_rank,
  manifest_capability_semantics,
}
use voxera_os.Skill.Args.{Canonical, done, raised}
use voxera_os.Skill.Run.{Host, simulate}
use voxera_os.Mission.{MissionStep, MissionTemplate}
use voxera_os.Mission.Run.{Runner}

-- What the loop over the steps keeps.
pub record Dryrun : Type 0 where
  pub steps : List PlanStep
  pub approvals_required : ℕ
  pub blocked : Bool
  pub capabilities : List String
  pub boundaries : Boundaries
  pub intent : IntentClass

abbrev pub no_steps : Dryrun
no_steps = record {
  steps = [];
  approvals_required = 0;
  blocked = false;
  capabilities = [];
  boundaries = record { filesystem = false; network = false; secrets = false; system = false };
  intent = read_only;
}

abbrev either : Boundaries → Boundaries → Boundaries
either a b = record {
  filesystem = a.filesystem || b.filesystem;
  network = a.network || b.network;
  secrets = a.secrets || b.secrets;
  system = a.system || b.system;
}

-- `sim.steps[0]` with its new action, of a simulation that always has one step
abbrev plan_steps : String → List PlanStep → List PlanStep
plan_steps id [] = []
plan_steps id (s ∷ ss) = record s { action = "Run " +s id } ∷ []

unfoldable pub add_step : SkillManifest → PlanSimulation → Dryrun → Dryrun
add_step m sim acc =
    let semantics = manifest_capability_semantics m in
    record {
      steps = acc.steps ++ plan_steps m.id sim.steps;
      approvals_required = acc.approvals_required + sim.approvals_required;
      blocked = acc.blocked || sim.blocked;
      capabilities = acc.capabilities ++ m.capabilities;
      boundaries = either acc.boundaries semantics.resource_boundaries;
      intent =
          if ltb (intent_rank acc.intent) (intent_rank semantics.intent_class)
          then semantics.intent_class
          else acc.intent;
    }

-- The loop, which an unknown skill leaves by a `KeyError`. A registry gives each skill by its id.
unfoldable pub simulate_steps : Runner → List MissionStep → Dryrun → Canonical Dryrun
simulate_steps r [] acc = done acc
simulate_steps r (ms ∷ rest) acc = elim (r.registry ms.skill_id) [
  | none ↦ raised "KeyError"
  | some m ↦ elim (simulate r.host.read_float m ms.args r.policy) [
    | raised e ↦ raised e
    | done sim ↦ simulate_steps r rest (add_step m sim acc)
  ]
]

abbrev intent_name : IntentClass → String
intent_name read_only = "read_only"
intent_name mutating = "mutating"
intent_name destructive = "destructive"

abbrev mission_semantics : Dryrun → Fields
mission_semantics d =
    field "mission_semantics"
      (object (
        field "intent_class" (text (intent_name d.intent)) (
          field "resource_boundaries"
            (object (
              field "filesystem" (bool d.boundaries.filesystem) (
                field "network" (bool d.boundaries.network) (
                  field "secrets" (bool d.boundaries.secrets)
                    (field "system" (bool d.boundaries.system) end)))))
            end)))
      end

abbrev with_snapshot : Option Fields → Fields → Fields
with_snapshot none d = d
with_snapshot (some s) d =
    put "generated_ts_ms" (get "generated_ts_ms" s)
      (put "schema_version" (get "schema_version" s) d)

unfoldable pub plan_of : MissionTemplate → Option Fields → Dryrun → PlanSimulation
plan_of mission snapshot d = record {
  title = "Mission dry-run: " +s mission.title;
  goal = mission.goal;
  steps = d.steps;
  approvals_required = d.approvals_required;
  blocked = d.blocked;
  summary = if d.blocked then "Blocked by policy" else "Mission ready for execution";
  capabilities_snapshot = with_snapshot snapshot (mission_semantics d);
  capabilities_used = sorted (distinct d.capabilities);
}

unfoldable pub simulate_mission :
    Runner → MissionTemplate → Option Fields → Canonical PlanSimulation
unfolding simulate_steps plan_of
simulate_mission r mission snapshot = elim (simulate_steps r mission.steps no_steps) [
  | raised e ↦ raised e
  | done d ↦ done (plan_of mission snapshot d)
]
