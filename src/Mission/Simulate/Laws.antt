-- ===== src/Mission/Simulate/Laws.antt =====
-- What a dry run says of a mission (src/voxera/core/missions.py).
use voxera_os.Base.{
  ℕ, suc, ◌+◌, String, Option, none, some, List, [], ◌∷◌, ◌||◌, any, ◌≡◌, refl, arith, Option-cases,
  ◌⊎◌, inl, inr, length-append, if◌then◌else◌, length,
}
use voxera_os.Py.{Fields}
use voxera_os.Models.{SkillManifest, PolicyApprovals, PlanSimulation, Verdict}
use voxera_os.Policy.{decide, is_deny}
use voxera_os.Skill.Args.{Canonical, done, raised, canonicalize_args}
use voxera_os.Skill.Enforce.{is_ask}
use voxera_os.Skill.Run.{simulate, simulate_canonical}
use voxera_os.Mission.{MissionStep, MissionTemplate}
use voxera_os.Mission.Run.{Runner}
use voxera_os.Mission.Simulate.{
  Dryrun, no_steps, add_step, simulate_steps, plan_of, simulate_mission,
}

abbrev and_then : Verdict → Canonical (List Verdict) → Canonical (List Verdict)
and_then v (raised e) = raised e
and_then v (done vs) = done (v ∷ vs)

-- The policy's verdicts on the steps, with the arguments in their canonical form.
unfoldable pub verdicts : Runner → List MissionStep → Canonical (List Verdict)
verdicts r [] = done []
verdicts r (ms ∷ rest) = elim (r.registry ms.skill_id) [
  | none ↦ raised "KeyError"
  | some m ↦ elim (canonicalize_args r.host.read_float m.id ms.args) [
    | raised e ↦ raised e
    | done args ↦ and_then (decide m r.policy args).decision (verdicts r rest)
  ]
]

-- How many verdicts ask for an approval.
abbrev pub asking : List Verdict → ℕ
asking [] = 0
asking (v ∷ vs) = if is_ask v then suc (asking vs) else asking vs

record Counts (vs : List Verdict) (before after : Dryrun) : Type 0 where
  blocked : after.blocked ≡ (before.blocked || any is_deny vs)
  approvals : after.approvals_required ≡ before.approvals_required + asking vs
  steps : length after.steps ≡ length before.steps + length vs

-- The verdicts are there, with the counts, or both raise alike.
abbrev Agree : Dryrun → Canonical (List Verdict) → Canonical Dryrun → Type 0
Agree before (done vs) (done after) = Counts vs before after
Agree before (raised e) (raised e') = e ≡ e'
Agree before _ _ = ⊥

length-add_step :
    (m : SkillManifest) (policy : PolicyApprovals) (args : Fields) (before : Dryrun)
    → length (add_step m (simulate_canonical m args policy) before).steps ≡ length before.steps + 1
unfolding add_step simulate_canonical
length-add_step m policy args before = length-append before.steps _

-- The counts of one step and of the rest add up.
Counts-step :
    (m : SkillManifest) (policy : PolicyApprovals) (args : Fields) (vs : List Verdict)
    (before after : Dryrun)
    → Counts vs (add_step m (simulate_canonical m args policy) before) after
    → Counts ((decide m policy args).decision ∷ vs) before after
unfolding add_step simulate_canonical
Counts-step m policy args vs before after h = record {
  blocked = ground (arith, h.blocked);
  approvals = ground (arith, h.approvals);
  steps = omega (arith, h.steps, length-add_step m policy args before);
}

Agree-step :
    (m : SkillManifest) (policy : PolicyApprovals) (args : Fields) (before : Dryrun)
    (vs : Canonical (List Verdict)) (after : Canonical Dryrun)
    → Agree (add_step m (simulate_canonical m args policy) before) vs after
    → Agree before (and_then (decide m policy args).decision vs) after
Agree-step m policy args before (raised e) (raised e') h = h
Agree-step m policy args before (raised e) (done d) h = h
Agree-step m policy args before (done vs) (raised e') h = h
Agree-step m policy args before (done vs) (done d) h = Counts-step m policy args vs before d h

Canonical-cases :
    {A : Type 0} (x : Canonical A) → ((e : String) × (x ≡ raised e)) ⊎ ((a : A) × (x ≡ done a))
Canonical-cases (raised e) = inl (e, refl)
Canonical-cases (done a) = inr (a, refl)

simulate_steps-Agree :
    (r : Runner) (steps : List MissionStep) (before : Dryrun)
    → Agree before (verdicts r steps) (simulate_steps r steps before)
unfolding verdicts simulate_steps simulate
simulate_steps-Agree r [] before = record {
  blocked = ground arith;
  approvals = ground arith;
  steps = ground arith;
}
simulate_steps-Agree r (ms ∷ rest) before = elim (Option-cases (r.registry ms.skill_id)) [
  | inl missing ↦ rw (Agree, verdicts, simulate_steps, missing) refl
  | inr (m, found) ↦
      rw (Agree, verdicts, simulate_steps, found)
        (elim (Canonical-cases (canonicalize_args r.host.read_float m.id ms.args)) [
          | inl (e, bad) ↦ rw (Agree, simulate, bad) refl
          | inr (args, good) ↦
              rw (Agree, simulate, good)
                (Agree-step m r.policy args before (verdicts r rest) _ (
                  simulate_steps-Agree r rest
                    (add_step m (simulate_canonical m args r.policy) before)))
        ])
]

-- A plan for the verdicts on the steps.
pub record IsPlan (r : Runner) (mission : MissionTemplate) (plan : PlanSimulation) : Type 0 where
  pub step_verdicts : List Verdict
  pub decided : verdicts r mission.steps ≡ done step_verdicts
  pub blocked : plan.blocked ≡ any is_deny step_verdicts
  pub approvals : plan.approvals_required ≡ asking step_verdicts
  pub steps : length plan.steps ≡ length step_verdicts

IsPlan-agreed :
    (r : Runner) (mission : MissionTemplate) (snapshot : Option Fields)
    (vs : Canonical (List Verdict)) (d : Canonical Dryrun) (plan : PlanSimulation)
    → verdicts r mission.steps ≡ vs
    → Agree no_steps vs d
    → elim d [ raised e ↦ raised e | done d' ↦ done (plan_of mission snapshot d') ] ≡ done plan
    → IsPlan r mission plan
unfolding plan_of
IsPlan-agreed r mission snapshot (done vs) (done d) plan e a h = record {
  step_verdicts = vs;
  decided = e;
  blocked = ground (arith, a.blocked);
  approvals = ground (arith, a.approvals);
  steps = ground (arith, a.steps);
}
IsPlan-agreed r mission snapshot (raised e') (raised e'') plan e a h = cc
IsPlan-agreed r mission snapshot (raised e') (done d) plan e a h = elim a [ ]
IsPlan-agreed r mission snapshot (done vs) (raised e') plan e a h = elim a [ ]

-- A dry run that gives a plan is blocked exactly if the policy denies a step, counts the steps that
-- the policy asks about, and lists as many steps as the policy was asked about.
pub simulate_mission-IsPlan :
    (r : Runner) (mission : MissionTemplate) (snapshot : Option Fields) (plan : PlanSimulation)
    → simulate_mission r mission snapshot ≡ done plan
    → IsPlan r mission plan
unfolding simulate_mission
simulate_mission-IsPlan r mission snapshot plan h =
    IsPlan-agreed r mission snapshot (verdicts r mission.steps)
      (simulate_steps r mission.steps no_steps) plan refl
      (simulate_steps-Agree r mission.steps no_steps) h
