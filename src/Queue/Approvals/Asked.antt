-- ===== src/Queue/Approvals/Asked.antt =====
-- When the queue lets a step run, and what it answers otherwise (src/voxera/core/queue_approvals.py).
use voxera_os.Base.{
  ℕ, String, Bool, true, false, List, [], ◌∷◌, ◌≡◌, ◌⊎◌, inl, inr, refl, sym, ap, ◌∙◌, arith, ◌||◌,
  ◌≢◌, if◌then◌else◌, eq_iff, eq_refl, Bool-cases,
}
use voxera_os.Py.{Value, bool, text, object, Fields}
use voxera_os.Py.Dict.{get, find}
use voxera_os.Models.{SkillManifest}
use voxera_os.Policy.{PolicyDecision}
use voxera_os.Queue.Approvals.{
  Grant, StepKey, Approvals, Daemon, same_key, is_approved, discard, same_grant, has_approval_grant,
  decision_capability, scope_name, step_number, step_key, grant_for, auto_approved, pending,
  approval_target, queue_approval_prompt,
}

abbrev pub IsIn : {A : Type 0} → A → List A → Type 0
IsIn x [] = ⊥
IsIn x (y ∷ ys) = (x ≡ y) ⊎ IsIn x ys

-- The step of this job with this skill was approved, or a grant is for this skill, the first
-- capability of the reason, the file scope and the network, or the daemon approves the change of a
-- setting by itself.
abbrev pub MayRun : Daemon → SkillManifest → PolicyDecision → Fields → Approvals → Type 0
MayRun daemon m d context s =
    IsIn
      (record {
        job = daemon.current_job_ref;
        step = step_number (get "step" context);
        skill_id = m.id;
      })
      s.approved_steps
    ⊎ (IsIn
          (record {
            skill = m.id;
            capability = decision_capability d.reason;
            fs_scope = scope_name m.fs_scope;
            needs_network = m.needs_network;
          })
          s.grants
        ⊎ ((daemon.auto_approve_ask ≡ true)
            × (daemon.dev_mode ≡ true)
            × (decision_capability d.reason ≡ "system.settings")))

-- A pending answer names the step, the skill, the capability and the target that wait.
abbrev pub IsPending : Daemon → SkillManifest → PolicyDecision → Fields → Fields → Value → Type 0
IsPending daemon m d context args answer =
    (p : Fields) × (answer ≡ object p)
    × (get "status" p ≡ text "pending")
    × (get "step" p ≡ get "step" context)
    × (get "skill" p ≡ text m.id)
    × (get "capability" p ≡ text (decision_capability d.reason))
    × (get "target" p ≡ object (approval_target m.id args))

abbrev key : String → ℕ → String → StepKey
key j n i = record { job = j; step = n; skill_id = i }

abbrev grant : String → String → String → Bool → Grant
grant i c f n = record { skill = i; capability = c; fs_scope = f; needs_network = n }

same_key-eq : (a b : StepKey) → same_key a b ≡ true → b ≡ a
same_key-eq a b h =
    let job : b.job ≡ a.job = ground (arith, h, eq_iff a.job b.job) in
    let step : b.step ≡ a.step = ground (arith, h) in
    let skill : b.skill_id ≡ a.skill_id = ground (arith, h, eq_iff a.skill_id b.skill_id) in
    ap (λ j. key j b.step b.skill_id) job
    ∙ ap (λ n. key a.job n b.skill_id) step
    ∙ ap (key a.job a.step) skill

same_key_self : (a : StepKey) → same_key a a ≡ true
same_key_self a = ground (arith, eq_refl a.job, eq_refl a.skill_id)

same_grant-eq : (a b : Grant) → same_grant a b ≡ true → b ≡ a
same_grant-eq a b h =
    let skill : b.skill ≡ a.skill = ground (arith, h, eq_iff a.skill b.skill) in
    let capability : b.capability ≡ a.capability =
      ground (arith, h, eq_iff a.capability b.capability) in
    let scope : b.fs_scope ≡ a.fs_scope = ground (arith, h, eq_iff a.fs_scope b.fs_scope) in
    let network : b.needs_network ≡ a.needs_network = ground (arith, h) in
    ap (λ i. grant i b.capability b.fs_scope b.needs_network) skill
    ∙ ap (λ c. grant a.skill c b.fs_scope b.needs_network) capability
    ∙ ap (λ f. grant a.skill a.capability f b.needs_network) scope
    ∙ ap (grant a.skill a.capability a.fs_scope) network

same_grant_self : (a : Grant) → same_grant a a ≡ true
same_grant_self a = ground (arith, eq_refl a.skill, eq_refl a.capability, eq_refl a.fs_scope)

is_approved-IsIn : (k : StepKey) (js : List StepKey) → is_approved k js ≡ true → IsIn k js
unfolding is_approved
is_approved-IsIn k [] h = cc
is_approved-IsIn k (j ∷ js) h = elim (Bool-cases (same_key j k)) [
  | inl same ↦ inl (same_key-eq j k same)
  | inr other ↦ inr (is_approved-IsIn k js (ground (arith, h, other)))
]

IsIn-is_approved : (k : StepKey) (js : List StepKey) → IsIn k js → is_approved k js ≡ true
unfolding is_approved
IsIn-is_approved k [] i = absurd i
IsIn-is_approved k (j ∷ js) (inl same) =
    ap (λ l. same_key l k || is_approved k js) (sym same) ∙ ground (arith, same_key_self k)
IsIn-is_approved k (j ∷ js) (inr i) = ground (arith, IsIn-is_approved k js i)

has_approval_grant-IsIn : (g : Grant) (hs : List Grant) → has_approval_grant g hs ≡ true → IsIn g hs
unfolding has_approval_grant
has_approval_grant-IsIn g [] h = cc
has_approval_grant-IsIn g (j ∷ js) h = elim (Bool-cases (same_grant j g)) [
  | inl same ↦ inl (same_grant-eq j g same)
  | inr other ↦ inr (has_approval_grant-IsIn g js (ground (arith, h, other)))
]

IsIn-has_approval_grant : (g : Grant) (hs : List Grant) → IsIn g hs → has_approval_grant g hs ≡ true
unfolding has_approval_grant
IsIn-has_approval_grant g [] i = absurd i
IsIn-has_approval_grant g (j ∷ js) (inl same) =
    ap (λ l. same_grant l g || has_approval_grant g js) (sym same)
    ∙ ground (arith, same_grant_self g)
IsIn-has_approval_grant g (j ∷ js) (inr i) = ground (arith, IsIn-has_approval_grant g js i)

true-ne-false : ◌≢◌ {A = Bool} true false
true-ne-false e = cc

module _ (daemon : Daemon) (m : SkillManifest) (d : PolicyDecision) (context : Fields)
    (s : Approvals) where
  abbrev approved : Bool
  approved = is_approved (step_key daemon m context) s.approved_steps

  abbrev granted : Bool
  granted = has_approval_grant (grant_for m d) s.grants

  abbrev automatic : Bool
  automatic = auto_approved daemon d

  tests-MayRun : (approved || granted || automatic) ≡ true → MayRun daemon m d context s
  unfolding auto_approved step_key grant_for
  tests-MayRun h = elim (Bool-cases approved) [
    | inl step ↦ inl (is_approved-IsIn _ s.approved_steps step)
    | inr new ↦ elim (Bool-cases granted) [
      | inl stored ↦ inr (inl (has_approval_grant-IsIn _ s.grants stored))
      | inr not_stored ↦
          let itself : automatic ≡ true = ground (arith, h, new, not_stored) in
          inr (
            inr (
              ground (arith, itself),
              ground (arith, itself),
              ground (arith, itself, eq_iff "system.settings" (decision_capability d.reason)),
            ))
    ]
  ]

  MayRun-tests : MayRun daemon m d context s → (approved || granted || automatic) ≡ true
  unfolding auto_approved step_key grant_for
  MayRun-tests (inl i) =
      let step : approved ≡ true = IsIn-is_approved _ s.approved_steps i in ground (arith, step)
  MayRun-tests (inr (inl i)) =
      let stored : granted ≡ true = IsIn-has_approval_grant _ s.grants i in ground (arith, stored)
  MayRun-tests (inr (inr (asked, dev, setting))) =
      let itself : automatic ≡ true =
        ground
          (arith, asked, dev, setting, eq_iff "system.settings" (decision_capability d.reason)) in
      ground (arith, itself)

  module _ (args : Fields) where
    -- Either the step may run, and the answer is true, or it is pending.
    abbrev pub Answered : Value × Approvals → Type 0
    Answered (answer, after) =
        ((answer ≡ bool true) × MayRun daemon m d context s)
        ⊎ (IsPending daemon m d context args answer × (after ≡ s) × ¬ MayRun daemon m d context s)

    by_tests :
        (a b : Bool)
        → approved ≡ a
        → (granted || automatic) ≡ b
        → Answered (
            if a
            then (
              bool true,
              record s { approved_steps = discard (step_key daemon m context) s.approved_steps },
            )
            else if b
            then (bool true, s)
            else (pending daemon m d context args, s))
    unfolding pending get find
    by_tests true b step rest = inl (refl, tests-MayRun (ground (arith, step)))
    by_tests false true step rest = inl (refl, tests-MayRun (ground (arith, rest)))
    by_tests false false step rest = inr (
      (_, refl, refl, refl, refl, refl, refl),
      refl,
      λ may.
          let one : (approved || granted || automatic) ≡ true = MayRun-tests may in
          true-ne-false (sym one ∙ ground (arith, step, rest)),
    )

-- The queue answers with true exactly where the step may run: this step of this job with this skill
-- was approved, or a grant is for its skill, the first capability of the policy's reason, its file
-- scope and its network, or the capability is system.settings, and approval is automatic in
-- development mode. Otherwise it answers that the step is pending, with what it waits for, and no
-- approval is used up.
pub queue_approval_prompt-Answered :
    (daemon : Daemon) (m : SkillManifest) (d : PolicyDecision) (context args : Fields)
    (s : Approvals)
    → Answered daemon m d context s args (queue_approval_prompt daemon m d context args s)
unfolding queue_approval_prompt
queue_approval_prompt-Answered daemon m d context args s =
    by_tests daemon m d context s args (is_approved (step_key daemon m context) s.approved_steps)
      (has_approval_grant (grant_for m d) s.grants || auto_approved daemon d) refl refl
