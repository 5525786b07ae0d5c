-- ===== src/Queue/Approvals/Laws.antt =====
-- What the queue approves (src/voxera/core/queue_approvals.py).
use voxera_os.Base.{
  Bool, true, false, none, some, List, [], ◌∷◌, ◌++◌, ◌||◌, ◌≡◌, refl, arith, eq_iff, eq_refl,
}
use voxera_os.Py.{Value, Fields, truthy}
use voxera_os.Py.Dict.{get, find}
use voxera_os.Models.{SkillManifest}
use voxera_os.Policy.{PolicyDecision}
use voxera_os.Skill.Run.{pending_answer}
use voxera_os.Queue.Approvals.{
  Grant, StepKey, Approvals, Daemon, is_approved, discard, same_grant, has_approval_grant,
  grant_approval_scope, step_key, grant_for, auto_approved, pending, queue_approval_prompt,
}

-- The answer lets the skill run.
abbrev pub lets_run : Value → Bool
lets_run v = elim (pending_answer v) [ none ↦ truthy v | some d ↦ false ]

is_approved-discard : (k : StepKey) (js : List StepKey) → is_approved k (discard k js) ≡ false
unfolding is_approved discard
is_approved-discard k [] = refl
is_approved-discard k (j ∷ js) = ground (arith, is_approved-discard k js)

-- The prompt's answer, by its three tests.
pub prompt-lets_run :
    (daemon : Daemon) (m : SkillManifest) (d : PolicyDecision) (context args : Fields)
    (s : Approvals)
    → lets_run (queue_approval_prompt daemon m d context args s).0 ≡ (
        is_approved (step_key daemon m context) s.approved_steps
        || has_approval_grant (grant_for m d) s.grants
        || auto_approved daemon d)
unfolding queue_approval_prompt pending get find truthy
prompt-lets_run daemon m d context args s = ground arith

-- An approval of a step is used up by the prompt that it answers: without a grant and without
-- automatic approval, the same prompt is not answered by it again.
pub prompt-once :
    (daemon : Daemon) (m : SkillManifest) (d : PolicyDecision) (context args : Fields)
    (s : Approvals)
    → has_approval_grant (grant_for m d) s.grants ≡ false
    → auto_approved daemon d ≡ false
    → lets_run
        (queue_approval_prompt daemon m d context args
          (queue_approval_prompt daemon m d context args s).1).0
      ≡ false
unfolding queue_approval_prompt pending get find truthy
prompt-once daemon m d context args s no_grant no_auto =
    ground (arith, is_approved-discard (step_key daemon m context) s.approved_steps)

same_grant_self : (g : Grant) → same_grant g g ≡ true
same_grant_self g = ground (arith, eq_refl g.skill, eq_refl g.capability, eq_refl g.fs_scope)

has_approval_grant-append :
    (g h : Grant) (gs : List Grant)
    → has_approval_grant g (gs ++ h ∷ []) ≡ (has_approval_grant g gs || same_grant h g)
unfolding has_approval_grant
has_approval_grant-append g h [] = ground arith
has_approval_grant-append g h (k ∷ gs) = ground (arith, has_approval_grant-append g h gs)

has_approval_grant-same :
    (g h : Grant) (gs : List Grant)
    → same_grant h g ≡ true
    → has_approval_grant h gs ≡ has_approval_grant g gs
unfolding has_approval_grant
has_approval_grant-same g h [] e = refl
has_approval_grant-same g h (k ∷ gs) e = ground (
  arith,
  has_approval_grant-same g h gs e,
  eq_iff h.skill g.skill,
  eq_iff h.capability g.capability,
  eq_iff h.fs_scope g.fs_scope,
)

-- After a grant, the grants that are found are those found before and those equal to it, and
-- granting it again changes nothing.
pub grant-found :
    (g h : Grant) (gs : List Grant)
    → (has_approval_grant g (grant_approval_scope h gs)
        ≡ (has_approval_grant g gs || same_grant h g))
      × (grant_approval_scope h (grant_approval_scope h gs) ≡ grant_approval_scope h gs)
unfolding grant_approval_scope
grant-found g h gs = (
  ground (arith, has_approval_grant-same g h gs, has_approval_grant-append g h gs),
  ground (arith, has_approval_grant-append h h gs, same_grant_self h),
)
