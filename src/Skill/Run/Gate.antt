-- ===== src/Skill/Run/Gate.antt =====
-- A skill is called exactly when the enforcement and the approval let it
-- (`SkillRunner.run` of src/voxera/skills/runner.py).
use voxera_os.Base.{
  String, Bool, true, false, Option, none, some, List, [], ◌∷◌, ◌++◌, ◌≡◌, refl, ◌&&◌, not, ap,
  arith, if◌then◌else◌,
}
use voxera_os.Py.{Value, Fields, truthy}
use voxera_os.Models.{Verdict, allow, ask, deny, PolicyApprovals, SkillManifest}
use voxera_os.Policy.{PolicyDecision, decide}
use voxera_os.Skill.Args.{Canonical, done, raised, canonicalize_args}
use voxera_os.Skill.Enforce.{Enforcement, enforce_runtime_capabilities}
use voxera_os.Skill.Enforce.Laws.{violates, well_declared, flags, verdict_flags, enforce-flags}
use voxera_os.Skill.Report.{Effect, audit, invoke}
use voxera_os.Skill.Run.{
  Effect, audit, invoke, escaped, Host, Callback, Outcome, mission_event, execute_skill,
  pending_answer, run_answered, ask_callback, run_enforced, run,
}

-- The arguments of the calls of the skill.
unfoldable pub invoked : List Effect → List Fields
invoked [] = []
invoked (audit name d ∷ es) = invoked es
invoked (invoke name args ∷ es) = args ∷ invoked es

-- The verdict on a call with canonical arguments.
unfoldable pub gate_verdict : SkillManifest → PolicyApprovals → Fields → Verdict
gate_verdict m p a = if well_declared m && not (violates m a) then (decide m p a).decision else deny

-- A truthy answer that is not the dictionary of a pending approval.
abbrev pub grants : Value → Bool
grants v = elim (pending_answer v) [ none ↦ truthy v | some d ↦ false ]

-- Without a callback a question counts as granted.
unfoldable pub granted : Option Callback → SkillManifest → PolicyDecision → Fields → Fields → Bool
granted none m d context a = true
granted (some cb) m d context a = grants (ask_callback cb m d context a)

abbrev pub lets_run : Verdict → Bool → Bool
lets_run allow answer = true
lets_run ask answer = answer
lets_run deny answer = false

-- The call that follows if the entry point loads.
abbrev pub call_if : Bool → Option String → Fields → List Fields
call_if true none a = a ∷ []
call_if _ _ a = []

invoked-append : (es fs : List Effect) → invoked (es ++ fs) ≡ invoked es ++ invoked fs
unfolding invoked
invoked-append [] fs = refl
invoked-append (audit n d ∷ es) fs = invoked-append es fs
invoked-append (invoke n a ∷ es) fs = ap (λ r. a ∷ r) (invoked-append es fs)

invoked-mission_event :
    (name : String) (context : Fields) (m : SkillManifest) (e : Enforcement) (fs : List Effect)
    → invoked (mission_event name context m e ++ fs) ≡ invoked fs
unfolding invoked mission_event
invoked-mission_event name context m e fs = ground arith

module _ (host : Host) (m : SkillManifest) (a context : Fields) (e : Enforcement) where
  invoked-execute :
      invoked (execute_skill host m a e).effects ≡ call_if true (host.load_entrypoint m) a
  unfolding invoked execute_skill
  invoked-execute = ground arith

  invoked-answered :
      (v : Value)
      → invoked (run_answered host m a context e v).effects
        ≡ call_if (grants v) (host.load_entrypoint m) a
  unfolding run_answered invoked
  invoked-answered v = ground (
    arith,
    invoked-mission_event "mission_approved" context m e (execute_skill host m a e).effects,
    invoked-mission_event "mission_denied" context m e,
    invoked-execute,
  )

  invoked-enforced :
      (p : PolicyApprovals) (cb : Option Callback) (v : Verdict)
      → flags e ≡ verdict_flags v
      → invoked (run_enforced host m a p cb context e).effects
        ≡ call_if (lets_run v (granted cb m (decide m p a) context a)) (host.load_entrypoint m) a
  unfolding run_enforced invoked granted
  invoked-enforced p none allow f = ground (arith, invoked-execute)
  invoked-enforced p none ask f = ground (arith, invoked-execute)
  invoked-enforced p none deny f = ground (arith, invoked-execute)
  invoked-enforced p (some cb) allow f = ground (arith, invoked-execute)
  invoked-enforced p (some cb) ask f =
      ground (arith, invoked-answered (ask_callback cb m (decide m p a) context a))
  invoked-enforced p (some cb) deny f = ground (arith, invoked-execute)

-- The calls that `run` should make.
abbrev pub expected_calls :
    Host
    → SkillManifest
    → PolicyApprovals
    → Option Callback
    → Fields
    → Canonical Fields
    → List Fields
expected_calls host m p cb context (raised exception) = []
expected_calls host m p cb context (done a) =
    call_if (lets_run (gate_verdict m p a) (granted cb m (decide m p a) context a))
      (host.load_entrypoint m) a

-- A run calls the skill at most once, and with its canonical arguments: it calls it exactly when
-- the arguments have a canonical form, the entry point loads, and the verdict on the call is to
-- allow it, or to ask and the callback, if there is one, gives a truthy answer that is not a pending
-- one. The verdict is the policy's, and a denial for capabilities that are not well declared and
-- for a network that the manifest does not declare.
pub invoked-run :
    (host : Host) (m : SkillManifest) (args : Fields) (p : PolicyApprovals) (cb : Option Callback)
    (context : Fields)
    → invoked (run host m args p cb context).effects
      ≡ expected_calls host m p cb context (canonicalize_args host.read_float m.id args)
unfolding run
invoked-run host m args p cb context = after (canonicalize_args host.read_float m.id args)
  where
    after :
        (r : Canonical Fields)
        → invoked
            (elim r as (λ _. Outcome) [
              | raised exception ↦ record { exit = escaped exception; effects = [] }
              | done a ↦ run_enforced host m a p cb context (enforce_runtime_capabilities m p a)
            ]).effects
          ≡ expected_calls host m p cb context r
    after (raised exception) = unfold invoked in refl
    after (done a) =
        invoked-enforced host m a context (enforce_runtime_capabilities m p a) p cb
          (gate_verdict m p a) (unfold gate_verdict in enforce-flags m p a)
