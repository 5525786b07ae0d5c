-- ===== src/Skill/Enforce.antt =====
-- The runtime enforcement of src/voxera/skills/runner.py: what is checked of a manifest and its
-- arguments before a skill may run.
pub mod Laws
use voxera_os.Base.{
  String, Bool, true, false, Option, none, some, List, [], ◌∷◌, ◌||◌, ◌&&◌, not, ◌==◌, nat_eq,
  length, any, all, map, present, contains, if◌then◌else◌,
}
use voxera_os.Base.Text.{strip, lower, sorted, distinct, join, is_empty, ◌+s◌}
use voxera_os.Py.{Value, bool, text, object, Fields, end, field, truthy}
use voxera_os.Py.Dict.{find, get, put}
use voxera_os.Models.{Verdict, allow, ask, deny, PolicyApprovals, SkillManifest}
use voxera_os.Capability.{
  CapabilitySemantic, IntentClass, EffectClass, capability_semantic, capability_effect_class,
  effect_name,
}
use voxera_os.Policy.{PolicyDecision, decide, is_allow, is_deny}
use voxera_os.Declaration.{normalize_manifest_capabilities, as_dict}

abbrev reads_only : Option CapabilitySemantic → Bool
reads_only none = false
reads_only (some s) = elim s.intent_class [ IntentClass.read_only ↦ true | _ ↦ false ]

-- `is_skill_read_only`
unfoldable pub is_skill_read_only : SkillManifest → Bool
is_skill_read_only m = elim m.capabilities [
  | [] ↦ false
  | c ∷ cs ↦ all (λ k. reads_only (capability_semantic k)) (c ∷ cs)
]

pub record Enforcement : Type 0 where
  pub allowed : Bool
  pub needs_approval : Bool
  pub denied : Bool
  pub reason : String
  pub reason_class : String
  pub decision : Verdict
  pub capabilities : List String
  pub effect_classes : List String
  pub declaration : Fields

-- `raw_network is True`, or a text that says so
abbrev pub requests_network : Value → Bool
requests_network (bool b) = b
requests_network (text s) = contains (lower (strip s)) ("1" ∷ "true" ∷ "yes" ∷ "on" ∷ [])
requests_network _ = false

-- `declaration.get("network_scope", "none")`
abbrev scope_or_none : Fields → Value
scope_or_none d = elim (find "network_scope" d) [ none ↦ text "none" | some v ↦ v ]

unfoldable pub network_boundary_violation : Fields → Fields → Option Fields
network_boundary_violation declaration args =
    if truthy (get "needs_network" declaration)
    then none
    else if not (requests_network (get "network" args))
    then none
    else some (
        field "boundary" (text "network") (
          field "declared_network_scope" (scope_or_none declaration)
            (field "requested_network" (bool true) (field "runtime_arg" (text "network") end))))

-- A denial before the policy is asked.
abbrev refusal : String → String → List String → List String → Fields → Enforcement
refusal reason reason_class caps effects declaration = record {
  allowed = false;
  needs_approval = false;
  denied = true;
  reason = reason;
  reason_class = reason_class;
  decision = deny;
  capabilities = caps;
  effect_classes = effects;
  declaration = declaration;
}

unfoldable pub has_duplicates : List String → Bool
has_duplicates caps = not (nat_eq (length (distinct caps)) (length caps))

abbrev pub is_known : String → Bool
is_known c = elim (capability_effect_class c) [ none ↦ false | some e ↦ true ]

unfoldable pub unknown_capabilities : List String → List String
unknown_capabilities [] = []
unknown_capabilities (c ∷ cs) =
    if is_known c then unknown_capabilities cs else c ∷ unknown_capabilities cs

unfoldable pub effects_of : List String → List String
effects_of caps = sorted (distinct (map effect_name (present (map capability_effect_class caps))))

abbrev pub is_ask : Verdict → Bool
is_ask ask = true
is_ask _ = false

abbrev verdict_of_policy : PolicyDecision → List String → List String → Fields → Enforcement
verdict_of_policy d caps effects declaration = record {
  allowed = is_allow d.decision;
  needs_approval = is_ask d.decision;
  denied = is_deny d.decision;
  reason = d.reason;
  reason_class = "policy_decision";
  decision = d.decision;
  capabilities = caps;
  effect_classes = effects;
  declaration = declaration;
}

-- The last two checks: the network boundary, then the policy.
unfoldable pub enforce_boundary :
    SkillManifest → PolicyApprovals → Fields → List String → Fields → Option Fields → Enforcement
enforce_boundary m policy args caps declaration (some violation) =
    refusal
      "Runtime requested network access but this skill declares network_scope=none (fail-closed)."
      "capability_boundary_mismatch" (sorted caps) (effects_of caps)
      (put "runtime_boundary_violation" (object violation) declaration)
enforce_boundary m policy args caps declaration none =
    verdict_of_policy (decide m policy args) (sorted caps) (effects_of caps) declaration

unfoldable pub enforce_names :
    SkillManifest → PolicyApprovals → Fields → List String → Fields → Enforcement
unfolding enforce_boundary has_duplicates
enforce_names m policy args caps declaration =
    let unknown = sorted (unknown_capabilities caps) in
    if has_duplicates caps
    then refusal "Skill manifest capability declarations are ambiguous (duplicates present)."
        "ambiguous_capability_metadata" (sorted (distinct caps)) [] declaration
    else if not (nat_eq (length unknown) 0)
    then refusal
        ("Skill manifest declares unknown capability metadata: " +s join ", " unknown +s ".")
        "unknown_capability_metadata" (sorted caps) [] declaration
    else enforce_boundary m policy args caps declaration
        (network_boundary_violation declaration args)

-- `_enforce_runtime_capabilities`
unfoldable pub enforce_runtime_capabilities : SkillManifest → PolicyApprovals → Fields → Enforcement
unfolding enforce_names
enforce_runtime_capabilities m policy args =
    let declaration = as_dict (normalize_manifest_capabilities m) in
    let caps = map strip m.capabilities in
    if nat_eq (length m.capabilities) 0
    then refusal "Skill manifest missing required capability declarations."
        "missing_capability_metadata" [] [] declaration
    else if any is_empty caps
    then refusal "Skill manifest capability declarations are malformed."
        "malformed_capability_metadata" [] [] declaration
    else enforce_names m policy args caps declaration
