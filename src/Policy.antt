-- ===== src/Policy.antt =====
-- src/voxera/policy.py: the verdict of the policy on a skill and its arguments. The reason is
-- kept as the list of its parts and joined at the end, as the source does.
pub mod Spec
pub mod Monotone
use voxera_os.Base.{
  String, Bool, true, false, Option, none, some, List, [], ◌∷◌, ◌++◌, if◌then◌else◌,
}
use voxera_os.Base.Text.{◌+s◌, join}
use voxera_os.Py.{Fields, truthy}
use voxera_os.Py.Dict.{get}
use voxera_os.Models.{
  Verdict, allow, ask, deny, PolicyApprovals, SkillManifest, FsScope, Risk, ExecMode,
}
use voxera_os.Capability.{
  PolicyField, open_apps, network_changes, installs, file_delete, system_settings,
  CapabilitySemantic, EffectClass, capability_semantic, capability_effect_class,
  manifest_capability_semantics,
}

pub record PolicyDecision : Type 0 where
  pub decision : Verdict
  pub reason : String

-- `getattr(policy, field)`
abbrev pub policy_value : PolicyApprovals → PolicyField → Verdict
policy_value p open_apps = p.open_apps
policy_value p network_changes = p.network_changes
policy_value p installs = p.installs
policy_value p file_delete = p.file_delete
policy_value p system_settings = p.system_settings

abbrev pub verdict_name : Verdict → String
verdict_name allow = "allow"
verdict_name ask = "ask"
verdict_name deny = "deny"

-- `allow` for a capability with no policy field that the table knows, `ask` for any other
abbrev pub unfielded_verdict : Option EffectClass → Verdict
unfielded_verdict none = ask
unfielded_verdict (some _) = allow

abbrev pub fielded_verdict : PolicyApprovals → Option PolicyField → Option EffectClass → Verdict
fielded_verdict p (some f) effect = policy_value p f
fielded_verdict p none effect = unfielded_verdict effect

abbrev pub semantic_field : Option CapabilitySemantic → Option PolicyField
semantic_field none = none
semantic_field (some s) = s.policy_field

-- The verdict on one capability.
unfoldable pub capability_verdict : PolicyApprovals → String → Verdict
capability_verdict p cap =
    fielded_verdict p (semantic_field (capability_semantic cap)) (capability_effect_class cap)

-- A denial replaces what was decided, and a question replaces all but a denial.
abbrev pub combine : Verdict → Verdict → Verdict
combine decision deny = deny
combine deny ask = deny
combine decision ask = ask
combine decision allow = decision

-- `if decision == "allow": decision = "ask"`
abbrev pub raise_to_ask : Bool → Verdict → Verdict
raise_to_ask true allow = ask
raise_to_ask _ d = d

-- The loop over the capabilities.
unfoldable pub decide_capabilities :
    PolicyApprovals → List String → Verdict → List String → Verdict × List String
decide_capabilities p [] decision reasons = (decision, reasons)
decide_capabilities p (cap ∷ caps) decision reasons =
    let v = capability_verdict p cap in
    decide_capabilities p caps (combine decision v)
      (reasons ++ (cap +s " -> " +s verdict_name v) ∷ [])

abbrev pub is_broader : FsScope → Bool
is_broader FsScope.broader = true
is_broader _ = false

abbrev pub is_high : Risk → Bool
is_high Risk.high = true
is_high _ = false

abbrev pub is_sandbox : ExecMode → Bool
is_sandbox ExecMode.sandbox = true
is_sandbox _ = false

abbrev pub is_allow : Verdict → Bool
is_allow allow = true
is_allow _ = false

abbrev pub is_deny : Verdict → Bool
is_deny deny = true
is_deny _ = false

-- `"; ".join(reasons) if reasons else "no capabilities"`
unfoldable pub reason_text : List String → String
reason_text [] = "no capabilities"
reason_text (r ∷ rs) = join "; " (r ∷ rs)

-- What the sandbox adds: the decision and the reasons.
unfoldable pub sandbox_check : Bool → Bool → Verdict → List String → Verdict × List String
sandbox_check false network decision reasons = (decision, reasons)
sandbox_check true network decision reasons = (
  raise_to_ask network decision,
  (reasons ++ ("runs in SANDBOX (network=" +s (if network then "on" else "off") +s ")") ∷ [])
      ++ (if network
          then (if is_allow decision
              then "sandbox network requested => approval required" ∷ []
              else [])
          else []),
)

unfoldable pub decide : SkillManifest → PolicyApprovals → Fields → PolicyDecision
unfolding decide_capabilities sandbox_check reason_text
decide m p args =
    let semantics = manifest_capability_semantics m in
    let (d₀, r₀) = decide_capabilities p m.capabilities allow [] in
    let network = semantics.resource_boundaries.network in
    let d₁ = raise_to_ask network d₀ in
    let r₁ = r₀ ++ (if network then "skill semantics network boundary=true" ∷ [] else []) in
    let broader = is_broader m.fs_scope in
    let d₂ = raise_to_ask broader d₁ in
    let r₂ = r₁ ++ (if broader then "skill metadata fs_scope=broader" ∷ [] else []) in
    let high = is_high m.risk in
    let d₃ = raise_to_ask high d₂ in
    let r₃ = r₂ ++ (if high then "skill metadata risk=high" ∷ [] else []) in
    let (d₄, r₄) = sandbox_check (is_sandbox m.exec_mode) (truthy (get "network" args)) d₃ r₃ in
    record { decision = d₄; reason = reason_text r₄ }
