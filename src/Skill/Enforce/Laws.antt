-- ===== src/Skill/Enforce/Laws.antt =====
-- When the runtime enforcement (src/voxera/skills/runner.py) allows, asks and denies.
use voxera_os.Base.{
  String, Bool, true, false, Option, none, some, List, ◌≡◌, refl, ◌&&◌, not, ap, nat_eq, length,
  any, map, arith, if◌then◌else◌,
}
use voxera_os.Base.Text.{strip, is_empty, sorted}
use voxera_os.Py.{Fields, truthy}
use voxera_os.Py.Dict.{get}
use voxera_os.Models.{Verdict, deny, PolicyApprovals, SkillManifest}
use voxera_os.Capability.{manifest_capability_semantics}
use voxera_os.Policy.{decide, is_allow, is_deny}
use voxera_os.Policy.Spec.{decide-verdict_of, guarded}
use voxera_os.Declaration.{normalize_manifest_capabilities, as_dict}
use voxera_os.Skill.Enforce.{
  Enforcement, is_ask, requests_network, network_boundary_violation, has_duplicates,
  unknown_capabilities, enforce_boundary, enforce_runtime_capabilities,
}

abbrev is_some : Option Fields → Bool
is_some none = false
is_some (some d) = true

-- The skill asks for the network that its manifest does not declare.
unfoldable pub violates : SkillManifest → Fields → Bool
violates m args =
    is_some (network_boundary_violation (as_dict (normalize_manifest_capabilities m)) args)

-- The manifest's capabilities are there, not blank, distinct and known.
unfoldable pub well_declared : SkillManifest → Bool
unfolding has_duplicates
well_declared m =
    let caps = map strip m.capabilities in
    not (nat_eq (length m.capabilities) 0)
    && not (any is_empty caps)
    && not (has_duplicates caps)
    && nat_eq (length (sorted (unknown_capabilities caps))) 0

abbrev Flags : Type 0
Flags = Bool × Bool × Bool

-- `allowed`, `needs_approval` and `denied`
abbrev pub flags : Enforcement → Flags
flags e = (e.allowed, e.needs_approval, e.denied)

abbrev pub verdict_flags : Verdict → Flags
verdict_flags v = (is_allow v, is_ask v, is_deny v)

boundary_flags :
    (m : SkillManifest) (p : PolicyApprovals) (args : Fields) (caps : List String) (d : Fields)
    (o : Option Fields)
    → flags (enforce_boundary m p args caps d o)
      ≡ verdict_flags (if is_some o then deny else (decide m p args).decision)
unfolding enforce_boundary
boundary_flags m p args caps d none = refl
boundary_flags m p args caps d (some v) = refl

-- The flags of the enforcement are those of one verdict: a denial if the capabilities are not well
-- declared or the arguments ask for an undeclared network, and the policy's verdict otherwise.
pub enforce-flags :
    (m : SkillManifest) (p : PolicyApprovals) (args : Fields)
    → flags (enforce_runtime_capabilities m p args)
      ≡ verdict_flags
          (if well_declared m && not (violates m args) then (decide m p args).decision else deny)
unfolding enforce_runtime_capabilities well_declared violates
enforce-flags m p args = ground (
  arith,
  boundary_flags m p args (map strip m.capabilities) (as_dict (normalize_manifest_capabilities m))
      (network_boundary_violation (as_dict (normalize_manifest_capabilities m)) args),
)

-- The declaration's entry is the manifest's flag.
needs_network_entry :
    (m : SkillManifest)
    → truthy (get "needs_network" (as_dict (normalize_manifest_capabilities m))) ≡ m.needs_network
unfolding as_dict normalize_manifest_capabilities get truthy
needs_network_entry m = ground arith

violates_lem :
    (m : SkillManifest) (args : Fields)
    → violates m args ≡ (not m.needs_network && requests_network (get "network" args))
unfolding violates network_boundary_violation
violates_lem m args = rw (needs_network_entry m) (ground arith)

networked_guarded :
    (m : SkillManifest) (args : Fields) → m.needs_network ≡ true → guarded m args ≡ true
unfolding guarded manifest_capability_semantics
networked_guarded m args h = ground arith

networked_not_allowed :
    (m : SkillManifest) (p : PolicyApprovals) (args : Fields)
    → m.needs_network ≡ true
    → is_allow (decide m p args).decision ≡ false
networked_not_allowed m p args h =
    ground (arith, decide-verdict_of m p args, networked_guarded m args h)

-- A skill that is allowed without an approval is not called with arguments that request the
-- network, whatever its manifest and the policy.
pub enforce_no_silent_network :
    (m : SkillManifest) (p : PolicyApprovals) (args : Fields)
    → (enforce_runtime_capabilities m p args).allowed ≡ true
    → requests_network (get "network" args) ≡ false
enforce_no_silent_network m p args h = ground (
  arith,
  ap (λ (f : Flags). f.0) (enforce-flags m p args),
  violates_lem m args,
  networked_not_allowed m p args,
)
