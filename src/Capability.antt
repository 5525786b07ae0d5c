-- ===== src/Capability.antt =====
-- src/voxera/core/capability_semantics.py: what each capability does, and the projection of a
-- manifest to what its capabilities do together.
pub mod Table
use voxera_os.Base.{
  ℕ, String, Bool, true, false, Option, none, some, List, [], ◌∷◌, ◌||◌, ◌==◌, any, map, present,
  ltb, if◌then◌else◌,
}
use voxera_os.Base.Text.{sorted, distinct}
use voxera_os.Models.{SkillManifest, FsScope}

pub data EffectClass : Type 0 where
  read write execute : EffectClass

pub data IntentClass : Type 0 where
  read_only mutating destructive : IntentClass

pub data Boundary : Type 0 where
  filesystem network secrets system : Boundary

-- The names of the policy's fields, which `policy_field` holds.
pub data PolicyField : Type 0 where
  open_apps network_changes installs file_delete system_settings : PolicyField

pub record CapabilitySemantic : Type 0 where
  pub capability : String
  pub effect_class : EffectClass
  pub intent_class : IntentClass
  pub policy_field : Option PolicyField
  pub resource_boundaries : List Boundary
  pub operator_summary : String

abbrev entry :
    String
    → EffectClass
    → IntentClass
    → Option PolicyField
    → List Boundary
    → String
    → CapabilitySemantic
entry c e i f b s = record {
  capability = c;
  effect_class = e;
  intent_class = i;
  policy_field = f;
  resource_boundaries = b;
  operator_summary = s;
}

-- The table, in the source's order; each entry's key is its `capability`.
abbrev pub capability_semantics : List CapabilitySemantic
capability_semantics =
    entry "apps.open" execute mutating (some open_apps) (system ∷ []) "Launches local applications."
    ∷ entry "network.change" write mutating (some network_changes) (network ∷ [])
        "Performs network side effects (connections or remote writes)."
    ∷ entry "install.packages" write mutating (some installs) (system ∷ network ∷ [])
        "Installs software on the host."
    ∷ entry "file.delete" write destructive (some file_delete) (filesystem ∷ [])
        "Deletes filesystem data."
    ∷ entry "system.settings" write mutating (some system_settings) (system ∷ [])
        "Mutates local system settings."
    ∷ entry "state.read" read read_only none (system ∷ []) "Reads local system state only."
    ∷ entry "files.read" read read_only none (filesystem ∷ []) "Reads files only."
    ∷ entry "files.write" write mutating none (filesystem ∷ []) "Creates or modifies files."
    ∷ entry "clipboard.read" read read_only none (system ∷ []) "Reads clipboard contents."
    ∷ entry "clipboard.write" write mutating none (system ∷ []) "Writes clipboard contents."
    ∷ entry "window.read" read read_only none (system ∷ []) "Reads window/session metadata."
    ∷ entry "sandbox.exec" execute mutating none (system ∷ filesystem ∷ [])
        "Executes commands in sandboxed runtime."
    ∷ []

find_semantic : String → List CapabilitySemantic → Option CapabilitySemantic
find_semantic c [] = none
find_semantic c (s ∷ ss) = if s.capability == c then some s else find_semantic c ss

-- `CAPABILITY_SEMANTICS.get(capability)`
unfoldable pub capability_semantic : String → Option CapabilitySemantic
unfolding find_semantic
capability_semantic c = find_semantic c capability_semantics

-- `CAPABILITY_EFFECT_CLASS.get(capability)`: the effect class of the same table
unfoldable pub capability_effect_class : String → Option EffectClass
capability_effect_class c = elim (capability_semantic c) [
  | none ↦ none
  | some s ↦ some s.effect_class
]

abbrev pub boundary_eq : Boundary → Boundary → Bool
boundary_eq filesystem filesystem = true
boundary_eq network network = true
boundary_eq secrets secrets = true
boundary_eq system system = true
boundary_eq _ _ = false

abbrev pub intent_rank : IntentClass → ℕ
intent_rank read_only = 0
intent_rank mutating = 1
intent_rank destructive = 2

abbrev pub effect_name : EffectClass → String
effect_name read = "read"
effect_name write = "write"
effect_name execute = "execute"

abbrev pub field_name : PolicyField → String
field_name open_apps = "open_apps"
field_name network_changes = "network_changes"
field_name installs = "installs"
field_name file_delete = "file_delete"
field_name system_settings = "system_settings"

pub record Boundaries : Type 0 where
  pub filesystem : Bool
  pub network : Bool
  pub secrets : Bool
  pub system : Bool

-- The result of `manifest_capability_semantics`.
pub record Projection : Type 0 where
  pub intent_class : IntentClass
  pub effect_classes : List String
  pub resource_boundaries : Boundaries
  pub approval_policy_fields : List String
  pub declared_capabilities : List String

-- `any(b in item.resource_boundaries for item in present)`
unfoldable pub touches : Boundary → List CapabilitySemantic → Bool
touches b = any (λ s. any (boundary_eq b) s.resource_boundaries)

-- The loop that keeps the intent of the highest rank.
unfoldable pub highest_intent : IntentClass → List CapabilitySemantic → IntentClass
highest_intent i [] = i
highest_intent i (s ∷ ss) =
    highest_intent (if ltb (intent_rank i) (intent_rank s.intent_class) then s.intent_class else i)
      ss

-- A broader file scope makes a reading manifest a mutating one.
unfoldable pub scoped_intent : FsScope → IntentClass → IntentClass
scoped_intent FsScope.broader read_only = mutating
scoped_intent _ i = i

-- The semantics of the manifest's known capabilities.
unfoldable pub known_semantics : SkillManifest → List CapabilitySemantic
known_semantics m = present (map capability_semantic m.capabilities)

unfoldable pub manifest_capability_semantics : SkillManifest → Projection
unfolding known_semantics touches highest_intent scoped_intent
manifest_capability_semantics m =
    let found = known_semantics m in
    record {
      intent_class = scoped_intent m.fs_scope (highest_intent read_only found);
      effect_classes = sorted (distinct (map (λ s. effect_name s.effect_class) found));
      resource_boundaries = record {
        filesystem = touches filesystem found;
        network = touches network found || m.needs_network;
        secrets = touches secrets found;
        system = touches system found;
      };
      approval_policy_fields =
          sorted (distinct (map field_name (present (map (λ s. s.policy_field) found))));
      declared_capabilities = sorted m.capabilities;
    }
