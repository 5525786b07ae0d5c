-- ===== src/Declaration.antt =====
-- src/voxera/core/execution_capabilities.py: the execution capabilities that a manifest declares.
-- Strings of the enumerations are constructors; `as_dict` gives them their values.
pub mod ReadOnly
use voxera_os.Base.{
  String, Bool, true, false, Option, List, [], ◌∷◌, ◌||◌, not, contains, map, if◌then◌else◌,
}
use voxera_os.Py.{
  Value, bool, text, array, object, Fields, end, field, of_list, texts, optional_text,
}
use voxera_os.Models.{SkillManifest, Risk, ExecMode, FsScope}
use voxera_os.Capability.{manifest_capability_semantics}

pub data SideEffectClass : Type 0 where
  class_a class_b class_c : SideEffectClass

pub data FilesystemScope : Type 0 where
  none confined broader : FilesystemScope

pub data NetworkScope : Type 0 where
  none read_only broader : NetworkScope

pub data SandboxProfile : Type 0 where
  host_local sandbox_no_network sandbox_network_scoped : SandboxProfile

pub record SecretRequirement : Type 0 where
  pub ref : String
  pub required : Bool
  pub purpose : Option String

pub record ExecutionCapabilityDeclaration : Type 0 where
  pub side_effect_class : SideEffectClass
  pub needs_network : Bool
  pub network_scope : NetworkScope
  pub allowed_domains : List String
  pub fs_scope : FilesystemScope
  pub allowed_paths : List String
  pub secret_refs : List SecretRequirement
  pub sandbox_profile : SandboxProfile
  pub expected_artifacts : List String

abbrev class_value : SideEffectClass → String
class_value class_a = "class_a"
class_value class_b = "class_b"
class_value class_c = "class_c"

abbrev fs_value : FilesystemScope → String
fs_value FilesystemScope.none = "none"
fs_value confined = "confined"
fs_value FilesystemScope.broader = "broader"

abbrev pub network_value : NetworkScope → String
network_value NetworkScope.none = "none"
network_value NetworkScope.read_only = "read_only"
network_value NetworkScope.broader = "broader"

abbrev profile_value : SandboxProfile → String
profile_value host_local = "host_local"
profile_value sandbox_no_network = "sandbox_no_network"
profile_value sandbox_network_scoped = "sandbox_network_scoped"

abbrev secret_value : SecretRequirement → Value
secret_value s = object (
    field "ref" (text s.ref)
      (field "required" (bool s.required) (field "purpose" (optional_text s.purpose) end)))

unfoldable pub as_dict : ExecutionCapabilityDeclaration → Fields
as_dict d = field "side_effect_class" (text (class_value d.side_effect_class)) (
    field "needs_network" (bool d.needs_network) (
      field "network_scope" (text (network_value d.network_scope)) (
        field "allowed_domains" (texts d.allowed_domains) (
          field "fs_scope" (text (fs_value d.fs_scope)) (
            field "allowed_paths" (texts d.allowed_paths) (
              field "secret_refs" (array (of_list (map secret_value d.secret_refs))) (
                field "sandbox_profile" (text (profile_value d.sandbox_profile))
                  (field "expected_artifacts" (texts d.expected_artifacts) end))))))))

abbrev pub fs_scope_map : FsScope → FilesystemScope
fs_scope_map FsScope.workspace_only = confined
fs_scope_map FsScope.read_only = FilesystemScope.none
fs_scope_map FsScope.broader = FilesystemScope.broader

abbrev is_broader_fs : FilesystemScope → Bool
is_broader_fs FilesystemScope.broader = true
is_broader_fs _ = false

abbrev is_broader_network : NetworkScope → Bool
is_broader_network NetworkScope.broader = true
is_broader_network _ = false

abbrev is_none_network : NetworkScope → Bool
is_none_network NetworkScope.none = true
is_none_network _ = false

-- The tests of the risk, in the order of the source's returns.
unfoldable pub derive_side_effect_class :
    Risk → List String → FilesystemScope → NetworkScope → SideEffectClass
derive_side_effect_class Risk.high effects fs net = class_c
derive_side_effect_class Risk.medium effects fs net =
    if is_broader_fs fs || is_broader_network net then class_c else class_b
derive_side_effect_class Risk.low effects fs net =
    if is_broader_fs fs || is_broader_network net
    then class_c
    else if contains "execute" effects || contains "write" effects
    then class_b
    else class_a

abbrev sandbox_profile_of : ExecMode → Bool → SandboxProfile
sandbox_profile_of ExecMode.local needs = host_local
sandbox_profile_of ExecMode.sandbox needs =
    if needs then sandbox_network_scoped else sandbox_no_network

abbrev allowed_paths_of : FilesystemScope → List String
allowed_paths_of confined = "$VOXERA_JOB_WORKSPACE" ∷ []
allowed_paths_of _ = []

unfoldable pub normalize_manifest_capabilities : SkillManifest → ExecutionCapabilityDeclaration
unfolding derive_side_effect_class
normalize_manifest_capabilities m =
    let net = if m.needs_network then NetworkScope.broader else NetworkScope.none in
    let fs = fs_scope_map m.fs_scope in
    let effects = (manifest_capability_semantics m).effect_classes in
    record {
      side_effect_class = derive_side_effect_class m.risk effects fs net;
      needs_network = not (is_none_network net);
      network_scope = net;
      allowed_domains = [];
      fs_scope = fs;
      allowed_paths = allowed_paths_of fs;
      secret_refs = [];
      sandbox_profile = sandbox_profile_of m.exec_mode m.needs_network;
      expected_artifacts = m.output_artifacts;
    }
