-- ===== src/Examples/Samples.antt =====
-- Manifests and policies that the tests share (skills/*/manifest.yml in the repository).
use voxera_os.Base.{String, Bool, true, false, none, List, [], ◌∷◌}
use voxera_os.Py.{Fields, end, field, text, bool}
use voxera_os.Models.{SkillManifest, PolicyApprovals, Verdict, Risk, ExecMode, FsScope}

abbrev manifest : String → List String → Risk → ExecMode → Bool → FsScope → SkillManifest
manifest id caps risk mode net scope = record {
  id = id;
  name = id;
  description = "a sample";
  entrypoint = "voxera_builtin_skills.sample:run";
  capabilities = caps;
  risk = risk;
  exec_mode = mode;
  needs_network = net;
  fs_scope = scope;
  output_artifacts = [];
  output_schema = none;
  args = end;
}

-- Reads system state only.
abbrev pub status_skill : SkillManifest
status_skill =
    manifest "system.status" ("state.read" ∷ []) Risk.low ExecMode.local false FsScope.read_only

-- Opens a page: two capabilities, one of them on the network.
abbrev pub open_url_skill : SkillManifest
open_url_skill =
    manifest "system.open_url" ("apps.open" ∷ "network.change" ∷ []) Risk.low ExecMode.local true
      FsScope.workspace_only

abbrev pub write_skill : SkillManifest
write_skill =
    manifest "files.write_text" ("files.write" ∷ []) Risk.low ExecMode.local false
      FsScope.workspace_only

abbrev pub delete_skill : SkillManifest
delete_skill =
    manifest "files.delete_file" ("file.delete" ∷ []) Risk.medium ExecMode.local false
      FsScope.workspace_only

abbrev pub closed_policy : PolicyApprovals
closed_policy = record {
  network_changes = Verdict.deny;
  installs = Verdict.deny;
  file_delete = Verdict.deny;
  open_apps = Verdict.ask;
  system_settings = Verdict.ask;
}

abbrev pub network_args : Fields
network_args = field "network" (bool true) end

abbrev pub note_args : Fields
note_args = field "path" (text "~/VoxeraOS/notes/a.txt") (field "content" (text "hello") end)
