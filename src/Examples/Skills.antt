-- ===== src/Examples/Skills.antt =====
-- Runs of sample skills under a sample host.
use voxera_os.Base.{true, false, none, some, ◌≡◌, refl, ◌&&◌, not, if◌then◌else◌}
use voxera_os.Base.Text.{strip, sorted, distinct}
use voxera_os.Py.{object, bool, text, end, field, truthy}
use voxera_os.Py.Dict.{get, find}
use voxera_os.Models.{deny, default_policy}
use voxera_os.Policy.{capability_verdict, decide}
use voxera_os.Skill.Args.{canonicalize_args}
use voxera_os.Capability.{
  capability_semantic, capability_effect_class, manifest_capability_semantics,
}
use voxera_os.Declaration.{normalize_manifest_capabilities, as_dict}
use voxera_os.Skill.Enforce.{
  network_boundary_violation, unknown_capabilities, effects_of, requests_network,
  enforce_runtime_capabilities,
}
use voxera_os.Skill.Enforce.Laws.{
  flags, verdict_flags, well_declared, violates, enforce-flags, enforce_no_silent_network,
}
use voxera_os.Skill.Run.{Host, Callback, returned, run}
use voxera_os.Skill.Run.Gate.{invoked, expected_calls, invoked-run}
use voxera_os.Examples.Samples.{open_url_skill, write_skill, network_args, note_args}
use voxera_os.Examples.Args.{sample_float}

abbrev pub sample_host : Host
sample_host = record {
  read_float = sample_float;
  load_entrypoint = λ m. none;
  execute = λ m args job.
      returned (record { ok = true; output = "done"; result_data = end; error = none });
  sanitize = λ args. object args;
  job_id = "job-1";
}

-- Always leaves the approval pending.
abbrev pub pending_callback : Callback
pending_callback = record {
  full = λ m d context args. some (object (field "status" (text "pending") end));
  short = λ m d. bool false;
}

enforce-flags_example :
    flags (enforce_runtime_capabilities write_skill default_policy network_args)
    ≡ verdict_flags (
        if well_declared write_skill && not (violates write_skill network_args)
        then (decide write_skill default_policy network_args).decision
        else deny)
enforce-flags_example = enforce-flags write_skill default_policy network_args

write_allowed : (enforce_runtime_capabilities write_skill default_policy note_args).allowed ≡ true
unfolding enforce_runtime_capabilities decide capability_verdict capability_semantic
    capability_effect_class manifest_capability_semantics normalize_manifest_capabilities as_dict
    network_boundary_violation unknown_capabilities effects_of strip sorted distinct get find truthy
write_allowed = refl

enforce_no_silent_network_example : requests_network (get "network" note_args) ≡ false
enforce_no_silent_network_example =
    enforce_no_silent_network write_skill default_policy note_args write_allowed

invoked-run_example :
    invoked
      (run sample_host open_url_skill note_args default_policy (some pending_callback) end).effects
    ≡ expected_calls sample_host open_url_skill default_policy
        (some pending_callback)
        end
        (canonicalize_args sample_float "system.open_url" note_args)
invoked-run_example =
    invoked-run sample_host open_url_skill note_args default_policy (some pending_callback) end
