-- ===== src/Examples/Policy.antt =====
-- The verdicts of the policy on sample skills.
use voxera_os.Base.{◌≤◌, String, List, [], ◌∷◌, ◌≡◌, refl, ◌||◌, arith}
use voxera_os.Base.Text.{join, sorted, distinct}
use voxera_os.Py.{end}
use voxera_os.Models.{allow, ask, deny, default_policy}
use voxera_os.Capability.{
  capability_semantic, capability_effect_class, manifest_capability_semantics,
}
use voxera_os.Policy.{capability_verdict, decide}
use voxera_os.Policy.Spec.{verdict_of, denies, asks, guarded, decide-verdict_of}
use voxera_os.Policy.Monotone.{rank, IsStricter, decide_mono}
use voxera_os.Declaration.{normalize_manifest_capabilities}
use voxera_os.Declaration.ReadOnly.{decide_class_a}
use voxera_os.Examples.Samples.{status_skill, open_url_skill, delete_skill, closed_policy}

open_url_asks : decide open_url_skill default_policy end ≡ record {
  decision = ask;
  reason = "apps.open -> allow; network.change -> ask; skill semantics network boundary=true";
}
unfolding decide capability_verdict capability_semantic capability_effect_class
    manifest_capability_semantics join
open_url_asks = refl

delete_denied : (decide delete_skill closed_policy end).decision ≡ deny
unfolding decide capability_verdict capability_semantic capability_effect_class
    manifest_capability_semantics
delete_denied = refl

decide-verdict_of_example :
    (decide open_url_skill default_policy end).decision
    ≡ verdict_of
        (denies default_policy ("apps.open" ∷ "network.change" ∷ []))
        (asks default_policy ("apps.open" ∷ "network.change" ∷ []) || guarded open_url_skill end)
decide-verdict_of_example = decide-verdict_of open_url_skill default_policy end

closed-IsStricter : IsStricter default_policy closed_policy
closed-IsStricter = omega arith

decide_mono_example :
    rank (decide open_url_skill default_policy end).decision
    ≤ rank (decide open_url_skill closed_policy end).decision
decide_mono_example = decide_mono open_url_skill default_policy closed_policy end closed-IsStricter

abbrev delete_too : List String
delete_too = "file.delete" ∷ []

decide_class_a_example : (decide status_skill closed_policy end).decision ≡ allow
unfolding normalize_manifest_capabilities manifest_capability_semantics capability_semantic sorted
    distinct
decide_class_a_example = decide_class_a status_skill closed_policy end refl ((_, refl), tt) refl
