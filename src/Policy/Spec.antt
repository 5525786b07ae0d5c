-- ===== src/Policy/Spec.antt =====
-- What `decide` (src/voxera/policy.py) decides, without its loop: by what some capability asks.
use voxera_os.Base.{
  String, Bool, true, false, List, [], ◌∷◌, ◌≡◌, refl, ◌∙◌, ap, ◌||◌, ◌&&◌, any, arith,
}
use voxera_os.Py.{Fields, truthy}
use voxera_os.Py.Dict.{get}
use voxera_os.Models.{Verdict, allow, ask, deny, PolicyApprovals, SkillManifest}
use voxera_os.Capability.{manifest_capability_semantics}
use voxera_os.Policy.{
  capability_verdict, combine, raise_to_ask, decide_capabilities, sandbox_check, decide, is_broader,
  is_high, is_sandbox, is_deny,
}

abbrev pub denies : PolicyApprovals → List String → Bool
denies p = any (λ c. is_deny (capability_verdict p c))

abbrev pub is_ask : Verdict → Bool
is_ask ask = true
is_ask _ = false

abbrev pub asks : PolicyApprovals → List String → Bool
asks p = any (λ c. is_ask (capability_verdict p c))

-- What makes the skill itself, with these arguments, need an approval.
unfoldable pub guarded : SkillManifest → Fields → Bool
guarded m args =
    (manifest_capability_semantics m).resource_boundaries.network
    || is_broader m.fs_scope
    || is_high m.risk
    || (is_sandbox m.exec_mode && truthy (get "network" args))

abbrev pub verdict_of : Bool → Bool → Verdict
verdict_of true question = deny
verdict_of false true = ask
verdict_of false false = allow

combine_step :
    (d v : Verdict) (dn q : Bool)
    → combine (combine d v) (verdict_of dn q)
      ≡ combine d (verdict_of (is_deny v || dn) (is_ask v || q))
combine_step d v dn q = ground arith

pub decide_capabilities-verdict :
    (p : PolicyApprovals) (caps : List String) (d : Verdict) (rs : List String)
    → (decide_capabilities p caps d rs).0 ≡ combine d (verdict_of (denies p caps) (asks p caps))
unfolding decide_capabilities
decide_capabilities-verdict p [] d rs = refl
decide_capabilities-verdict p (c ∷ caps) d rs =
    decide_capabilities-verdict p caps _ _
    ∙ combine_step d (capability_verdict p c) (denies p caps) (asks p caps)

guards_last :
    (v : Verdict) (net broad high box arg : Bool) (rs : List String)
    → (sandbox_check box arg (raise_to_ask high (raise_to_ask broad (raise_to_ask net v))) rs).0
      ≡ raise_to_ask (net || broad || high || (box && arg)) v
unfolding sandbox_check
guards_last v net broad high box arg rs = ground arith

raise_verdict_of :
    (g dn q : Bool) → raise_to_ask g (combine allow (verdict_of dn q)) ≡ verdict_of dn (q || g)
raise_verdict_of g dn q = ground arith

-- For every manifest, policy and arguments, the policy denies a skill exactly when it denies one of
-- its capabilities; of the others it asks exactly when it asks for one of the capabilities, or the
-- skill touches the network, has the broader file scope, is of high risk, or runs in the sandbox with
-- network requested; and it allows the rest.
pub decide-verdict_of :
    (m : SkillManifest) (p : PolicyApprovals) (args : Fields)
    → (decide m p args).decision
      ≡ verdict_of (denies p m.capabilities) (asks p m.capabilities || guarded m args)
unfolding decide guarded
decide-verdict_of m p args =
    guards_last _ _ (is_broader m.fs_scope) (is_high m.risk) (is_sandbox m.exec_mode) _ _
    ∙ ap (raise_to_ask (guarded m args)) (decide_capabilities-verdict p m.capabilities allow [])
    ∙ raise_verdict_of _ _ _
