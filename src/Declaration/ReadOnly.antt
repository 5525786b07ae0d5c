-- ===== src/Declaration/ReadOnly.antt =====
-- A skill of side-effect class A needs no approval under any policy
-- (src/voxera/core/execution_capabilities.py and src/voxera/policy.py).
use voxera_os.Base.{
  or_false, String, Bool, true, false, Option, none, some, List, [], ◌∷◌, ◌≡◌, refl, ◌||◌, ◌&&◌,
  not, any, all, map, present, arith, contains, ◌==◌, eq_iff, All, ◌∙◌, ap, Bool-cases, inl, inr,
  sym,
}
use voxera_os.Base.Text.{sorted, distinct, insert_sorted}
use voxera_os.Py.{Fields}
use voxera_os.Models.{allow, PolicyApprovals, SkillManifest, ExecMode}
use voxera_os.Capability.{
  CapabilitySemantic, capability_semantic, capability_effect_class, effect_name,
  manifest_capability_semantics, touches, network, EffectClass, PolicyField, boundary_eq,
  capability_semantics,
}
use voxera_os.Capability.Table.{capability_semantic-all}
use voxera_os.Policy.{capability_verdict, decide, is_high, is_broader, is_sandbox}
use voxera_os.Policy.Spec.{decide-verdict_of, guarded, denies, asks}
use voxera_os.Declaration.{class_a, normalize_manifest_capabilities}

-- `sorted` and `set` keep what is in a list.
contains-insert_sorted :
    (s t : String) (ts : List String)
    → contains s (insert_sorted t ts) ≡ ((t == s) || contains s ts)
unfolding insert_sorted
contains-insert_sorted s t [] = refl
contains-insert_sorted s t (u ∷ ts) = ground (arith, contains-insert_sorted s t ts)

pub contains-sorted : (s : String) (ts : List String) → contains s (sorted ts) ≡ contains s ts
unfolding sorted
contains-sorted s [] = refl
contains-sorted s (t ∷ ts) =
    contains-insert_sorted s t (sorted ts) ∙ ap (λ b. (t == s) || b) (contains-sorted s ts)

pub contains-distinct : (s : String) (ts : List String) → contains s (distinct ts) ≡ contains s ts
unfolding distinct
contains-distinct s [] = refl
contains-distinct s (t ∷ ts) = elim (Bool-cases (contains t ts)) [
  | inl old ↦ rw old (contains-distinct s ts ∙ seen s t ts old)
  | inr new ↦ rw new (ap (λ b. (t == s) || b) (contains-distinct s ts))
]
  where
    seen :
        (s t : String) (ts : List String)
        → contains t ts ≡ true
        → contains s ts ≡ ((t == s) || contains s ts)
    seen s t [] h = cc
    seen s t (u ∷ us) h = ground (arith, eq_iff t s, eq_iff u t, eq_iff u s, seen s t us)

abbrev IsKnown : String → Type 0
IsKnown c = (s : CapabilitySemantic) × (capability_semantic c ≡ some s)

abbrev pub AllKnown : List String → Type 0
AllKnown = All IsKnown

abbrev is_read : EffectClass → Bool
is_read EffectClass.read = true
is_read _ = false

abbrev has_field : Option PolicyField → Bool
has_field none = false
has_field (some _) = true

-- A capability that only reads has no field in the policy and no network boundary.
abbrev harmless : CapabilitySemantic → Bool
harmless s =
    not (is_read s.effect_class)
    || (not (has_field s.policy_field) && not (any (boundary_eq network) s.resource_boundaries))

table_harmless : all harmless capability_semantics ≡ true
table_harmless = refl

reading :
    (c : String) (s : CapabilitySemantic) (p : PolicyApprovals)
    → capability_semantic c ≡ some s
    → is_read s.effect_class ≡ true
    → (capability_verdict p c ≡ allow) × (any (boundary_eq network) s.resource_boundaries ≡ false)
unfolding capability_verdict capability_effect_class
reading c s p h r = ground (arith, capability_semantic-all harmless c s table_harmless h)

abbrev found : List String → List CapabilitySemantic
found caps = present (map capability_semantic caps)

abbrev effects : List CapabilitySemantic → List String
effects = map (λ s. effect_name s.effect_class)

reads :
    (e : EffectClass)
    → (effect_name e == "execute") ≡ false
    → (effect_name e == "write") ≡ false
    → is_read e ≡ true
reads EffectClass.read x w = refl
reads EffectClass.write x w = cc
reads EffectClass.execute x w = cc

record Quiet (p : PolicyApprovals) (caps : List String) : Type 0 where
  no_denial : denies p caps ≡ false
  no_question : asks p caps ≡ false
  no_network : touches network (found caps) ≡ false

Quiet-cons :
    (p : PolicyApprovals) (c : String) (caps : List String) (s : CapabilitySemantic)
    → capability_semantic c ≡ some s
    → is_read s.effect_class ≡ true
    → Quiet p caps
    → Quiet p (c ∷ caps)
unfolding touches
Quiet-cons p c caps s k r q =
    let (allowed, local) = reading c s p k r in
    record {
      no_denial = rw allowed q.no_denial;
      no_question = rw allowed q.no_question;
      no_network = rw k (rw local q.no_network);
    }

quiet :
    (p : PolicyApprovals) (caps : List String)
    → AllKnown caps
    → contains "execute" (effects (found caps)) ≡ false
    → contains "write" (effects (found caps)) ≡ false
    → Quiet p caps
unfolding touches
quiet p [] k x w = record { no_denial = refl; no_question = refl; no_network = refl }
quiet p (c ∷ caps) ((s, e), k) x w =
    let (x₁, x₂) = or_false _ _ (rw e at x) in
    let (w₁, w₂) = or_false _ _ (rw e at w) in
    Quiet-cons p c caps s e (reads s.effect_class x₁ w₁) (quiet p caps k x₂ w₂)

-- What class A says of the manifest.
record IsClassA (m : SkillManifest) : Type 0 where
  low_risk : is_high m.risk ≡ false
  confined : is_broader m.fs_scope ≡ false
  offline : m.needs_network ≡ false
  no_execute : contains "execute" (manifest_capability_semantics m).effect_classes ≡ false
  no_write : contains "write" (manifest_capability_semantics m).effect_classes ≡ false

class_a_inverse :
    (m : SkillManifest)
    → (normalize_manifest_capabilities m).side_effect_class ≡ class_a
    → IsClassA m
unfolding normalize_manifest_capabilities
class_a_inverse m h = ground arith

contains-effects :
    (s : String) (m : SkillManifest)
    → contains s (manifest_capability_semantics m).effect_classes
      ≡ contains s (effects (found m.capabilities))
unfolding manifest_capability_semantics
contains-effects s m = contains-sorted s _ ∙ contains-distinct s _

unguarded :
    (m : SkillManifest) (args : Fields)
    → IsClassA m
    → touches network (found m.capabilities) ≡ false
    → is_sandbox m.exec_mode ≡ false
    → guarded m args ≡ false
unfolding guarded manifest_capability_semantics
unguarded m args a t l = ground arith

-- A manifest whose declaration comes out as side-effect class A, whose capabilities are all in the
-- table and which does not run in the sandbox, is allowed outright by every policy, whatever its
-- arguments.
pub decide_class_a :
    (m : SkillManifest) (p : PolicyApprovals) (args : Fields)
    → (normalize_manifest_capabilities m).side_effect_class ≡ class_a
    → AllKnown m.capabilities
    → m.exec_mode ≡ ExecMode.local
    → (decide m p args).decision ≡ allow
decide_class_a m p args a k l =
    let c = class_a_inverse m a in
    let q =
      quiet p m.capabilities k (sym (contains-effects "execute" m) ∙ c.no_execute)
        (sym (contains-effects "write" m) ∙ c.no_write) in
    decide-verdict_of m p args
    ∙ cc (q.no_denial, q.no_question, unguarded m args c q.no_network (ap is_sandbox l))
