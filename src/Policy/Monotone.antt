-- ===== src/Policy/Monotone.antt =====
-- The order of verdicts, and in what `decide` (src/voxera/policy.py) follows it.
use voxera_os.Base.{
  ℕ, ◌≤◌, max, String, Bool, true, false, Option, none, some, List, [], ◌∷◌, ◌++◌, ◌≡◌, refl, ◌||◌,
  any, map, present, arith, ap,
}
use voxera_os.Py.{Fields}
use voxera_os.Models.{Verdict, allow, ask, deny, PolicyApprovals, SkillManifest}
use voxera_os.Capability.{
  PolicyField, open_apps, network_changes, installs, file_delete, system_settings, EffectClass,
  Boundary, capability_semantic, touches, manifest_capability_semantics, network,
}
use voxera_os.Policy.{fielded_verdict, capability_verdict, decide, is_deny}
use voxera_os.Policy.Spec.{denies, asks, is_ask, guarded, verdict_of, decide-verdict_of}

abbrev pub rank : Verdict → ℕ
rank allow = 0
rank ask = 1
rank deny = 2

-- Field by field, `q` is at least as strict as `p`.
pub record IsStricter (p q : PolicyApprovals) : Type 0 where
  pub network_changes : rank p.network_changes ≤ rank q.network_changes
  pub installs : rank p.installs ≤ rank q.installs
  pub file_delete : rank p.file_delete ≤ rank q.file_delete
  pub open_apps : rank p.open_apps ≤ rank q.open_apps
  pub system_settings : rank p.system_settings ≤ rank q.system_settings

fielded_verdict_mono :
    (p q : PolicyApprovals) (f : Option PolicyField) (e : Option EffectClass)
    → IsStricter p q
    → rank (fielded_verdict p f e) ≤ rank (fielded_verdict q f e)
fielded_verdict_mono p q none e h = ground arith
fielded_verdict_mono p q (some open_apps) e h = h.open_apps
fielded_verdict_mono p q (some network_changes) e h = h.network_changes
fielded_verdict_mono p q (some installs) e h = h.installs
fielded_verdict_mono p q (some file_delete) e h = h.file_delete
fielded_verdict_mono p q (some system_settings) e h = h.system_settings

capability_verdict_mono :
    (p q : PolicyApprovals) (c : String)
    → IsStricter p q
    → rank (capability_verdict p c) ≤ rank (capability_verdict q c)
unfolding capability_verdict
capability_verdict_mono p q c h = fielded_verdict_mono p q _ _ h

rank_cons :
    (v : Verdict) (dn q : Bool)
    → rank (verdict_of (is_deny v || dn) (is_ask v || q)) ≡ max (rank v) (rank (verdict_of dn q))
rank_cons v dn q = ground arith

capabilities_mono :
    (p q : PolicyApprovals) (caps : List String)
    → IsStricter p q
    → rank (verdict_of (denies p caps) (asks p caps))
      ≤ rank (verdict_of (denies q caps) (asks q caps))
capabilities_mono p q [] h = omega arith
capabilities_mono p q (c ∷ caps) h = omega (
  arith,
  rank_cons (capability_verdict p c) (denies p caps) (asks p caps),
  rank_cons (capability_verdict q c) (denies q caps) (asks q caps),
  capability_verdict_mono p q c h,
  capabilities_mono p q caps h,
)

guard_rank : Bool → ℕ
guard_rank true = 1
guard_rank false = 0

rank_guarded :
    (dn q g : Bool) → rank (verdict_of dn (q || g)) ≡ max (rank (verdict_of dn q)) (guard_rank g)
unfolding guard_rank
rank_guarded dn q g = ground arith

-- If the policy `q` is at least as strict as `p` in every field, then its verdict on every skill
-- and arguments is at least as strict too.
pub decide_mono :
    (m : SkillManifest) (p q : PolicyApprovals) (args : Fields)
    → IsStricter p q
    → rank (decide m p args).decision ≤ rank (decide m q args).decision
decide_mono m p q args h = omega (
  arith,
  ap rank (decide-verdict_of m p args),
  ap rank (decide-verdict_of m q args),
  rank_guarded (denies p m.capabilities) (asks p m.capabilities) (guarded m args),
  rank_guarded (denies q m.capabilities) (asks q m.capabilities) (guarded m args),
  capabilities_mono p q m.capabilities h,
)

module _ {ℓ} {A : Type ℓ} where
  any-append : (f : A → Bool) (xs ys : List A) → any f (xs ++ ys) ≡ (any f xs || any f ys)
  any-append f [] ys = refl
  any-append f (x ∷ xs) ys = ground (arith, any-append f xs ys)

  present-append : (xs ys : List (Option A)) → present (xs ++ ys) ≡ present xs ++ present ys
  present-append [] ys = refl
  present-append (none ∷ xs) ys = present-append xs ys
  present-append (some x ∷ xs) ys = ap (λ r. x ∷ r) (present-append xs ys)

map-append' {ℓ κ} :
    {A : Type ℓ} {B : Type κ} (f : A → B) (xs ys : List A) → map f (xs ++ ys) ≡ map f xs ++ map f ys
map-append' f [] ys = refl
map-append' f (x ∷ xs) ys = ap (λ r. f x ∷ r) (map-append' f xs ys)

abbrev pub with_capabilities : SkillManifest → List String → SkillManifest
with_capabilities m extra = record m { capabilities = m.capabilities ++ extra }

touches_more :
    (b : Boundary) (xs ys : List String)
    → touches b (present (map capability_semantic (xs ++ ys))) ≡ (
        touches b (present (map capability_semantic xs))
        || touches b (present (map capability_semantic ys)))
unfolding touches
touches_more b xs ys = simp (map-append', present-append, any-append)

guarded_more :
    (m : SkillManifest) (extra : List String) (args : Fields)
    → guard_rank (guarded m args) ≤ guard_rank (guarded (with_capabilities m extra) args)
unfolding guarded guard_rank manifest_capability_semantics
guarded_more m extra args = ground (arith, touches_more network m.capabilities extra)

-- Declaring further capabilities never makes the verdict milder, whatever they are.
pub decide-with_capabilities :
    (m : SkillManifest) (extra : List String) (p : PolicyApprovals) (args : Fields)
    → rank (decide m p args).decision ≤ rank (decide (with_capabilities m extra) p args).decision
decide-with_capabilities m extra p args = omega (
  arith,
  ap rank (decide-verdict_of m p args),
  ap rank (decide-verdict_of (with_capabilities m extra) p args),
  rank_guarded (denies p m.capabilities) (asks p m.capabilities) (guarded m args),
  rank_guarded (denies p (m.capabilities ++ extra)) (asks p (m.capabilities ++ extra))
      (guarded (with_capabilities m extra) args),
  guarded_more m extra args,
  capabilities_more p m.capabilities extra,
)
  where
    capabilities_more :
        (p : PolicyApprovals) (xs ys : List String)
        → rank (verdict_of (denies p xs) (asks p xs))
          ≤ rank (verdict_of (denies p (xs ++ ys)) (asks p (xs ++ ys)))
    capabilities_more p [] ys = omega arith
    capabilities_more p (c ∷ xs) ys = omega (
      arith,
      rank_cons (capability_verdict p c) (denies p xs) (asks p xs),
      rank_cons (capability_verdict p c) (denies p (xs ++ ys)) (asks p (xs ++ ys)),
      capabilities_more p xs ys,
    )
