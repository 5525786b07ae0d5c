-- ===== src/Capability/Table.antt =====
-- What holds of every entry of the table holds of every capability that it has
-- (src/voxera/core/capability_semantics.py).
use voxera_os.Base.{String, Bool, true, List, [], ◌∷◌, ◌≡◌, some, all, arith}
use voxera_os.Capability.{
  CapabilitySemantic, capability_semantics, find_semantic, capability_semantic,
}

find_semantic-all :
    (good : CapabilitySemantic → Bool) (c : String) (ss : List CapabilitySemantic)
    (s : CapabilitySemantic)
    → all good ss ≡ true
    → find_semantic c ss ≡ some s
    → good s ≡ true
unfolding find_semantic
find_semantic-all good c [] s h f = cc
find_semantic-all good c (t ∷ ss) s h f = ground (arith, find_semantic-all good c ss s)

pub capability_semantic-all :
    (good : CapabilitySemantic → Bool) (c : String) (s : CapabilitySemantic)
    → all good capability_semantics ≡ true
    → capability_semantic c ≡ some s
    → good s ≡ true
unfolding capability_semantic
capability_semantic-all good c s h f = find_semantic-all good c capability_semantics s h f
