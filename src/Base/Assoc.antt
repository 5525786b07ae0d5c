-- ===== src/Base/Assoc.antt =====
-- A `dict` with texts for keys, whatever its values: `get`, assignment, `pop`, the keys, and the
-- loops that drop or pop entries. A key that is assigned again keeps its place.
pub mod Size
use Prim.Native.Nat.{ℕ, zero, suc, ◌-◌}
use Prim.Native.String.{String}
use mathlib.Core.Path.{◌≡◌, refl}
use mathlib.Core.Bool.{Bool, true, false}
use mathlib.Core.Option.{Option, none, some}
use mathlib.Core.List.{List, [], ◌∷◌}
use native.Mathlib.Omega.{arith}
use text.Mathlib.Text.{◌==◌}
use text.Mathlib.TextEquality.{eq_iff}
use voxera_os.Base.Tests.{if◌then◌else◌, leb}

abbrev pub Assoc {ℓ} : Type ℓ → Type ℓ
Assoc V = List (String × V)

module _ {ℓ} {V : Type ℓ} where
  -- `d.get(k)`
  unfoldable pub lookup : String → Assoc V → Option V
  lookup k [] = none
  lookup k ((j, v) ∷ d) = if j == k then some v else lookup k d

  -- `d[k] = v`
  unfoldable pub store : String → V → Assoc V → Assoc V
  store k v [] = (k, v) ∷ []
  store k v ((j, w) ∷ d) = if j == k then (j, v) ∷ d else (j, w) ∷ store k v d

  -- `d.pop(k, None)`
  unfoldable pub pop : String → Assoc V → Assoc V
  pop k [] = []
  pop k ((j, w) ∷ d) = let rest = pop k d in if j == k then rest else (j, w) ∷ rest

  -- The loop that pops each entry whose value is bad.
  unfoldable pub drop_bad : (V → Bool) → Assoc V → Assoc V
  drop_bad bad [] = []
  drop_bad bad ((j, w) ∷ d) = let rest = drop_bad bad d in if bad w then rest else (j, w) ∷ rest

  abbrev pub keys : Assoc V → List String
  keys [] = []
  keys ((j, w) ∷ d) = j ∷ keys d

  -- The loop that pops each of the keys.
  unfoldable pub pop_all : List String → Assoc V → Assoc V
  pop_all [] d = d
  pop_all (k ∷ ks) d = pop_all ks (pop k d)

  insert_by : (V → ℕ) → String → V → Assoc V → Assoc V
  insert_by stamp k v [] = (k, v) ∷ []
  insert_by stamp k v ((j, w) ∷ d) =
      if leb (stamp v) (stamp w) then (k, v) ∷ (j, w) ∷ d else (j, w) ∷ insert_by stamp k v d

  -- `sorted(d.items(), key=stamp)`, which is stable
  unfoldable pub sorted_by : (V → ℕ) → Assoc V → Assoc V
  unfolding insert_by
  sorted_by stamp [] = []
  sorted_by stamp ((j, w) ∷ d) = insert_by stamp j w (sorted_by stamp d)

  pub lookup-store :
      (j k : String) (v : V) (d : Assoc V)
      → lookup j (store k v d) ≡ (if k == j then some v else lookup j d)
  unfolding lookup store
  lookup-store j k v [] = refl
  lookup-store j k v ((i, w) ∷ d) =
      ground (arith, eq_iff k j, eq_iff i k, eq_iff i j, lookup-store j k v d)

  pub lookup-pop :
      (j k : String) (d : Assoc V) → lookup j (pop k d) ≡ (if k == j then none else lookup j d)
  unfolding lookup pop
  lookup-pop j k [] = ground arith
  lookup-pop j k ((i, w) ∷ d) = ground (arith, eq_iff k j, eq_iff i k, eq_iff i j, lookup-pop j k d)

  -- A value that is not bad stays what its key gives.
  pub lookup-drop_bad :
      (bad : V → Bool) (k : String) (v : V) (d : Assoc V)
      → lookup k d ≡ some v
      → bad v ≡ false
      → lookup k (drop_bad bad d) ≡ some v
  unfolding lookup drop_bad
  lookup-drop_bad bad k v [] h good = cc
  lookup-drop_bad bad k v ((i, w) ∷ d) h good = ground (arith, lookup-drop_bad bad k v d)

  pub lookup-drop_bad_none :
      (bad : V → Bool) (k : String) (d : Assoc V)
      → lookup k d ≡ none
      → lookup k (drop_bad bad d) ≡ none
  unfolding lookup drop_bad
  lookup-drop_bad_none bad k [] h = refl
  lookup-drop_bad_none bad k ((i, w) ∷ d) h = ground (arith, lookup-drop_bad_none bad k d)
