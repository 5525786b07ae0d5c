-- ===== src/Base/Assoc/Size.antt =====
-- How many entries the loops over a `dict` leave. A `dict` has each key once.
use Prim.Native.Nat.{ℕ, zero, suc, ◌+◌, ◌≤◌}
use Prim.Native.String.{String}
use mathlib.Core.Path.{◌≡◌, refl, ap, ◌∙◌, sym}
use mathlib.Core.Logic.{inl, inr}
use mathlib.Core.Bool.{Bool, true, false, ◌&&◌, ◌||◌, not}
use mathlib.Core.Option.{some}
use mathlib.Core.List.{List, [], ◌∷◌}
use native.Mathlib.Omega.{arith}
use text.Mathlib.Text.{◌==◌}
use text.Mathlib.TextEquality.{eq_iff}
use voxera_os.Base.Tests.{leb, Bool-cases, or_false}
use voxera_os.Base.Lists.{length, take, contains, All}
use voxera_os.Base.Assoc.{Assoc, lookup, store, pop, drop_bad, keys, pop_all, insert_by, sorted_by}

abbrev pub IsUnique : List String → Type 0
IsUnique [] = Unit
IsUnique (k ∷ ks) = (contains k ks ≡ false) × IsUnique ks

module _ {ℓ} {V : Type ℓ} where
  contains-pop :
      (j k : String) (d : Assoc V)
      → contains j (keys (pop k d)) ≡ (contains j (keys d) && not (k == j))
  unfolding pop
  contains-pop j k [] = refl
  contains-pop j k ((i, w) ∷ d) =
      ground (arith, contains-pop j k d, eq_iff i k, eq_iff i j, eq_iff k j)

  pub IsUnique-pop : (k : String) (d : Assoc V) → IsUnique (keys d) → IsUnique (keys (pop k d))
  unfolding pop
  IsUnique-pop k [] u = tt
  IsUnique-pop k ((i, w) ∷ d) (fresh, u) = elim (Bool-cases (i == k)) [
    | inl same ↦ rw same (IsUnique-pop k d u)
    | inr other ↦ rw other (ground (arith, contains-pop i k d), IsUnique-pop k d u)
  ]

  pop_missing : (k : String) (d : Assoc V) → contains k (keys d) ≡ false → pop k d ≡ d
  unfolding pop
  pop_missing k [] h = refl
  pop_missing k ((i, w) ∷ d) h = ground (arith, pop_missing k d)

  length-pop :
      (k : String) (d : Assoc V)
      → IsUnique (keys d)
      → contains k (keys d) ≡ true
      → suc (length (pop k d)) ≡ length d
  unfolding pop
  length-pop k [] u h = cc
  length-pop k ((i, w) ∷ d) (fresh, u) h = elim (Bool-cases (i == k)) [
    | inl same ↦
        rw same
          (ap (λ (e : Assoc V). suc (length e)) (pop_missing k d (ground (arith, eq_iff i k))))
    | inr other ↦ rw other (ap suc (length-pop k d u (ground arith)))
  ]

  abbrev AllKeys : Assoc V → List String → Type 0
  AllKeys d = All (λ k. contains k (keys d) ≡ true)

  AllKeys-pop :
      (k : String) (d : Assoc V) (ks : List String)
      → contains k ks ≡ false
      → AllKeys d ks
      → AllKeys (pop k d) ks
  AllKeys-pop k d [] f a = tt
  AllKeys-pop k d (j ∷ ks) f (here, a) = (
    ground (arith, contains-pop j k d, eq_iff j k, eq_iff k j),
    AllKeys-pop k d ks (or_false _ _ f).1 a,
  )

  pub length-pop_all :
      (ks : List String) (d : Assoc V)
      → IsUnique ks
      → IsUnique (keys d)
      → AllKeys d ks
      → length (pop_all ks d) + length ks ≡ length d
  unfolding pop_all
  length-pop_all [] d u v a = omega arith
  length-pop_all (k ∷ ks) d (fresh, u) v (here, a) = omega (
    arith,
    length-pop_all ks (pop k d) u (IsUnique-pop k d v) (AllKeys-pop k d ks fresh a),
    length-pop k d v here,
  )

  contains-insert_by :
      (stamp : V → ℕ) (j k : String) (v : V) (d : Assoc V)
      → contains j (keys (insert_by stamp k v d)) ≡ ((k == j) || contains j (keys d))
  unfolding insert_by
  contains-insert_by stamp j k v [] = refl
  contains-insert_by stamp j k v ((i, w) ∷ d) = ground (arith, contains-insert_by stamp j k v d)

  contains-sorted_by :
      (stamp : V → ℕ) (j : String) (d : Assoc V)
      → contains j (keys (sorted_by stamp d)) ≡ contains j (keys d)
  unfolding sorted_by
  contains-sorted_by stamp j [] = refl
  contains-sorted_by stamp j ((i, w) ∷ d) =
      contains-insert_by stamp j i w (sorted_by stamp d)
      ∙ ap (λ b. (i == j) || b) (contains-sorted_by stamp j d)

  IsUnique-insert_by :
      (stamp : V → ℕ) (k : String) (v : V) (d : Assoc V)
      → contains k (keys d) ≡ false
      → IsUnique (keys d)
      → IsUnique (keys (insert_by stamp k v d))
  unfolding insert_by
  IsUnique-insert_by stamp k v [] f u = (refl, tt)
  IsUnique-insert_by stamp k v ((i, w) ∷ d) f (fresh, u) =
      elim (Bool-cases (leb (stamp v) (stamp w))) [
        | inl first ↦ rw first (f, (fresh, u))
        | inr later ↦ rw later (
          ground (arith, contains-insert_by stamp i k v d, eq_iff i k, eq_iff k i),
          IsUnique-insert_by stamp k v d (or_false _ _ f).1 u,
        )
      ]

  IsUnique-sorted_by :
      (stamp : V → ℕ) (d : Assoc V) → IsUnique (keys d) → IsUnique (keys (sorted_by stamp d))
  unfolding sorted_by
  IsUnique-sorted_by stamp [] u = tt
  IsUnique-sorted_by stamp ((i, w) ∷ d) (fresh, u) =
      IsUnique-insert_by stamp i w (sorted_by stamp d) (contains-sorted_by stamp i d ∙ fresh)
        (IsUnique-sorted_by stamp d u)

  length-insert_by :
      (stamp : V → ℕ) (k : String) (v : V) (d : Assoc V)
      → length (keys (insert_by stamp k v d)) ≡ suc (length (keys d))
  unfolding insert_by
  length-insert_by stamp k v [] = refl
  length-insert_by stamp k v ((i, w) ∷ d) = ground (arith, length-insert_by stamp k v d)

  length-keys : (d : Assoc V) → length (keys d) ≡ length d
  length-keys [] = refl
  length-keys ((i, w) ∷ d) = ap suc (length-keys d)

  length-sorted_by : (stamp : V → ℕ) (d : Assoc V) → length (keys (sorted_by stamp d)) ≡ length d
  unfolding sorted_by
  length-sorted_by stamp [] = refl
  length-sorted_by stamp ((i, w) ∷ d) =
      length-insert_by stamp i w (sorted_by stamp d) ∙ ap suc (length-sorted_by stamp d)

  All-of_contains :
      (d : Assoc V) (ks : List String)
      → ((j : String) → contains j ks ≡ true → contains j (keys d) ≡ true)
      → AllKeys d ks
  All-of_contains d [] h = tt
  All-of_contains d (k ∷ ks) h =
      (h k (ground (arith, eq_iff k k)), All-of_contains d ks (λ j m. h j (ground arith)))

  All-take : (d : Assoc V) (n : ℕ) (ks : List String) → AllKeys d ks → AllKeys d (take n ks)
  All-take d zero ks a = tt
  All-take d (suc n) [] a = tt
  All-take d (suc n) (k ∷ ks) (here, a) = (here, All-take d n ks a)

  pub IsUnique-drop_bad :
      (bad : V → Bool) (d : Assoc V) → IsUnique (keys d) → IsUnique (keys (drop_bad bad d))
  unfolding drop_bad
  IsUnique-drop_bad bad [] u = tt
  IsUnique-drop_bad bad ((i, w) ∷ d) (fresh, u) = elim (Bool-cases (bad w)) [
    | inl gone ↦ rw gone (IsUnique-drop_bad bad d u)
    | inr kept ↦ rw kept (contains-drop_bad i d fresh, IsUnique-drop_bad bad d u)
  ]
    where
      contains-drop_bad :
          (j : String) (d : Assoc V)
          → contains j (keys d) ≡ false
          → contains j (keys (drop_bad bad d)) ≡ false
      contains-drop_bad j [] h = refl
      contains-drop_bad j ((i, w) ∷ d) h = ground (arith, contains-drop_bad j d)

  pub IsUnique-store :
      (k : String) (v : V) (d : Assoc V) → IsUnique (keys d) → IsUnique (keys (store k v d))
  unfolding store
  IsUnique-store k v [] u = (refl, tt)
  IsUnique-store k v ((i, w) ∷ d) (fresh, u) = elim (Bool-cases (i == k)) [
    | inl same ↦ rw same (fresh, u)
    | inr other ↦ rw other (contains-store i d fresh other, IsUnique-store k v d u)
  ]
    where
      contains-store :
          (j : String) (d : Assoc V)
          → contains j (keys d) ≡ false
          → (j == k) ≡ false
          → contains j (keys (store k v d)) ≡ false
      contains-store j [] h n = ground (arith, eq_iff j k, eq_iff k j)
      contains-store j ((i, w) ∷ d) h n = ground (arith, contains-store j d)

  pub IsUnique-pop_all :
      (ks : List String) (d : Assoc V) → IsUnique (keys d) → IsUnique (keys (pop_all ks d))
  unfolding pop_all
  IsUnique-pop_all [] d u = u
  IsUnique-pop_all (k ∷ ks) d u = IsUnique-pop_all ks (pop k d) (IsUnique-pop k d u)

  pub length-store-le : (k : String) (v : V) (d : Assoc V) → length (store k v d) ≤ length d + 1
  unfolding store
  length-store-le k v [] = omega arith
  length-store-le k v ((i, w) ∷ d) = ground (arith, length-store-le k v d)

  pub length-store_present :
      (k : String) (v w : V) (d : Assoc V) → lookup k d ≡ some w → length (store k v d) ≡ length d
  unfolding lookup store
  length-store_present k v w [] h = cc
  length-store_present k v w ((i, u) ∷ d) h = ground (arith, length-store_present k v w d)

  pub length-pop-le : (k : String) (d : Assoc V) → length (pop k d) ≤ length d
  unfolding pop
  length-pop-le k [] = omega arith
  length-pop-le k ((i, w) ∷ d) = ground (arith, length-pop-le k d)

  pub length-drop_bad-le : (bad : V → Bool) (d : Assoc V) → length (drop_bad bad d) ≤ length d
  unfolding drop_bad
  length-drop_bad-le bad [] = omega arith
  length-drop_bad-le bad ((i, w) ∷ d) = ground (arith, length-drop_bad-le bad d)

IsUnique-take : (n : ℕ) (ks : List String) → IsUnique ks → IsUnique (take n ks)
IsUnique-take zero ks u = tt
IsUnique-take (suc n) [] u = tt
IsUnique-take (suc n) (k ∷ ks) (fresh, u) = (contains-take n ks fresh, IsUnique-take n ks u)
  where
    contains-take :
        (n : ℕ) (ks : List String) → contains k ks ≡ false → contains k (take n ks) ≡ false
    contains-take zero ks h = refl
    contains-take (suc n) [] h = refl
    contains-take (suc n) (j ∷ ks) h = ground (arith, contains-take n ks)

length-take : (n : ℕ) (ks : List String) → n ≤ length ks → length (take n ks) ≡ n
length-take zero ks h = refl
length-take (suc n) [] h = absurd (omega arith)
length-take (suc n) (k ∷ ks) h = ap suc (length-take n ks (omega arith))

-- Popping the first n keys of the sorted entries takes n entries away.
pub length-evict {ℓ} :
    {V : Type ℓ} (stamp : V → ℕ) (n : ℕ) (d : Assoc V)
    → IsUnique (keys d)
    → n ≤ length d
    → length (pop_all (take n (keys (sorted_by stamp d))) d) + n ≡ length d
length-evict stamp n d u h =
    let ks = keys (sorted_by stamp d) in
    omega (
      arith,
      length-pop_all (take n ks) d (IsUnique-take n ks (IsUnique-sorted_by stamp d u)) u
          (All-take d n ks (All-of_contains d ks (λ j m. sym (contains-sorted_by stamp j d) ∙ m))),
      length-take n ks (omega (arith, length-sorted_by stamp d)),
    )
