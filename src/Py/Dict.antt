-- ===== src/Py/Dict.antt =====
-- `dict` with string keys, as the fields of an object: `get`, assignment, `in` and `setdefault`.
use voxera_os.Base.{
  String, ◌≡◌, refl, Bool, true, false, Option, none, some, arith, ◌==◌, eq_iff, eq_refl,
  if◌then◌else◌,
}
use voxera_os.Py.{Value, null, Fields, end, field}

-- `d.get(k)` as an option: `none` for a missing key
unfoldable pub find : String → Fields → Option Value
find k end = none
find k (field j v d) = if j == k then some v else find k d

-- `d.get(k)`, where a missing key reads as `None`
unfoldable pub get : String → Fields → Value
unfolding find
get k d = elim (find k d) [ none ↦ null | some v ↦ v ]

-- `k in d`
unfoldable pub has : String → Fields → Bool
unfolding find
has k d = elim (find k d) [ none ↦ false | some v ↦ true ]

-- `{**d, k: v}` and `d[k] = v`: a key that is there keeps its place
unfoldable pub put : String → Value → Fields → Fields
put k v end = field k v end
put k v (field j w d) = if j == k then field j v d else field j w (put k v d)

-- `d.setdefault(k, v)`
unfoldable pub set_default : String → Value → Fields → Fields
unfolding has put
set_default k v d = if has k d then d else put k v d

pub find-put :
    (j k : String) (v : Value) (d : Fields)
    → find j (put k v d) ≡ (if k == j then some v else find j d)
unfolding find put
find-put j k v end = refl
find-put j k v (field i w d) = ground (arith, eq_iff k j, eq_iff i k, eq_iff i j, find-put j k v d)

pub find-put_self : (k : String) (v : Value) (d : Fields) → find k (put k v d) ≡ some v
find-put_self k v d = simp (find-put, eq_refl)

pub find-set_default :
    (j k : String) (v : Value) (d : Fields)
    → find j (set_default k v d)
      ≡ (if k == j then (elim (find k d) [ none ↦ some v | some w ↦ some w ]) else find j d)
unfolding set_default
find-set_default j k v d = ground (arith, find-put j k v d, eq_iff k j)
