-- ===== src/Queue/Disk/Names.antt =====
-- The names of sidecar files (src/voxera/core/queue_paths.py and queue_state.py): a name is never
-- its own stem with a tag of two dots behind it, so no job is its own sidecar.
use text.Mathlib.TextLemmas.{nil-append, cons-append, append_cancel_left, append_assoc}
use voxera_os.Base.{
  ℕ, suc, ◌+◌, ◌<◌, String, false, Option, none, some, ◌≡◌, ◌≢◌, refl, sym, ap, ◌∙◌, arith, ◌==◌,
  eq_iff, Bool-cases, inl, inr,
}
use voxera_os.Base.Text.{◌+s◌}
use voxera_os.Queue.Disk.{split_stem, stem, suffix, sidecar}

size : String → ℕ
size String.[] = 0
size (String.◌∷◌ c s) = suc (size s)

size-append : (s t : String) → size (s +s t) ≡ size s + size t
unfolding size
size-append String.[] t = rw (nil-append t) (omega arith)
size-append (String.◌∷◌ c s) t = rw (cons-append c s t) (omega (arith, size-append s t))

size_nil : size "" ≡ 0
unfolding size
size_nil = refl

-- Two tags behind one stem differ.
pub tagged-ne : (s a b : String) → a ≢ b → s +s a ≢ s +s b
tagged-ne s a b differ e = differ (append_cancel_left s a b e)

module _ (tag : String) (cut : split_stem (tag +s ".json") ≡ some (tag, ".json")) where
  split_stem-append : (s : String) → split_stem (s +s tag +s ".json") ≡ some (s +s tag, ".json")
  unfolding split_stem
  split_stem-append String.[] = rw (nil-append (tag +s ".json"), nil-append tag) cut
  split_stem-append (String.◌∷◌ c s) =
      rw (cons-append c s (tag +s ".json"), cons-append c s tag, split_stem-append s, split_stem)

  longer : (s : String) → 0 < size tag → s +s tag ≢ s
  longer s long e = absurd (omega (arith, size-append s tag, ap size e))

  -- The stem of a name with the tag.
  stem-append : (s : String) → 0 < size tag → stem (s +s tag +s ".json") ≡ s +s tag
  unfolding stem
  stem-append s long =
      rw (stem, split_stem-append s)
        (elim (Bool-cases (s +s tag == "")) [
          | inl empty ↦
              absurd (
                omega
                  (arith, size-append s tag, ap size ((eq_iff (s +s tag) "").0 empty), size_nil))
          | inr full ↦ rw full
        ])

  name-ne-tagged_stem : (n : String) → 0 < size tag → n ≢ stem n +s tag +s ".json"
  name-ne-tagged_stem n long e =
      longer (stem n) long (sym (stem-append (stem n) long) ∙ sym (ap stem e))

pub name-ne-state_file : (n : String) → n ≢ sidecar ".state.json" n
unfolding split_stem size
name-ne-state_file n = name-ne-tagged_stem ".state" refl n (omega arith)

module _ (e : String) (cut : split_stem e ≡ some ("", e)) where
  split_stem-end : (s : String) → split_stem (s +s e) ≡ some (s, e)
  unfolding split_stem
  split_stem-end String.[] = rw (nil-append e) cut
  split_stem-end (String.◌∷◌ c s) = rw (cons-append c s e, split_stem-end s, split_stem)

approval_stem : (s : String) → split_stem (s +s ".approval.json") ≡ some (s +s ".approval", ".json")
unfolding split_stem
approval_stem = split_stem-append ".approval" refl

state_stem : (s : String) → split_stem (s +s ".state.json") ≡ some (s +s ".state", ".json")
unfolding split_stem
state_stem = split_stem-append ".state" refl

abbrev part_before : Option (String × String) → String
part_before o = elim o [ none ↦ "" | some (a, b) ↦ a ]

abbrev part_after : Option (String × String) → String
part_after o = elim o [ none ↦ "" | some (a, b) ↦ b ]

other_tags : ◌≢◌ {A = String} ".approval" ".state"
other_tags e = cc (ap (λ (s : String). s == ".state") e)

-- No approval has the name of a state file.
pub approval-ne-state_file : (a b : String) → a +s ".approval.json" ≢ b +s ".state.json"
unfolding split_stem
approval-ne-state_file a b e =
    let stems : a +s ".approval" ≡ b +s ".state" =
      ap part_before (sym (approval_stem a) ∙ ap split_stem e ∙ state_stem b) in
    other_tags (
      ap part_after (
        sym (split_stem-end ".approval" refl a)
        ∙ ap split_stem stems
        ∙ split_stem-end ".state" refl b))

-- The stem of a name that is made from another with a mark of its own.
marked_stem : (s m : String) → (s +s m == "") ≡ false → stem ((s +s m) +s ".json") ≡ s +s m
unfolding stem split_stem
marked_stem s m full = rw (stem, split_stem-end ".json" refl (s +s m), full) refl

marked-ne : (s m : String) → 0 < size m → s +s m ≢ s
marked-ne s m long e = absurd (omega (arith, size-append s m, ap size e))

marked_full : (s m : String) → 0 < size m → (s +s m == "") ≡ false
marked_full s m long = elim (Bool-cases (s +s m == "")) [
  | inl empty ↦
      absurd (omega (arith, size-append s m, ap size ((eq_iff (s +s m) "").0 empty), size_nil))
  | inr full ↦ full
]

size_dash : size "-" ≡ 1
unfolding size
size_dash = refl

-- The name that a job gets where its own is taken has another stem.
pub renamed_stem-ne : (s d : String) → stem (s +s "-" +s d +s ".json") ≢ s
renamed_stem-ne s d e =
    let m = "-" +s d in
    let long : 0 < size m = omega (arith, size-append "-" d, size_dash) in
    let full : (s +s m == "") ≡ false = marked_full s m long in
    marked-ne s m long (
      sym (marked_stem s m full)
      ∙ ap stem (append_assoc s m ".json" ∙ ap (λ t. s +s t) (append_assoc "-" d ".json"))
      ∙ e)

pub json_suffix : (t : String) → (t == "") ≡ false → suffix (t +s ".json") ≡ ".json"
unfolding suffix split_stem
json_suffix t full = rw (suffix, split_stem-end ".json" refl t, full) refl
