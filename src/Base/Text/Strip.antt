-- ===== src/Base/Text/Strip.antt =====
-- A text that is stripped once is stripped.
use Prim.Native.Char.{code}
use Prim.Native.String.{String}
use mathlib.Core.Path.{◌≡◌, refl, ap, ◌∙◌}
use mathlib.Core.Bool.{◌&&◌}
use mathlib.Core.Logic.{inl, inr}
use text.Mathlib.Text.{◌==◌}
use voxera_os.Base.Tests.{Bool-cases}
use voxera_os.Base.Text.{is_space, lstrip, rstrip, strip}

rstrip_idem : (s : String) → rstrip (rstrip s) ≡ rstrip s
unfolding rstrip
rstrip_idem String.[] = refl
rstrip_idem (String.◌∷◌ c s) = elim (Bool-cases (is_space (code c) && (rstrip s == ""))) [
  | inl blank ↦ rw blank
  | inr full ↦ rw full (rw (rstrip_idem s) (rw full))
]

lstrip-rstrip-lstrip : (s : String) → lstrip (rstrip (lstrip s)) ≡ rstrip (lstrip s)
unfolding lstrip rstrip
lstrip-rstrip-lstrip String.[] = refl
lstrip-rstrip-lstrip (String.◌∷◌ c s) = elim (Bool-cases (is_space (code c))) [
  | inl blank ↦ rw blank (lstrip-rstrip-lstrip s)
  | inr full ↦ rw full (rw full (rw full))
]

pub strip_idem : (s : String) → strip (strip s) ≡ strip s
unfolding strip
strip_idem s = ap rstrip (lstrip-rstrip-lstrip s) ∙ rstrip_idem (lstrip s)
