-- ===== src/Base/Int.antt =====
-- Python's `int`: signed, unbounded.
use Prim.Native.Nat.{ℕ, suc}
use Prim.Native.String.{String}
use mathlib.Core.Bool.{Bool, true, false}
use voxera_os.Base.Text.{◌+s◌, decimal}

-- `negsuc n` is -(n + 1).
pub data ℤ : Type 0 where
  pos : ℕ → ℤ
  negsuc : ℕ → ℤ

-- The number, or 0 below it: `max(0, z)`.
abbrev pub to_ℕ : ℤ → ℕ
to_ℕ (pos n) = n
to_ℕ (negsuc n) = 0

-- `z > 0`
abbrev pub is_positive : ℤ → Bool
is_positive (pos (suc n)) = true
is_positive _ = false

-- `str(z)`
unfoldable pub int_text : ℤ → String
int_text (pos n) = decimal n
int_text (negsuc n) = "-" +s decimal (suc n)
