-- ===== src/Panel/AuthStore/Lockout.antt =====
-- Ten failures within the window lock an address out
-- (src/voxera/panel/auth_state_store.py).
use voxera_os.Base.{
  ℕ, ◌+◌, ◌*◌, ◌≤◌, ◌<◌, String, false, Option, none, some, List, [], ◌∷◌, ◌≡◌, length, arith, All,
}
use native.Mathlib.Nat.{add-zero, add-suc, suc-add}
use native.Mathlib.Numerals.{add-one}
use voxera_os.Panel.AuthStore.{
  LockoutRow, Entry, malformed, row, Payload, window_s, ip_key, apply_panel_auth_state_update,
  auth_of, active_until, active_lockout_until_ms,
}
use voxera_os.Panel.AuthStore.Failure.{
  HasFailed, lockout_after, until_of, HasFailed-again, IsFresh, first_failure,
}

-- Failures of one address, one after the other.
unfoldable pub fail_at : String → List ℕ → Payload → Payload
fail_at ip [] p = p
fail_at ip (t ∷ ts) p = fail_at ip ts (apply_panel_auth_state_update ip t false p)

abbrev pub last_of : ℕ → List ℕ → ℕ
last_of t [] = t
last_of t (u ∷ us) = last_of u us

-- The times lie in the window that `first` opens.
abbrev pub InWindow : ℕ → List ℕ → Type 0
InWindow first = All (λ t. (first ≤ t) × (t ≤ first + window_s * 1000))

HasFailed-fail_at :
    (ip : String) (first n last : ℕ) (ts : List ℕ) (p : Payload)
    → HasFailed (ip_key ip) first n last p
    → 0 < first
    → 0 < n
    → first ≤ last
    → InWindow first ts
    → HasFailed (ip_key ip) first (n + length ts) (last_of last ts) (fail_at ip ts p)
unfolding fail_at
HasFailed-fail_at ip first n last [] p h pf pn fl w = rw add-zero h
HasFailed-fail_at ip first n last (t ∷ ts) p h pf pn fl ((ft, tw), w) =
    rw (add-suc, ← suc-add, ← add-one)
      (HasFailed-fail_at ip first (n + 1) t ts (apply_panel_auth_state_update ip t false p)
        (HasFailed-again ip first n last t p h pf pn fl ft tw) pf (omega arith) ft w)

active_of_until :
    (n last : ℕ) (o : Option (Entry LockoutRow))
    → until_of o ≡ lockout_after n last
    → active_until last o ≡ lockout_after n last
active_of_until n last none h = h
active_of_until n last (some malformed) h = ground arith
active_of_until n last (some (row r)) h = ground arith

-- An address with no entry fails at a time `first` and then at any further times within 60 seconds
-- of it, while fewer than 200 addresses are tracked. At the time of the last failure it is locked
-- out, for 60 seconds from then, exactly if it has failed ten times or more.
pub ten_failures_lock :
    (ip : String) (first : ℕ) (ts : List ℕ) (p : Payload)
    → IsFresh (ip_key ip) p
    → 0 < first
    → InWindow first ts
    → active_lockout_until_ms ip (last_of first ts) (auth_of (fail_at ip (first ∷ ts) p))
      ≡ lockout_after (1 + length ts) (last_of first ts)
unfolding active_lockout_until_ms fail_at
ten_failures_lock ip first ts p fresh pos w =
    active_of_until (1 + length ts) (last_of first ts) _
      (HasFailed-fail_at ip first 1 first ts (apply_panel_auth_state_update ip first false p)
        (first_failure ip first p fresh) pos (omega arith) (omega arith) w).lockout
