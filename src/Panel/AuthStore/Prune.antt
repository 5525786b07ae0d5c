-- ===== src/Panel/AuthStore/Prune.antt =====
-- What pruning keeps while few addresses are tracked
-- (src/voxera/panel/auth_state_store.py).
use voxera_os.Base.{ℕ, ◌≤◌, String, false, none, some, ◌≡◌, length, arith}
use voxera_os.Base.Assoc.{Assoc, lookup, drop_bad, lookup-drop_bad, lookup-drop_bad_none}
use voxera_os.Base.Assoc.Size.{length-drop_bad-le}
use voxera_os.Panel.AuthStore.{
  FailureRow, LockoutRow, Entry, Failures, Lockouts, max_tracked_ips, failure_stamp, lockout_event,
  evict_oldest, stale_failure, stale_lockout, prune_failures, prune_lockouts,
}

evict_oldest_few {ℓ} :
    {V : Type ℓ} (stamp : V → ℕ) (d : Assoc V)
    → length d ≤ max_tracked_ips
    → evict_oldest stamp d ≡ d
unfolding evict_oldest
evict_oldest_few stamp d h = ground arith

-- With few entries, pruning keeps each entry that is not stale, and adds none.
module _ (now : ℕ) (k : String) where
  pub lookup-prune_failures :
      (d : Failures) (e : Entry FailureRow)
      → length d ≤ max_tracked_ips
      → lookup k d ≡ some e
      → stale_failure now e ≡ false
      → lookup k (prune_failures now d) ≡ some e
  unfolding prune_failures
  lookup-prune_failures d e few h fresh =
      rw
        (evict_oldest_few failure_stamp (drop_bad (stale_failure now) d)
          (omega (arith, length-drop_bad-le (stale_failure now) d)))
        (lookup-drop_bad (stale_failure now) k e d h fresh)

  pub lookup-prune_failures_none :
      (d : Failures)
      → length d ≤ max_tracked_ips
      → lookup k d ≡ none
      → lookup k (prune_failures now d) ≡ none
  unfolding prune_failures
  lookup-prune_failures_none d few h =
      rw
        (evict_oldest_few failure_stamp (drop_bad (stale_failure now) d)
          (omega (arith, length-drop_bad-le (stale_failure now) d)))
        (lookup-drop_bad_none (stale_failure now) k d h)

  pub lookup-prune_lockouts :
      (d : Lockouts) (e : Entry LockoutRow)
      → length d ≤ max_tracked_ips
      → lookup k d ≡ some e
      → stale_lockout now e ≡ false
      → lookup k (prune_lockouts now d) ≡ some e
  unfolding prune_lockouts
  lookup-prune_lockouts d e few h fresh =
      rw
        (evict_oldest_few lockout_event (drop_bad (stale_lockout now) d)
          (omega (arith, length-drop_bad-le (stale_lockout now) d)))
        (lookup-drop_bad (stale_lockout now) k e d h fresh)

  pub lookup-prune_lockouts_none :
      (d : Lockouts)
      → length d ≤ max_tracked_ips
      → lookup k d ≡ none
      → lookup k (prune_lockouts now d) ≡ none
  unfolding prune_lockouts
  lookup-prune_lockouts_none d few h =
      rw
        (evict_oldest_few lockout_event (drop_bad (stale_lockout now) d)
          (omega (arith, length-drop_bad-le (stale_lockout now) d)))
        (lookup-drop_bad_none (stale_lockout now) k d h)

pub length-prune_failures :
    (now : ℕ) (d : Failures) → length d ≤ max_tracked_ips → length (prune_failures now d) ≤ length d
unfolding prune_failures
length-prune_failures now d few =
    rw
      (evict_oldest_few failure_stamp (drop_bad (stale_failure now) d)
        (omega (arith, length-drop_bad-le (stale_failure now) d)))
      (length-drop_bad-le (stale_failure now) d)

pub length-prune_lockouts :
    (now : ℕ) (d : Lockouts) → length d ≤ max_tracked_ips → length (prune_lockouts now d) ≤ length d
unfolding prune_lockouts
length-prune_lockouts now d few =
    rw
      (evict_oldest_few lockout_event (drop_bad (stale_lockout now) d)
        (omega (arith, length-drop_bad-le (stale_lockout now) d)))
      (length-drop_bad-le (stale_lockout now) d)
