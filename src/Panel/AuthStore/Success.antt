-- ===== src/Panel/AuthStore/Success.antt =====
-- A lockout lasts
-- (src/voxera/panel/auth_state_store.py).
use voxera_os.Base.{
  ℕ, ◌≤◌, String, true, false, Option, none, some, ◌≡◌, refl, length, arith, eq_refl,
}
use voxera_os.Base.Assoc.{lookup, lookup-pop}
use voxera_os.Panel.AuthStore.{
  LockoutRow, Entry, malformed, row, Lockouts, Payload, max_tracked_ips, ip_key, stale_lockout,
  prune_lockouts, prune_panel_auth_maps, apply_panel_auth_state_update, after_success, auth_of,
  active_until, active_lockout_until_ms, has_expired,
}
use voxera_os.Panel.AuthStore.Bounds.{failures_of, lockouts_of}
use voxera_os.Panel.AuthStore.Prune.{lookup-prune_lockouts}

active_stays :
    (key : String) (now until : ℕ) (d : Lockouts) (o : Option (Entry LockoutRow))
    → length d ≤ max_tracked_ips
    → lookup key d ≡ o
    → active_until now o ≡ some until
    → (lookup key (prune_lockouts now d) ≡ o) × (has_expired now o ≡ false)
unfolding stale_lockout
active_stays key now until d none few e h = cc
active_stays key now until d (some malformed) few e h = cc
active_stays key now until d (some (row r)) few e h =
    (lookup-prune_lockouts now key d (row r) few e (ground arith), ground arith)

-- While at most 200 addresses are locked out, a success during a lockout leaves it in force: only
-- the failures are forgotten.
pub success_keeps_lockout :
    (ip : String) (now until : ℕ) (p : Payload)
    → length (lockouts_of p) ≤ max_tracked_ips
    → active_lockout_until_ms ip now (auth_of p) ≡ some until
    → (active_lockout_until_ms ip now (auth_of (apply_panel_auth_state_update ip now true p))
        ≡ some until)
      × (lookup (ip_key ip) (failures_of (apply_panel_auth_state_update ip now true p)) ≡ none)
unfolding apply_panel_auth_state_update prune_panel_auth_maps active_lockout_until_ms after_success
success_keeps_lockout ip now until p few h =
    let key = ip_key ip in
    let (same, active) =
      active_stays key now until (lockouts_of p) (lookup key (lockouts_of p)) few refl h in
    (rw (same, active) (rw same h), rw (lookup-pop key key) (rw (eq_refl key)))
