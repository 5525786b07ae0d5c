-- ===== src/Panel/AuthStore.antt =====
-- src/voxera/panel/auth_state_store.py: the failures and lockouts of each client address. A row's
-- numbers are never negative; `none` stands for a key that is missing or `None`, and `malformed`
-- for an entry that is no dictionary. `last < now - ttl` is written `last + ttl < now`.
pub mod Bounds
pub mod Prune
pub mod Failure
pub mod Lockout
pub mod Success
use voxera_os.Base.{
  ℕ, zero, suc, ◌+◌, ◌-◌, ◌*◌, max, String, Bool, true, false, Option, none, some, List, [], ◌∷◌,
  ◌&&◌, ◌||◌, ltb, leb, length, take, if◌then◌else◌,
}
use voxera_os.Base.Text.{strip, or_else}
use voxera_os.Base.Assoc.{Assoc, lookup, store, pop, drop_bad, keys, pop_all, sorted_by}

pub record FailureRow : Type 0 where
  pub count : Option ℕ
  pub first_ts_ms : Option ℕ
  pub last_ts_ms : Option ℕ

pub record LockoutRow : Type 0 where
  pub until_ts_ms : Option ℕ
  pub count : Option ℕ
  pub last_event_ts_ms : Option ℕ

-- A value that may be no dictionary.
pub data Entry (A : Type 0) : Type 0 where
  malformed : Entry A
  row : A → Entry A

abbrev pub Failures : Type 0
Failures = Assoc (Entry FailureRow)

abbrev pub Lockouts : Type 0
Lockouts = Assoc (Entry LockoutRow)

-- The `panel_auth` dictionary; `none` for a map that is missing or no dictionary.
pub record PanelAuth : Type 0 where
  pub failures_by_ip : Option Failures
  pub lockouts_by_ip : Option Lockouts

-- The part of the health payload that this module reads and writes.
pub record Payload : Type 0 where
  pub panel_auth : Option PanelAuth
  pub updated_at_ms : ℕ

abbrev pub fail_threshold : ℕ
fail_threshold = 10

abbrev pub window_s : ℕ
window_s = 60

abbrev pub lockout_s : ℕ
lockout_s = 60

abbrev pub prune_ttl_ms : ℕ
prune_ttl_ms = 10 * 60 * 1000

abbrev pub max_tracked_ips : ℕ
max_tracked_ips = 200

abbrev pub ip_key : String → String
ip_key ip = or_else (strip ip) "unknown"

-- `int(value or default)`: a 0 is replaced too
abbrev pub int_value : Option ℕ → ℕ → ℕ
int_value none d = d
int_value (some zero) d = d
int_value (some (suc n)) d = suc n

abbrev pub or_empty {ℓ} : {V : Type ℓ} → Option (Assoc V) → Assoc V
or_empty none = []
or_empty (some d) = d

abbrev pub failure_stamp : Entry FailureRow → ℕ
failure_stamp malformed = 0
failure_stamp (row r) = int_value r.last_ts_ms 0

abbrev lockout_event : Entry LockoutRow → ℕ
lockout_event malformed = 0
lockout_event (row r) = int_value r.last_event_ts_ms 0

unfoldable pub stale_failure : ℕ → Entry FailureRow → Bool
stale_failure now malformed = true
stale_failure now (row r) = ltb (int_value r.last_ts_ms 0 + prune_ttl_ms) now

unfoldable pub stale_lockout : ℕ → Entry LockoutRow → Bool
stale_lockout now malformed = true
stale_lockout now (row r) =
    ltb (max (int_value r.last_event_ts_ms 0) (int_value r.until_ts_ms 0) + prune_ttl_ms) now

-- Past 200 entries the oldest go.
unfoldable pub evict_oldest {ℓ} : {V : Type ℓ} → (V → ℕ) → Assoc V → Assoc V
evict_oldest stamp d =
    if ltb max_tracked_ips (length d)
    then pop_all (take (length d - max_tracked_ips) (keys (sorted_by stamp d))) d
    else d

unfoldable pub prune_failures : ℕ → Failures → Failures
unfolding stale_failure evict_oldest
prune_failures now d = evict_oldest failure_stamp (drop_bad (stale_failure now) d)

unfoldable pub prune_lockouts : ℕ → Lockouts → Lockouts
unfolding stale_lockout evict_oldest
prune_lockouts now d = evict_oldest lockout_event (drop_bad (stale_lockout now) d)

unfoldable pub prune_panel_auth_maps : ℕ → PanelAuth → PanelAuth
prune_panel_auth_maps now s = record {
  failures_by_ip = some (prune_failures now (or_empty s.failures_by_ip));
  lockouts_by_ip = some (prune_lockouts now (or_empty s.lockouts_by_ip));
}

abbrev pub empty_auth : PanelAuth
empty_auth = record { failures_by_ip = none; lockouts_by_ip = none }

abbrev pub auth_of : Payload → PanelAuth
auth_of p = elim p.panel_auth [ none ↦ empty_auth | some a ↦ a ]

unfoldable pub apply_panel_auth_state_prune : ℕ → Payload → Payload
apply_panel_auth_state_prune now p = record {
  panel_auth = some (prune_panel_auth_maps now (auth_of p));
  updated_at_ms = now;
}

-- The row that a failure leaves: its count and the start of its window.
failed_row : ℕ → Option (Entry FailureRow) → ℕ × ℕ
failed_row now (some (row r)) =
    let first = int_value r.first_ts_ms now in
    if ltb (window_s * 1000) (now - first) then (1, now) else (int_value r.count 0 + 1, first)
failed_row now _ = (1, now)

abbrev lockout_count : Option (Entry LockoutRow) → ℕ
lockout_count (some (row r)) = int_value r.count 0
lockout_count _ = 0

abbrev has_expired : ℕ → Option (Entry LockoutRow) → Bool
has_expired now (some (row r)) = leb (int_value r.until_ts_ms 0) now
has_expired now _ = false

-- Both maps after a success or a failure of the key, from the pruned maps.
after_success : String → ℕ → Failures → Lockouts → PanelAuth
after_success key now failures lockouts = record {
  failures_by_ip = some (pop key failures);
  lockouts_by_ip =
      some (if has_expired now (lookup key lockouts) then pop key lockouts else lockouts);
}

after_failure : String → ℕ → Failures → Lockouts → PanelAuth
unfolding failed_row
after_failure key now failures lockouts =
    let (count, first) = failed_row now (lookup key failures) in
    record {
      failures_by_ip = some (
          store key
            (row (record { count = some count; first_ts_ms = some first; last_ts_ms = some now }))
            failures);
      lockouts_by_ip = some (
          if leb fail_threshold count
          then store key
              (row (record {
                until_ts_ms = some (now + lockout_s * 1000);
                count = some (lockout_count (lookup key lockouts) + 1);
                last_event_ts_ms = some now;
              }))
              lockouts
          else lockouts);
    }

unfoldable pub apply_panel_auth_state_update : String → ℕ → Bool → Payload → Payload
unfolding after_success after_failure
apply_panel_auth_state_update ip now success p =
    let s = prune_panel_auth_maps now (auth_of p) in
    let failures = or_empty s.failures_by_ip in
    let lockouts = or_empty s.lockouts_by_ip in
    record {
      panel_auth = some (
          if success
          then after_success (ip_key ip) now failures lockouts
          else after_failure (ip_key ip) now failures lockouts);
      updated_at_ms = now;
    }

abbrev active_until : ℕ → Option (Entry LockoutRow) → Option ℕ
active_until now (some (row r)) =
    let until = int_value r.until_ts_ms 0 in if ltb now until then some until else none
active_until now _ = none

unfoldable pub active_lockout_until_ms : String → ℕ → PanelAuth → Option ℕ
active_lockout_until_ms ip now s = active_until now (lookup (ip_key ip) (or_empty s.lockouts_by_ip))

abbrev row_count : Option (Entry FailureRow) → ℕ
row_count (some (row r)) = int_value r.count 0
row_count _ = 0

abbrev row_until : Option (Entry LockoutRow) → ℕ
row_until (some (row r)) = int_value r.until_ts_ms 0
row_until _ = 0

unfoldable pub auth_failure_snapshot : String → PanelAuth → ℕ × ℕ
auth_failure_snapshot ip s = (
  row_count (lookup (ip_key ip) (or_empty s.failures_by_ip)),
  row_until (lookup (ip_key ip) (or_empty s.lockouts_by_ip)),
)
