-- ===== src/Panel/AuthStore/Failure.antt =====
-- What one failure does to an address whose failures are counted
-- (src/voxera/panel/auth_state_store.py).
use voxera_os.Base.{
  ℕ, ◌+◌, ◌*◌, ◌≤◌, ◌<◌, String, true, false, Option, none, some, ◌≡◌, refl, length, leb, arith,
  Bool-cases, inl, inr, if◌then◌else◌, eq_refl, ◌∙◌, sym, Option-cases,
}
use voxera_os.Base.Assoc.{lookup, store, lookup-store}
use voxera_os.Base.Assoc.Size.{length-store-le, length-store_present}
use voxera_os.Panel.AuthStore.{
  FailureRow, LockoutRow, Entry, malformed, row, Failures, Lockouts, Payload, max_tracked_ips,
  fail_threshold, window_s, lockout_s, ip_key, int_value, or_empty, stale_failure, stale_lockout,
  prune_failures, prune_lockouts, prune_panel_auth_maps, apply_panel_auth_state_update,
  after_failure, failed_row,
}
use voxera_os.Panel.AuthStore.Bounds.{failures_of, lockouts_of}
use voxera_os.Panel.AuthStore.Prune.{
  lookup-prune_failures, lookup-prune_failures_none, lookup-prune_lockouts,
  lookup-prune_lockouts_none, length-prune_failures, length-prune_lockouts,
}

-- The end of the lockout after `n` failures, the last of them at `last`.
abbrev pub lockout_after : ℕ → ℕ → Option ℕ
lockout_after n last = if leb fail_threshold n then some (last + lockout_s * 1000) else none

abbrev pub until_of : Option (Entry LockoutRow) → Option ℕ
until_of none = none
until_of (some malformed) = some 0
until_of (some (row r)) = some (int_value r.until_ts_ms 0)

-- The address has failed `n` times since `first`, the last time at `last`, and is locked out exactly
-- if that is often enough.
pub record HasFailed (key : String) (first n last : ℕ) (p : Payload) : Type 0 where
  pub failure :
      lookup key (failures_of p)
      ≡ some (row (record { count = some n; first_ts_ms = some first; last_ts_ms = some last }))
  pub lockout : until_of (lookup key (lockouts_of p)) ≡ lockout_after n last
  pub few_failures : length (failures_of p) ≤ max_tracked_ips
  pub few_lockouts : length (lockouts_of p) ≤ max_tracked_ips
  pub room : until_of (lookup key (lockouts_of p)) ≡ none → length (lockouts_of p) < max_tracked_ips

-- The lockout row, after pruning at `now`.
lockout_kept :
    (key : String) (n last now : ℕ) (d : Lockouts)
    → length d ≤ max_tracked_ips
    → until_of (lookup key d) ≡ lockout_after n last
    → now ≤ last + 600000
    → until_of (lookup key (prune_lockouts now d)) ≡ lockout_after n last
unfolding stale_lockout
lockout_kept key n last now d few h soon = by_entry (lookup key d) refl
  where
    by_entry :
        (o : Option (Entry LockoutRow))
        → lookup key d ≡ o
        → until_of (lookup key (prune_lockouts now d)) ≡ lockout_after n last
    by_entry none e = rw (lookup-prune_lockouts_none now key d few e) (rw e at h)
    by_entry (some malformed) e = absurd (ground (arith, rw e at h))
    by_entry (some (row r)) e =
        let u : some (int_value r.until_ts_ms 0) ≡ lockout_after n last = rw e at h in
        rw (lookup-prune_lockouts now key d (row r) few e (ground (arith, u))) u

failure_kept :
    (key : String) (first n last now : ℕ) (d : Failures)
    → length d ≤ max_tracked_ips
    → lookup key d
      ≡ some (row (record { count = some n; first_ts_ms = some first; last_ts_ms = some last }))
    → 0 < last
    → now ≤ last + 600000
    → lookup key (prune_failures now d)
      ≡ some (row (record { count = some n; first_ts_ms = some first; last_ts_ms = some last }))
unfolding stale_failure
failure_kept key first n last now d few h pos soon =
    lookup-prune_failures now key d _ few h (ground arith)

abbrev failed : ℕ → ℕ → ℕ → FailureRow
failed n first last = record { count = some n; first_ts_ms = some first; last_ts_ms = some last }

failed_row_again :
    (now n first last : ℕ)
    → 0 < first
    → 0 < n
    → now ≤ first + window_s * 1000
    → failed_row now (some (row (failed n first last))) ≡ (n + 1, first)
unfolding failed_row
failed_row_again now n first last pf pn soon = ground arith

length-store_room :
    (key : String) (e : Entry LockoutRow) (l : Lockouts)
    → length l ≤ max_tracked_ips
    → (until_of (lookup key l) ≡ none → length l < max_tracked_ips)
    → length (store key e l) ≤ max_tracked_ips
length-store_room key e l few room = elim (Option-cases (lookup key l)) [
  | inl free ↦ omega (arith, length-store-le key e l, room (rw free))
  | inr (w, taken) ↦ omega (arith, length-store_present key e w l taken)
]

-- The maps after a failure that is counted as the n-th.
module _ (key : String) (n first now : ℕ) (f : Failures) (l : Lockouts)
    (counted : failed_row now (lookup key f) ≡ (n, first)) where
  failure_stored :
      lookup key (or_empty (after_failure key now f l).failures_by_ip)
      ≡ some (row (failed n first now))
  unfolding after_failure
  failure_stored = rw counted (rw (lookup-store key key) (rw (eq_refl key)))

  lockout_stored :
      (n < fail_threshold → until_of (lookup key l) ≡ none)
      → until_of (lookup key (or_empty (after_failure key now f l).lockouts_by_ip))
        ≡ lockout_after n now
  unfolding after_failure
  lockout_stored before = rw counted (elim (Bool-cases (leb fail_threshold n)) [
    | inl locked ↦ rw locked (rw (lookup-store key key) (rw (eq_refl key) (ground arith)))
    | inr counting ↦ rw counting (before (ground arith) ∙ ground arith)
  ])

  few_failures_stored :
      {e : Entry FailureRow}
      → lookup key f ≡ some e
      → length f ≤ max_tracked_ips
      → length (or_empty (after_failure key now f l).failures_by_ip) ≤ max_tracked_ips
  unfolding after_failure
  few_failures_stored here few = omega (arith, length-store_present key _ _ f here)

  few_lockouts_stored :
      length l ≤ max_tracked_ips
      → (until_of (lookup key l) ≡ none → length l < max_tracked_ips)
      → length (or_empty (after_failure key now f l).lockouts_by_ip) ≤ max_tracked_ips
  unfolding after_failure
  few_lockouts_stored few room = rw counted (elim (Bool-cases (leb fail_threshold n)) [
    | inl locked ↦ rw locked (length-store_room key _ l few room)
    | inr counting ↦ rw counting few
  ])

  room_stored :
      (until_of (lookup key l) ≡ none → length l < max_tracked_ips)
      → until_of (lookup key (or_empty (after_failure key now f l).lockouts_by_ip)) ≡ none
      → length (or_empty (after_failure key now f l).lockouts_by_ip) < max_tracked_ips
  unfolding after_failure
  room_stored room h = elim (Bool-cases (leb fail_threshold n)) [
    | inl locked ↦ absurd (locked_not_none locked)
    | inr counting ↦ rw counted (rw counting (room (rw counting at (rw counted at h))))
  ]
    where
      locked_not_none : leb fail_threshold n ≡ true → ⊥
      locked_not_none locked =
          let e : lockout_after n now ≡ none = sym (lockout_stored (λ few. ground arith)) ∙ h in
          ground arith

after_failure_lem :
    (key : String) (first n last now : ℕ) (f : Failures) (l : Lockouts)
    → lookup key f ≡ some (row (failed n first last))
    → 0 < first
    → 0 < n
    → now ≤ first + window_s * 1000
    → until_of (lookup key l) ≡ lockout_after n last
    → length f ≤ max_tracked_ips
    → length l ≤ max_tracked_ips
    → (until_of (lookup key l) ≡ none → length l < max_tracked_ips)
    → HasFailed key first
        (n + 1)
        now
        (record { panel_auth = some (after_failure key now f l); updated_at_ms = now })
after_failure_lem key first n last now f l here pf pn soon lock few_f few_l room =
    let counted : failed_row now (lookup key f) ≡ (n + 1, first) =
      rw here (failed_row_again now n first last pf pn soon) in
    record {
      failure = failure_stored key (n + 1) first now f l counted;
      lockout = lockout_stored key (n + 1) first now f l counted (λ few. lock ∙ ground arith);
      few_failures = few_failures_stored key (n + 1) first now f l counted here few_f;
      few_lockouts = few_lockouts_stored key (n + 1) first now f l counted few_l room;
      room = room_stored key (n + 1) first now f l counted room;
    }

-- A further failure within the window.
pub HasFailed-again :
    (ip : String) (first n last now : ℕ) (p : Payload)
    → HasFailed (ip_key ip) first n last p
    → 0 < first
    → 0 < n
    → first ≤ last
    → first ≤ now
    → now ≤ first + window_s * 1000
    → HasFailed (ip_key ip) first (n + 1) now (apply_panel_auth_state_update ip now false p)
unfolding apply_panel_auth_state_update prune_panel_auth_maps
HasFailed-again ip first n last now p h pf pn fl fn nw =
    let key = ip_key ip in
    let f = prune_failures now (failures_of p) in
    let l = prune_lockouts now (lockouts_of p) in
    let few_f = length-prune_failures now (failures_of p) h.few_failures in
    let few_l = length-prune_lockouts now (lockouts_of p) h.few_lockouts in
    let kept = lockout_kept key n last now (lockouts_of p) h.few_lockouts h.lockout (omega arith) in
    after_failure_lem key first n last now f l
      (failure_kept key first n last now (failures_of p) h.few_failures h.failure (omega arith)
        (omega arith))
      pf pn nw kept (omega (arith, few_f, h.few_failures)) (omega (arith, few_l, h.few_lockouts))
      (λ free. omega (arith, few_l, h.room (h.lockout ∙ sym kept ∙ free)))

-- The address has no entry in either map, and few addresses have.
pub record IsFresh (key : String) (p : Payload) : Type 0 where
  pub no_failure : lookup key (failures_of p) ≡ none
  pub no_lockout : lookup key (lockouts_of p) ≡ none
  pub few_failures : length (failures_of p) < max_tracked_ips
  pub few_lockouts : length (lockouts_of p) < max_tracked_ips

first_failure_lem :
    (key : String) (now : ℕ) (f : Failures) (l : Lockouts)
    → lookup key f ≡ none
    → lookup key l ≡ none
    → length f < max_tracked_ips
    → length l < max_tracked_ips
    → HasFailed key now 1 now
        (record { panel_auth = some (after_failure key now f l); updated_at_ms = now })
first_failure_lem key now f l new free few_f few_l =
    let counted : failed_row now (lookup key f) ≡ (1, now) = rw new (unfold failed_row in refl) in
    record {
      failure = failure_stored key 1 now now f l counted;
      lockout = lockout_stored key 1 now now f l counted (λ few. rw free);
      few_failures = unfold after_failure in omega (arith, length-store-le key _ f);
      few_lockouts = few_lockouts_stored key 1 now now f l counted (omega arith) (λ e. few_l);
      room = room_stored key 1 now now f l counted (λ e. few_l);
    }

pub first_failure :
    (ip : String) (now : ℕ) (p : Payload)
    → IsFresh (ip_key ip) p
    → HasFailed (ip_key ip) now 1 now (apply_panel_auth_state_update ip now false p)
unfolding apply_panel_auth_state_update prune_panel_auth_maps
first_failure ip now p h =
    let key = ip_key ip in
    let f = prune_failures now (failures_of p) in
    let l = prune_lockouts now (lockouts_of p) in
    let few_f = length-prune_failures now (failures_of p) (omega (arith, h.few_failures)) in
    let few_l = length-prune_lockouts now (lockouts_of p) (omega (arith, h.few_lockouts)) in
    let free =
      lookup-prune_lockouts_none now key (lockouts_of p) (omega (arith, h.few_lockouts))
        h.no_lockout in
    first_failure_lem key now f l
      (lookup-prune_failures_none now key (failures_of p) (omega (arith, h.few_failures))
        h.no_failure)
      free (omega (arith, few_f, h.few_failures)) (omega (arith, few_l, h.few_lockouts))
