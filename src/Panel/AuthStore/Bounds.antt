-- ===== src/Panel/AuthStore/Bounds.antt =====
-- The maps of src/voxera/panel/auth_state_store.py stay small.
use voxera_os.Base.{
  ℕ, ◌+◌, ◌-◌, ◌≤◌, String, Bool, true, false, some, length, ltb, leb, arith, tests, Bool-cases,
  inl, inr,
}
use voxera_os.Base.Assoc.{Assoc, lookup, keys}
use voxera_os.Base.Assoc.Size.{
  IsUnique, IsUnique-drop_bad, IsUnique-pop, IsUnique-pop_all, IsUnique-store, length-evict,
  length-pop-le, length-store-le,
}
use voxera_os.Panel.AuthStore.{
  Failures, Lockouts, PanelAuth, Payload, max_tracked_ips, or_empty, failure_stamp, lockout_event,
  evict_oldest, stale_failure, stale_lockout, prune_failures, prune_lockouts, prune_panel_auth_maps,
  apply_panel_auth_state_update, after_success, after_failure, failed_row, auth_of, has_expired,
  fail_threshold,
}

module _ {ℓ} {V : Type ℓ} (stamp : V → ℕ) where
  evict_oldest-le :
      (d : Assoc V) → IsUnique (keys d) → length (evict_oldest stamp d) ≤ max_tracked_ips
  unfolding evict_oldest
  evict_oldest-le d u = elim (Bool-cases (ltb max_tracked_ips (length d))) [
    | inl over ↦
        rw over
          (omega (tests, length-evict stamp (length d - max_tracked_ips) d u (omega arith), over))
    | inr under ↦ rw under (omega (tests, under))
  ]

  IsUnique-evict_oldest : (d : Assoc V) → IsUnique (keys d) → IsUnique (keys (evict_oldest stamp d))
  unfolding evict_oldest
  IsUnique-evict_oldest d u = elim (Bool-cases (ltb max_tracked_ips (length d))) [
    | inl over ↦ rw over (IsUnique-pop_all _ d u)
    | inr under ↦ rw under u
  ]

-- The maps of a payload; one that is not there is empty.
abbrev pub failures_of : Payload → Failures
failures_of p = or_empty (auth_of p).failures_by_ip

abbrev pub lockouts_of : Payload → Lockouts
lockouts_of p = or_empty (auth_of p).lockouts_by_ip

-- Each address has one entry in each map.
pub record HasUniqueKeys (p : Payload) : Type 0 where
  pub failures : IsUnique (keys (failures_of p))
  pub lockouts : IsUnique (keys (lockouts_of p))

record IsPruned (failures : Failures) (lockouts : Lockouts) : Type 0 where
  unique_failures : IsUnique (keys failures)
  unique_lockouts : IsUnique (keys lockouts)
  few_failures : length failures ≤ max_tracked_ips
  few_lockouts : length lockouts ≤ max_tracked_ips

prune-IsPruned :
    (now : ℕ) (p : Payload)
    → HasUniqueKeys p
    → IsPruned (prune_failures now (failures_of p)) (prune_lockouts now (lockouts_of p))
unfolding prune_failures prune_lockouts
prune-IsPruned now p u =
    let f = IsUnique-drop_bad (stale_failure now) (failures_of p) u.failures in
    let l = IsUnique-drop_bad (stale_lockout now) (lockouts_of p) u.lockouts in
    record {
      unique_failures = IsUnique-evict_oldest failure_stamp _ f;
      unique_lockouts = IsUnique-evict_oldest lockout_event _ l;
      few_failures = evict_oldest-le failure_stamp _ f;
      few_lockouts = evict_oldest-le lockout_event _ l;
    }

-- At most one entry more than the limit in each map, and each address once.
pub record IsBounded (p : Payload) : Type 0 where
  pub unique : HasUniqueKeys p
  pub failures : length (failures_of p) ≤ max_tracked_ips + 1
  pub lockouts : length (lockouts_of p) ≤ max_tracked_ips + 1

abbrev payload_of : ℕ → PanelAuth → Payload
payload_of now s = record { panel_auth = some s; updated_at_ms = now }

after_success-IsBounded :
    (key : String) (now : ℕ) (f : Failures) (l : Lockouts)
    → IsPruned f l
    → IsBounded (payload_of now (after_success key now f l))
unfolding after_success
after_success-IsBounded key now f l h = elim (Bool-cases (has_expired now (lookup key l))) [
  | inl over ↦ rw over (record {
    unique = record {
      failures = IsUnique-pop key f h.unique_failures;
      lockouts = IsUnique-pop key l h.unique_lockouts;
    };
    failures = omega (arith, length-pop-le key f, h.few_failures);
    lockouts = omega (arith, length-pop-le key l, h.few_lockouts);
  })
  | inr active ↦ rw active (record {
    unique = record {
      failures = IsUnique-pop key f h.unique_failures;
      lockouts = h.unique_lockouts;
    };
    failures = omega (arith, length-pop-le key f, h.few_failures);
    lockouts = omega (arith, h.few_lockouts);
  })
]

after_failure-IsBounded :
    (key : String) (now : ℕ) (f : Failures) (l : Lockouts)
    → IsPruned f l
    → IsBounded (payload_of now (after_failure key now f l))
unfolding after_failure
after_failure-IsBounded key now f l h =
    elim (Bool-cases (leb fail_threshold (failed_row now (lookup key f)).0)) [
      | inl locked ↦ rw locked (record {
        unique = record {
          failures = IsUnique-store key _ f h.unique_failures;
          lockouts = IsUnique-store key _ l h.unique_lockouts;
        };
        failures = omega (arith, length-store-le key _ f, h.few_failures);
        lockouts = omega (arith, length-store-le key _ l, h.few_lockouts);
      })
      | inr counted ↦ rw counted (record {
        unique = record {
          failures = IsUnique-store key _ f h.unique_failures;
          lockouts = h.unique_lockouts;
        };
        failures = omega (arith, length-store-le key _ f, h.few_failures);
        lockouts = omega (arith, h.few_lockouts);
      })
    ]

-- From maps with one entry for each address, however many, an attempt leaves maps with one entry
-- for each address and at most 201 entries: the 200 that pruning keeps, and the one attempted.
pub update-IsBounded :
    (ip : String) (now : ℕ) (success : Bool) (p : Payload)
    → HasUniqueKeys p
    → IsBounded (apply_panel_auth_state_update ip now success p)
unfolding apply_panel_auth_state_update prune_panel_auth_maps
update-IsBounded ip now true p u = after_success-IsBounded _ now _ _ (prune-IsPruned now p u)
update-IsBounded ip now false p u = after_failure-IsBounded _ now _ _ (prune-IsPruned now p u)
