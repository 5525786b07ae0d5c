-- ===== src/Queue/Lock/Laws.antt =====
-- When at most one daemon holds the lock, and when it may fail (src/voxera/core/queue_daemon.py).
use voxera_os.Base.{
  ℕ, suc, ◌≤◌, ◌<◌, true, false, not, none, some, [], ◌∷◌, ◌≡◌, ◌≢◌, refl, ap, sym, ◌∙◌, ◌||◌,
  arith, length, if◌then◌else◌,
}
use voxera_os.Queue.Lock.{
  LockPayload, Holder, Locks, is_locked, opened, open_lock, has_holder, close_file, flock_file,
  write_lock_payload, acquire_daemon_lock, pid_is_alive, is_stale, unlock_entry, try_unlock_stale,
  Reach,
}
use voxera_os.Queue.Lock.Invariant.{
  Reach-Sole, One-length, empty-One, empty-Named, none-ne-some, locks,
}

-- A process has taken the lock with no other in between.
abbrev taken : ℕ → ℕ → Locks → Locks
taken now pid s =
    let h : Holder = record { pid = pid; inode = opened s } in
    write_lock_payload now h (locks (open_lock pid s) h)

acquired_free :
    (now pid : ℕ) (s : Locks)
    → is_locked (opened s) s.holders ≡ false
    → acquire_daemon_lock now pid s ≡ some (taken now pid s)
unfolding acquire_daemon_lock flock_file open_lock
acquired_free now pid s free =
    let h : Holder = record { pid = pid; inode = opened s } in
    ap
      (λ b. elim (if b then none else some (locks (open_lock pid s) h)) [
        | none ↦ none
        | some t ↦ some (write_lock_payload now h t)
      ])
      free

-- From a state in which no process has the lock file open or locked, whatever lock file an earlier
-- daemon left: however processes start, end, open the file, lock it, write to it and release it,
-- with the steps of one between those of another, at most one holds the lock as long as none
-- removes the file. And whenever none holds it, a process that takes it without another in between
-- does take it.
pub mutual_exclusion :
    {s t : Locks}
    → s.opens ≡ []
    → s.holders ≡ []
    → Reach s t
    → (length t.holders ≤ 1)
      × ((now pid : ℕ) → t.holders ≡ [] → acquire_daemon_lock now pid t ≢ none)
unfolding acquire_daemon_lock flock_file open_lock
mutual_exclusion {s} {t} no_open no_lock r = (
  One-length t.entry t.holders
      (Reach-Sole r (record {
        opens = empty-Named s.entry s.opens no_open;
        holds = empty-One s.entry s.holders no_lock;
      })).holds,
  λ now pid free refused.
      none-ne-some (sym refused ∙ acquired_free now pid t (ap (is_locked (opened t)) free)),
)

other_inode : (n : ℕ) (h : Holder) → h.inode < n → is_locked n (h ∷ []) ≡ false
other_inode n h old = ground arith

-- A lock file that is stale, or of a process that does not run, is removed.
removed_file :
    (k now : ℕ) (s : Locks) (i : ℕ) (p : LockPayload)
    → s.entry ≡ some i
    → s.payload i ≡ some p
    → (is_stale k now (some p) || not (pid_is_alive (some p) s)) ≡ true
    → try_unlock_stale k now s ≡ some (true, record s { entry = none })
unfolding try_unlock_stale unlock_entry
removed_file k now s i p there wrote goes =
    ap (unlock_entry k now s) there
    ∙ ap
        (λ o.
          if is_stale k now o || not (pid_is_alive o s)
          then some (true, record s { entry = none })
          else none)
        wrote
    ∙ ap (λ b. if b then some (true, record s { entry = none }) else none) goes

-- A lock older than the limit is removed by `try_unlock_stale` though its process runs, and the next
-- daemon then holds the lock beside it: the time in the lock is that of its taking, and a daemon
-- does not renew it.
pub stale_lock_shared :
    (k now later pid : ℕ) (s : Locks) (h : Holder) (p : LockPayload)
    → s.holders ≡ h ∷ []
    → s.entry ≡ some h.inode
    → s.payload h.inode ≡ some p
    → is_stale k now (some p) ≡ true
    → h.inode < s.next_inode
    → (t u : Locks) × (try_unlock_stale k now s ≡ some (true, t))
      × (acquire_daemon_lock later pid t ≡ some u)
      × (u.holders ≡ record { pid = pid; inode = s.next_inode } ∷ h ∷ [])
unfolding open_lock write_lock_payload
stale_lock_shared k now later pid s h p held there wrote stale old =
    let t : Locks = record s { entry = none } in
    (
      t,
      taken later pid t,
      removed_file k now s h.inode p there wrote
          (ap (λ b. b || not (pid_is_alive (some p) s)) stale),
      acquired_free later pid t (ap (is_locked s.next_inode) held ∙ other_inode s.next_inode h old),
      ap (λ hs. record { pid = pid; inode = s.next_inode } ∷ hs) held,
    )

-- The state once a process has opened the file that is there.
abbrev reopened : ℕ → ℕ → Locks → Locks
reopened pid i s = record s { entry = some i; opens = record { pid = pid; inode = i } ∷ s.opens }

open_lock_there : (pid i : ℕ) (s : Locks) → s.entry ≡ some i → open_lock pid s ≡ reopened pid i s
unfolding open_lock
open_lock_there pid i s there =
    ap
      (λ e. record s {
        entry = some (elim e [ none ↦ s.next_inode | some j ↦ j ]);
        next_inode = elim e [ none ↦ suc s.next_inode | some j ↦ s.next_inode ];
        opens = record { pid = pid; inode = elim e [ none ↦ s.next_inode | some j ↦ j ] } ∷ s.opens;
      })
      there

-- Where no process has the lock and its file is stale or of a process that does not run, two come to
-- hold it: one opens the file, a call of `try_unlock_stale` removes it, another takes the lock with a
-- new file, and the first then locks the file it has open, which has no name any more.
pub removed_lock_shared :
    (k now later first second i : ℕ) (s : Locks) (p : LockPayload)
    → s.holders ≡ []
    → s.entry ≡ some i
    → s.payload i ≡ some p
    → (is_stale k now (some p) || not (pid_is_alive (some p) s)) ≡ true
    → i < s.next_inode
    → (t u v : Locks) × (try_unlock_stale k now (open_lock first s) ≡ some (true, t))
      × (acquire_daemon_lock later second t ≡ some u)
      × (has_holder (record { pid = first; inode = i }) u.opens ≡ true)
      × (flock_file (record { pid = first; inode = i }) u ≡ some v)
      × (v.holders
          ≡ record { pid = first; inode = i } ∷ record { pid = second; inode = s.next_inode } ∷ [])
unfolding open_lock write_lock_payload flock_file has_holder close_file
removed_lock_shared k now later first second i s p free there wrote goes old =
    let a : Holder = record { pid = first; inode = i } in
    let t : Locks = record s { entry = none; opens = a ∷ s.opens } in
    (
      t,
      taken later second t,
      locks (taken later second t) a,
      ap (try_unlock_stale k now) (open_lock_there first i s there)
          ∙ removed_file k now (reopened first i s) i p refl wrote goes,
      acquired_free later second t (ap (is_locked s.next_inode) free),
      ground arith,
      ground arith,
      ap (λ hs. a ∷ record { pid = second; inode = s.next_inode } ∷ hs) free,
    )
