-- ===== src/Queue/Lock.antt =====
-- The lock of the daemon (src/voxera/core/queue_daemon.py): `_acquire_daemon_lock`,
-- `release_daemon_lock`, `try_unlock_stale` and `force_unlock`. The lock is the `flock` of the file
-- that `.daemon.lock` names, so what counts is the inode: a file that is unlinked stays locked by
-- the process that has it locked. Opening the file, locking it and writing its payload are steps of
-- their own, between which other processes act. The health counters and the events, and the reads of
-- the old payload that only these use, are left out.
pub mod Laws
pub mod Invariant
use voxera_os.Base.{
  ℕ, zero, suc, ◌+◌, ◌-◌, String, Bool, true, false, not, Option, none, some, List, [], ◌∷◌, ◌||◌,
  ◌&&◌, ◌≡◌, nat_eq, ltb, if◌then◌else◌,
}

-- What the file holds, in whole seconds.
pub record LockPayload : Type 0 where
  pub pid : ℕ
  pub ts : ℕ

-- A process that has an inode open, or locked.
pub record Holder : Type 0 where
  pub pid : ℕ
  pub inode : ℕ

pub record Locks : Type 0 where
  pub entry : Option ℕ  -- the inode that `.daemon.lock` names
  pub next_inode : ℕ
  pub payload : ℕ → Option LockPayload
  pub opens : List Holder  -- opened, and not yet locked
  pub holders : List Holder
  pub alive : ℕ → Bool

abbrev pub update {ℓ} : {A : Type ℓ} → ℕ → A → (ℕ → A) → ℕ → A
update k a f n = if nat_eq n k then a else f n

abbrev pub is_locked : ℕ → List Holder → Bool
is_locked i [] = false
is_locked i (h ∷ hs) = nat_eq h.inode i || is_locked i hs

abbrev pub opened : Locks → ℕ
opened s = elim s.entry [ none ↦ s.next_inode | some i ↦ i ]

abbrev pub after_open : Locks → ℕ
after_open s = elim s.entry [ none ↦ suc s.next_inode | some i ↦ s.next_inode ]

-- `os.open` of the lock file, which makes it where the name leads to none
unfoldable pub open_lock : ℕ → Locks → Locks
open_lock pid s = record s {
  entry = some (opened s);
  next_inode = after_open s;
  opens = record { pid = pid; inode = opened s } ∷ s.opens;
}

abbrev pub same_holder : Holder → Holder → Bool
same_holder g h = nat_eq g.pid h.pid && nat_eq g.inode h.inode

unfoldable pub has_holder : Holder → List Holder → Bool
has_holder g [] = false
has_holder g (h ∷ hs) = same_holder h g || has_holder g hs

unfoldable pub close_file : Holder → List Holder → List Holder
close_file g [] = []
close_file g (h ∷ hs) = let rest = close_file g hs in if same_holder h g then rest else h ∷ rest

-- `os.close` of a file whose lock another process has
abbrev pub closed : Holder → Locks → Locks
closed h s = record s { opens = close_file h s.opens }

-- `fcntl.flock` of an open file; `none` is its `BlockingIOError`.
unfoldable pub flock_file : Holder → Locks → Option Locks
flock_file h s =
    if is_locked h.inode s.holders
    then none
    else some (record s { opens = close_file h s.opens; holders = h ∷ s.holders })

-- `os.ftruncate` and `os.write`, of the file that is open
unfoldable pub write_lock_payload : ℕ → Holder → Locks → Locks
write_lock_payload now h s = record s {
  payload = update h.inode (some (record { pid = h.pid; ts = now })) s.payload;
}

-- The whole of it, where no other process acts in between; `none` is the `QueueLockError` of a lock
-- that another process has.
unfoldable pub acquire_daemon_lock : ℕ → ℕ → Locks → Option Locks
unfolding flock_file
acquire_daemon_lock now pid s =
    let h : Holder = record { pid = pid; inode = opened s } in
    elim (flock_file h (open_lock pid s)) [
      | none ↦ none
      | some t ↦ some (write_lock_payload now h t)
    ]

unfoldable pub drop_holder : ℕ → List Holder → List Holder
drop_holder pid [] = []
drop_holder pid (h ∷ hs) =
    let rest = drop_holder pid hs in if nat_eq h.pid pid then rest else h ∷ rest

-- The file stays, with its payload.
unfoldable pub release_daemon_lock : ℕ → Locks → Locks
unfolding drop_holder
release_daemon_lock pid s = record s { holders = drop_holder pid s.holders }

abbrev pub payload_at : Option ℕ → Locks → Option LockPayload
payload_at none s = none
payload_at (some i) s = s.payload i

-- `_pid_is_alive`, of the pid that the payload gives: 0 where there is none
abbrev pub pid_is_alive : Option LockPayload → Locks → Bool
pid_is_alive none s = false
pid_is_alive (some p) s = ltb 0 p.pid && s.alive p.pid

-- `age_s > lock_stale_after_s`; a time that is 0 counts as none
abbrev pub is_stale : ℕ → ℕ → Option LockPayload → Bool
is_stale stale_after now none = false
is_stale stale_after now (some p) = not (nat_eq p.ts 0) && ltb stale_after (now - p.ts)

unfoldable pub unlock_entry : ℕ → ℕ → Locks → Option ℕ → Option (Bool × Locks)
unlock_entry stale_after now s none = some (false, s)
unlock_entry stale_after now s (some i) =
    if is_stale stale_after now (s.payload i) || not (pid_is_alive (s.payload i) s)
    then some (true, record s { entry = none })
    else none

-- Whether the file was removed, with the locks then; `none` is the `QueueLockError` of a lock that
-- is neither stale nor dead.
unfoldable pub try_unlock_stale : ℕ → ℕ → Locks → Option (Bool × Locks)
unfolding unlock_entry
try_unlock_stale stale_after now s = unlock_entry stale_after now s s.entry

unfoldable pub force_unlock : Locks → Locks
force_unlock s = record s { entry = none }

-- A process that ends loses its locks.
unfoldable pub exit_process : ℕ → Locks → Locks
unfolding drop_holder
exit_process pid s = record s {
  opens = drop_holder pid s.opens;
  holders = drop_holder pid s.holders;
  alive = update pid false s.alive;
}

unfoldable pub start_process : ℕ → Locks → Locks
start_process pid s = record s { alive = update pid true s.alive }

abbrev pub fresh : Locks
fresh = record {
  entry = none;
  next_inode = 0;
  payload = λ i. none;
  opens = [];
  holders = [];
  alive = λ pid. false;
}

-- What the processes that take and release the lock do, in any order.
pub data Step (s : Locks) : Locks → Type 0 where
  opened_file : (pid : ℕ) → s.alive pid ≡ true → Step s (open_lock pid s)
  locked_file :
      (h : Holder) {t : Locks} → has_holder h s.opens ≡ true → flock_file h s ≡ some t → Step s t
  refused_file :
      (h : Holder) → has_holder h s.opens ≡ true → flock_file h s ≡ none → Step s (closed h s)
  wrote_payload :
      (now : ℕ) (h : Holder) → has_holder h s.holders ≡ true → Step s (write_lock_payload now h s)
  released : (pid : ℕ) → Step s (release_daemon_lock pid s)
  exited : (pid : ℕ) → Step s (exit_process pid s)
  started : (pid : ℕ) → Step s (start_process pid s)

-- As long as no process removes the lock file.
pub data Reach (s : Locks) : Locks → Type 0 where
  here : Reach s s
  next : {t u : Locks} → Reach s t → Step t u → Reach s u
