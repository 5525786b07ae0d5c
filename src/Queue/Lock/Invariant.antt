-- ===== src/Queue/Lock/Invariant.antt =====
-- While the lock file stays, it has one holder at most (src/voxera/core/queue_daemon.py).
use voxera_os.Base.{
  ℕ, ◌≤◌, true, false, Option, none, some, List, [], ◌∷◌, ◌≡◌, ◌≢◌, refl, ap, sym, subst, ◌∙◌,
  arith, length, nat_eq, Bool-cases, inl, inr, if◌then◌else◌, All,
}
use voxera_os.Queue.Lock.{
  Holder, Locks, is_locked, opened, open_lock, same_holder, has_holder, close_file, flock_file,
  write_lock_payload, drop_holder, release_daemon_lock, exit_process, start_process, Step,
  opened_file, locked_file, refused_file, wrote_payload, released, exited, started, Reach, here,
  next,
}

-- Every file of the list is the one that the name leads to.
abbrev pub Named : Option ℕ → List Holder → Type 0
Named e = All (λ h. e ≡ some h.inode)

-- One holder at most, of the file that the name leads to.
abbrev pub One : Option ℕ → List Holder → Type 0
One e [] = Unit {0}
One e (h ∷ []) = e ≡ some h.inode
One e (h ∷ h' ∷ hs) = ⊥

pub record Sole (s : Locks) : Type 0 where
  pub opens : Named s.entry s.opens
  pub holds : One s.entry s.holders

module _ (e : Option ℕ) where
  drop_holder-Named : (pid : ℕ) (hs : List Holder) → Named e hs → Named e (drop_holder pid hs)
  unfolding drop_holder
  drop_holder-Named pid [] all = tt
  drop_holder-Named pid (h ∷ hs) all = elim (Bool-cases (nat_eq h.pid pid)) [
    | inl mine ↦ rw mine (drop_holder-Named pid hs all.1)
    | inr other ↦ rw other (all.0, drop_holder-Named pid hs all.1)
  ]

  close_file-Named : (g : Holder) (hs : List Holder) → Named e hs → Named e (close_file g hs)
  unfolding close_file
  close_file-Named g [] all = tt
  close_file-Named g (h ∷ hs) all = elim (Bool-cases (same_holder h g)) [
    | inl mine ↦ rw mine (close_file-Named g hs all.1)
    | inr other ↦ rw other (all.0, close_file-Named g hs all.1)
  ]

  drop_holder-One : (pid : ℕ) (hs : List Holder) → One e hs → One e (drop_holder pid hs)
  unfolding drop_holder
  drop_holder-One pid [] one = tt
  drop_holder-One pid (h ∷ []) one = elim (Bool-cases (nat_eq h.pid pid)) [
    | inl mine ↦ rw mine tt
    | inr other ↦ rw other one
  ]
  drop_holder-One pid (h ∷ h' ∷ hs) one = absurd one

  open-Named :
      (g : Holder) (hs : List Holder) → Named e hs → has_holder g hs ≡ true → e ≡ some g.inode
  unfolding has_holder
  open-Named g [] all h = cc
  open-Named g (k ∷ hs) all h = ground (arith, all.0, open-Named g hs all.1)

  free-One :
      (g : Holder) (hs : List Holder)
      → One e hs
      → e ≡ some g.inode
      → is_locked g.inode hs ≡ false
      → One e (g ∷ hs)
  free-One g [] one named free = named
  free-One g (h ∷ []) one named free = ground (arith, one, named)
  free-One g (h ∷ h' ∷ hs) one named free = absurd one

-- What the name leads to is what is opened.
opened_entry : (s : Locks) (i : ℕ) → s.entry ≡ some i → some (opened s) ≡ some i
opened_entry s i h = ap (λ o. some (elim o [ none ↦ s.next_inode | some j ↦ j ])) h

opened-Named : (s : Locks) (hs : List Holder) → Named s.entry hs → Named (some (opened s)) hs
opened-Named s [] all = tt
opened-Named s (h ∷ hs) all = (opened_entry s h.inode all.0, opened-Named s hs all.1)

opened-One : (s : Locks) (hs : List Holder) → One s.entry hs → One (some (opened s)) hs
opened-One s [] one = tt
opened-One s (h ∷ []) one = opened_entry s h.inode one
opened-One s (h ∷ h' ∷ hs) one = absurd one

pub none-ne-some {ℓ} : {A : Type ℓ} {a : A} → none ≢ some a
none-ne-some e = cc

some_injective {ℓ} : {A : Type ℓ} {a b : A} → some a ≡ some b → a ≡ b
some_injective e = cc

abbrev pub locks : Locks → Holder → Locks
locks s h = record s { opens = close_file h s.opens; holders = h ∷ s.holders }

locked-Sole :
    (s t : Locks) (h : Holder)
    → Sole s
    → has_holder h s.opens ≡ true
    → flock_file h s ≡ some t
    → Sole t
unfolding flock_file
locked-Sole s t h o opened took = elim (Bool-cases (is_locked h.inode s.holders)) [
  | inl locked ↦
      absurd (none-ne-some (sym (ap (λ b. if b then none else some (locks s h)) locked) ∙ took))
  | inr free ↦
      subst Sole (some_injective (sym (ap (λ b. if b then none else some (locks s h)) free) ∙ took))
        (record {
          opens = close_file-Named s.entry h s.opens o.opens;
          holds =
              free-One s.entry h s.holders o.holds (open-Named s.entry h s.opens o.opens opened)
                free;
        })
]

Step-Sole : {s t : Locks} → Step s t → Sole s → Sole t
unfolding open_lock write_lock_payload release_daemon_lock exit_process start_process
Step-Sole {s} (opened_file pid runs) o = record {
  opens = (refl, opened-Named s s.opens o.opens);
  holds = opened-One s s.holders o.holds;
}
Step-Sole {s} {t} (locked_file h opened took) o = locked-Sole s t h o opened took
Step-Sole {s} (refused_file h opened refused) o = record {
  opens = close_file-Named s.entry h s.opens o.opens;
  holds = o.holds;
}
Step-Sole {s} (wrote_payload now h held) o = record { opens = o.opens; holds = o.holds }
Step-Sole {s} (released pid) o = record {
  opens = o.opens;
  holds = drop_holder-One s.entry pid s.holders o.holds;
}
Step-Sole {s} (exited pid) o = record {
  opens = drop_holder-Named s.entry pid s.opens o.opens;
  holds = drop_holder-One s.entry pid s.holders o.holds;
}
Step-Sole {s} (started pid) o = record { opens = o.opens; holds = o.holds }

pub Reach-Sole : {s t : Locks} → Reach s t → Sole s → Sole t
Reach-Sole here o = o
Reach-Sole (next r st) o = Step-Sole st (Reach-Sole r o)

pub One-length : (e : Option ℕ) (hs : List Holder) → One e hs → length hs ≤ 1
One-length e [] o = omega arith
One-length e (h ∷ []) o = omega arith
One-length e (h ∷ h' ∷ hs) o = absurd o

pub empty-One : (e : Option ℕ) (hs : List Holder) → hs ≡ [] → One e hs
empty-One e [] h = tt
empty-One e (k ∷ hs) h = cc

pub empty-Named : (e : Option ℕ) (hs : List Holder) → hs ≡ [] → Named e hs
empty-Named e [] h = tt
empty-Named e (k ∷ hs) h = cc
