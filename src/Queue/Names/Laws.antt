-- ===== src/Queue/Names/Laws.antt =====
-- Which job a reference names (src/voxera/core/queue_daemon.py).
use voxera_os.Base.{
  String, Bool, true, Option, none, some, List, [], ◌∷◌, ◌≡◌, ◌⊎◌, inl, inr, arith, any, All,
  contains, ◌&&◌, false, refl, eq_refl, and_true, Bool-cases, Option-cases,
}
use voxera_os.Base.Text.{strip, is_empty}
use voxera_os.Queue.Disk.{Dir, FilePath, at, same_dir, Files, exists}
use voxera_os.Queue.Names.{
  Refs, is_primary_job_json, first_in, first_of, is_job, direct_job, candidates,
  resolve_job_ref_in_dirs,
}

same_dir_self : (d : Dir) → same_dir d d ≡ true
same_dir_self d = ground arith

module _ (there : FilePath → Bool) where
  first_in-there :
      (d : Dir) (ns : List String) (p : FilePath)
      → first_in there d ns ≡ some p
      → (there p ≡ true) × (p.dir ≡ d)
  unfolding first_in
  first_in-there d [] p h = cc
  first_in-there d (n ∷ ns) p h = elim (Bool-cases (there (at d n))) [
    | inl found ↦ ground (arith, first_in-there d ns p)
    | inr other ↦ ground (arith, first_in-there d ns p)
  ]

  first_of-there :
      (ns : List String) (ds : List Dir) (p : FilePath)
      → first_of there ns ds ≡ some p
      → (there p ≡ true) × (any (same_dir p.dir) ds ≡ true)
  unfolding first_of
  first_of-there ns [] p h = cc
  first_of-there ns (d ∷ ds) p h =
      ground (arith, first_in-there d ns p, first_of-there ns ds p, same_dir_self d)

  direct_job-there :
      (o : Option FilePath) (p : FilePath)
      → direct_job there o ≡ some p
      → (there p ≡ true) × (o ≡ some p)
  direct_job-there none p h = cc
  direct_job-there (some q) p h = ground arith

-- A reference that names a job names one that is there and no sidecar, in one of the directories
-- unless the reference is its path.
pub resolve_job_ref_in_dirs-found :
    (refs : Refs) (ref : String) (dirs : List Dir) (fs : Files) (p : FilePath)
    → resolve_job_ref_in_dirs refs ref dirs fs ≡ some p
    → (exists p fs ≡ true)
      × (is_primary_job_json p.name ≡ true)
      × ((any (same_dir p.dir) dirs ≡ true) ⊎ (refs.direct (strip ref) ≡ some p))
unfolding resolve_job_ref_in_dirs
resolve_job_ref_in_dirs-found refs ref dirs fs p h =
    let raw = strip ref in
    let there = is_job fs in
    let names = refs.order (candidates raw) in
    elim (Option-cases (direct_job there (refs.direct raw))) [
      | inl indirect ↦ ground (
        arith,
        first_of-there there names dirs p,
        and_true (exists p fs) (is_primary_job_json p.name),
      )
      | inr (r, direct) ↦ ground (
        arith,
        direct_job-there there (refs.direct raw) r direct,
        and_true (exists p fs) (is_primary_job_json p.name),
      )
    ]

-- A reference that is the path of a file is that of no job.
abbrev pub LeadsToNoJob : Files → Option FilePath → Type 0
LeadsToNoJob fs none = Unit {0}
LeadsToNoJob fs (some d) = (exists d fs && is_primary_job_json d.name) ≡ false

-- No directory has a job of any of the names.
abbrev pub HasNone : Files → List String → List Dir → Type 0
HasNone fs names = All (λ d. All (λ n. (exists (at d n) fs && is_primary_job_json n) ≡ false) names)

-- What a reference names, from what is there.
abbrev pub Names :
    Files → Option FilePath → Bool → List String → List Dir → Option FilePath → Type 0
Names fs direct blank names dirs none =
    (blank ≡ true) ⊎ (LeadsToNoJob fs direct × HasNone fs names dirs)
Names fs direct blank names dirs (some p) =
    (blank ≡ false)
    × (exists p fs ≡ true)
    × (is_primary_job_json p.name ≡ true)
    × ((direct ≡ some p)
        ⊎ (LeadsToNoJob fs direct
            × (contains p.name names ≡ true)
            × (any (same_dir p.dir) dirs ≡ true)))

module _ (fs : Files) where
  abbrev Among : List String → List Dir → FilePath → Type 0
  Among ns ds p =
      (exists p fs ≡ true)
      × (is_primary_job_json p.name ≡ true)
      × (contains p.name ns ≡ true)
      × (any (same_dir p.dir) ds ≡ true)

  abbrev InDir : Dir → List String → Option FilePath → Type 0
  InDir d ns none = All (λ n. (exists (at d n) fs && is_primary_job_json n) ≡ false) ns
  InDir d ns (some p) = Among ns (d ∷ []) p

  later_InDir :
      (d : Dir) (n : String) (ns : List String) (o : Option FilePath)
      → (exists (at d n) fs && is_primary_job_json n) ≡ false
      → InDir d ns o
      → InDir d (n ∷ ns) o
  later_InDir d n ns none missing found = (missing, found)
  later_InDir d n ns (some p) missing (there, primary, named, within) =
      (there, primary, ground (arith, named), within)

  first_in-InDir : (d : Dir) (ns : List String) → InDir d ns (first_in (is_job fs) d ns)
  unfolding first_in
  first_in-InDir d [] = tt
  first_in-InDir d (n ∷ ns) = elim (Bool-cases (is_job fs (at d n))) [
    | inl found ↦
        let (there, primary) = and_true (exists (at d n) fs) (is_primary_job_json n) found in
        rw found (there, primary, ground (arith, eq_refl n), ground (arith, same_dir_self d))
    | inr missing ↦
        rw missing (later_InDir d n ns (first_in (is_job fs) d ns) missing (first_in-InDir d ns))
  ]

  abbrev InDirs : List String → List Dir → Option FilePath → Type 0
  InDirs ns ds none = HasNone fs ns ds
  InDirs ns ds (some p) = Among ns ds p

  joined-InDirs :
      (ns : List String) (d : Dir) (ds : List Dir) (o r : Option FilePath)
      → InDir d ns o
      → InDirs ns ds r
      → InDirs ns (d ∷ ds) (elim o [ some p ↦ some p | none ↦ r ])
  joined-InDirs ns d ds none none h k = (h, k)
  joined-InDirs ns d ds none (some p) h (there, primary, named, within) =
      (there, primary, named, ground (arith, within))
  joined-InDirs ns d ds (some p) r (there, primary, named, within) k =
      (there, primary, named, ground (arith, within))

  first_of-InDirs : (ns : List String) (ds : List Dir) → InDirs ns ds (first_of (is_job fs) ns ds)
  unfolding first_of
  first_of-InDirs ns [] = tt
  first_of-InDirs ns (d ∷ ds) =
      joined-InDirs ns d ds (first_in (is_job fs) d ns) (first_of (is_job fs) ns ds)
        (first_in-InDir d ns) (first_of-InDirs ns ds)

  named_by_search :
      (direct : Option FilePath) (ns : List String) (ds : List Dir) (r : Option FilePath)
      → LeadsToNoJob fs direct
      → InDirs ns ds r
      → Names fs direct false ns ds r
  named_by_search direct ns ds none nowhere h = inr (nowhere, h)
  named_by_search direct ns ds (some p) nowhere (there, primary, named, within) =
      (refl, there, primary, inr (nowhere, named, within))

  named_or_direct :
      (direct : Option FilePath) (ns : List String) (ds : List Dir) (r : Option FilePath)
      → InDirs ns ds r
      → Names fs direct false ns ds
          (elim (direct_job (is_job fs) direct) [ some p ↦ some p | none ↦ r ])
  named_or_direct none ns ds r h = named_by_search none ns ds r tt h
  named_or_direct (some d) ns ds r h = elim (Bool-cases (is_job fs d)) [
    | inl taken ↦
        let (there, primary) = and_true (exists d fs) (is_primary_job_json d.name) taken in
        rw taken (refl, there, primary, inl refl)
    | inr nowhere ↦ rw nowhere (named_by_search (some d) ns ds r nowhere h)
  ]

-- What a reference names: a path of a job is that job, wherever it leads; another reference names a
-- job of one of its names in one of the directories, and none exactly where it is blank or no
-- directory has a job of any of its names. What is named is there and is no sidecar.
pub resolve_job_ref_in_dirs-Names :
    (refs : Refs) (ref : String) (dirs : List Dir) (fs : Files)
    → Names fs
        (refs.direct (strip ref))
        (is_empty (strip ref))
        (refs.order (candidates (strip ref)))
        dirs
        (resolve_job_ref_in_dirs refs ref dirs fs)
unfolding resolve_job_ref_in_dirs
resolve_job_ref_in_dirs-Names refs ref dirs fs =
    let raw = strip ref in
    let names = refs.order (candidates raw) in
    elim (Bool-cases (is_empty raw)) [
      | inl blank ↦ rw (resolve_job_ref_in_dirs, blank) (inl refl)
      | inr full ↦
          rw (resolve_job_ref_in_dirs, full)
            (named_or_direct fs (refs.direct raw) names dirs (first_of (is_job fs) names dirs)
              (first_of-InDirs fs names dirs))
    ]
