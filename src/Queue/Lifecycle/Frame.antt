-- ===== src/Queue/Lifecycle/Frame.antt =====
-- Which files the parts of an operation on a job leave alone: the snapshot of its state and the
-- archived sidecar (src/voxera/core/queue_daemon.py).
use text.Mathlib.TextLemmas.{nil-append, cons-append}
use voxera_os.Base.{
  ℕ, String, Bool, true, false, some, List, [], ◌∷◌, ◌≡◌, ◌≢◌, refl, sym, ◌∙◌, ap, arith, eq_refl,
  any, Bool-cases, Option-cases, inl, inr, if◌then◌else◌,
}
use voxera_os.Base.Text.{◌+s◌}
use voxera_os.Py.{object}
use voxera_os.Queue.State.{Update, update_job_state_snapshot}
use voxera_os.Queue.Disk.{
  Dir, FilePath, same_dir, same_path, Files, read, exists, sidecar, sidecar_archive, state_file,
  or_files, stem,
}
use voxera_os.Queue.Disk.Laws.{same_path_iff, read-write, read-move_job_elsewhere}
use voxera_os.Queue.Names.{ends_with}
use voxera_os.Queue.Lifecycle.{
  Env, first_existing, job_state_sidecar_path, update_job_state, archive_sidecar, buckets,
  read_job_state, sanitized,
}

ends_with_self : (tag : String) → ends_with tag tag ≡ true
unfolding ends_with
ends_with_self String.[] = refl
ends_with_self (String.◌∷◌ c s) = rw (eq_refl (String.◌∷◌ c s))

pub ends_with-append : (s tag : String) → ends_with tag (s +s tag) ≡ true
unfolding ends_with
ends_with-append String.[] tag = rw (nil-append tag) (ends_with_self tag)
ends_with-append (String.◌∷◌ c s) tag =
    rw (cons-append c s tag) (ground (arith, ends_with-append s tag))

pub not_same_path_name : (p q : FilePath) → q.name ≢ p.name → same_path p q ≡ false
not_same_path_name p q h = elim (Bool-cases (same_path p q)) [
  | inl same ↦ absurd (h (ap (λ (r : FilePath). r.name) (sym ((same_path_iff p q).0 same))))
  | inr other ↦ other
]

first_existing_name :
    (name : String) (ds : List Dir) (fs : Files) (p : FilePath)
    → first_existing name ds fs ≡ some p
    → p.name ≡ name
unfolding first_existing
first_existing_name name [] fs p h = cc
first_existing_name name (d ∷ ds) fs p h = ground (arith, first_existing_name name ds fs p)

either_name :
    (b : Bool) (p q : FilePath) (n : String)
    → p.name ≡ n
    → q.name ≡ n
    → (if b then p else q).name ≡ n
either_name true p q n h k = h
either_name false p q n h k = k

pub job_state_sidecar_path_name :
    (job : FilePath) (fs : Files)
    → (job_state_sidecar_path job fs).name ≡ sidecar ".state.json" job.name
unfolding job_state_sidecar_path
job_state_sidecar_path_name job fs =
    elim (Option-cases (first_existing (sidecar ".state.json" job.name) buckets fs)) [
      | inl missing ↦
          rw (job_state_sidecar_path, missing)
            (either_name (any (same_dir job.dir) buckets) (state_file job) _ _ refl refl)
      | inr (p, found) ↦
          rw (job_state_sidecar_path, found) (first_existing_name _ buckets fs p found)
    ]

-- The snapshot of a job's state changes no file that is not named after it.
pub read-update_job_state :
    (env : Env) (job q : FilePath) (u : Update) (fs : Files)
    → q.name ≢ sidecar ".state.json" job.name
    → read q (or_files fs (update_job_state env job u fs)) ≡ read q fs
unfolding update_job_state
read-update_job_state env job q u fs other =
    let here = job_state_sidecar_path job fs in
    let apart : same_path here q ≡ false =
      not_same_path_name here q (λ e. other (e ∙ job_state_sidecar_path_name job fs)) in
    elim (Option-cases (
      update_job_state_snapshot (stem job.name) (sanitized env.sanitize_payload u)
        (read_job_state job fs) env.now)) [
          | inl raised ↦ rw (or_files, update_job_state, raised)
          | inr (d, made) ↦
              rw (or_files, update_job_state, made)
                (read-write here q (some (object d)) fs ∙ rw apart)
        ]

-- Archiving a sidecar changes no file outside its directory and the archive.
pub read-archive_sidecar :
    (now : ℕ) (p q : FilePath) (fs : Files)
    → same_dir q.dir p.dir ≡ false
    → same_dir q.dir sidecar_archive ≡ false
    → read q (archive_sidecar now p fs) ≡ read q fs
unfolding archive_sidecar
read-archive_sidecar now p q fs not_there not_archive = elim (Bool-cases (exists p fs)) [
  | inl there ↦
      rw (archive_sidecar, there)
        (read-move_job_elsewhere now p sidecar_archive q fs not_there not_archive)
  | inr gone ↦ rw (archive_sidecar, gone)
]
