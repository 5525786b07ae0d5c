-- ===== src/Queue/Lifecycle/Moved.antt =====
-- What canceling changes once the job has moved (src/voxera/core/queue_daemon.py).
use text.Mathlib.TextLemmas.{nil-append, cons-append}
use voxera_os.Base.Text.{◌+s◌}
use voxera_os.Base.{
  sym, eq_iff, ℕ, String, true, false, none, some, ◌≡◌, ◌≢◌, ◌∙◌, ap, ◌==◌, arith, Option-cases,
  Bool-cases, ◌⊎◌, inl, inr, if◌then◌else◌,
}
use voxera_os.Queue.Disk.{
  failed, sidecar_archive, FilePath, at, same_dir, same_path, Files, read, unlink, sidecar,
  or_files, stem, suffix,
}
use voxera_os.Queue.Disk.Names.{json_suffix}
use voxera_os.Queue.Disk.Laws.{read-unlink}
use voxera_os.Queue.Names.{is_primary_job_json, is_metadata_sidecar, ends_with}
use voxera_os.Queue.Lifecycle.{
  Env, Queue, state_only, update_job_state, archive_sidecar, error_sidecar, pending_meta,
  approval_file, cancel_moved,
}
use voxera_os.Queue.Lifecycle.Frame.{ends_with-append, read-update_job_state, read-archive_sidecar}

-- The files once a moved job's approval is gone and its sidecar archived.
abbrev cleared : ℕ → String → Files → Files
cleared now name fs =
    archive_sidecar now (error_sidecar (at failed name))
      (unlink (approval_file name) (unlink (pending_meta name) fs))

cancel_moved_files :
    (env : Env) (t : FilePath) (q : Queue)
    → (cancel_moved env t q).1.files
      ≡ or_files (cleared env.now t.name q.files) (
          update_job_state env t
            (state_only "canceled" (some "canceled"))
            (cleared env.now t.name q.files))
unfolding cancel_moved
cancel_moved_files env t q =
    elim (Option-cases (
      update_job_state env t (state_only "canceled" (some "canceled"))
        (cleared env.now t.name q.files))) [
          | inl raised ↦ rw (cancel_moved, raised)
          | inr (gs, made) ↦ rw (cancel_moved, made)
        ]

-- Canceling, once the job has moved, changes no file outside the directory of failed jobs and the
-- archive that is neither the moved job's state nor of its approval.
pub read-cancel_moved :
    (env : Env) (t p : FilePath) (q : Queue)
    → p.name ≢ sidecar ".state.json" t.name
    → same_dir p.dir failed ≡ false
    → same_dir p.dir sidecar_archive ≡ false
    → read p (cancel_moved env t q).1.files ≡ (
        if same_path (approval_file t.name) p
        then none
        else if same_path (pending_meta t.name) p
        then none
        else read p q.files)
read-cancel_moved env t p q not_state not_failed not_archive =
    let kept = unlink (approval_file t.name) (unlink (pending_meta t.name) q.files) in
    ap (read p) (cancel_moved_files env t q)
    ∙ read-update_job_state env t p (state_only "canceled" (some "canceled"))
        (cleared env.now t.name q.files) not_state
    ∙ read-archive_sidecar env.now (error_sidecar (at failed t.name)) p kept not_failed not_archive
    ∙ read-unlink (approval_file t.name) p (unlink (pending_meta t.name) q.files)
    ∙ ap (λ r. if same_path (approval_file t.name) p then none else r)
        (read-unlink (pending_meta t.name) p q.files)

primary_no_tag :
    (name : String) → is_primary_job_json name ≡ true → ends_with ".state.json" name ≡ false
unfolding is_primary_job_json is_metadata_sidecar
primary_no_tag name primary = ground arith

-- A job's name is not the name of a state file.
pub primary-ne-state_file :
    (name other : String) → is_primary_job_json name ≡ true → name ≢ sidecar ".state.json" other
primary-ne-state_file name other primary e =
    cc (primary_no_tag name primary, e, ends_with-append (stem other) ".state.json")

pub pending_tag : ◌≢◌ {A = String} ".pending.json" ".state.json"
pending_tag e = cc (ap (λ (s : String). s == ".state.json") e)

pub approval_tag : ◌≢◌ {A = String} ".approval.json" ".state.json"
approval_tag e = cc (ap (λ (s : String). s == ".state.json") e)

ends_with-split : (tag s : String) → ends_with tag s ≡ true → (t : String) × (s ≡ t +s tag)
unfolding ends_with
ends_with-split tag String.[] h = ("", sym ((eq_iff tag "").0 h) ∙ sym (nil-append tag))
ends_with-split tag (String.◌∷◌ c s) h = elim (Bool-cases (String.◌∷◌ c s == tag)) [
  | inl whole ↦ ("", (eq_iff (String.◌∷◌ c s) tag).0 whole ∙ sym (nil-append tag))
  | inr part ↦
      let (t, e) = ends_with-split tag s (ground (arith, h, part)) in
      (String.◌∷◌ c t, ap (String.◌∷◌ c) e ∙ sym (cons-append c t tag))
]

-- A job's name has the suffix of JSON, unless it is nothing else.
pub primary-suffix :
    (name : String) → is_primary_job_json name ≡ true → (name ≡ ".json") ⊎ (suffix name ≡ ".json")
unfolding is_primary_job_json
primary-suffix name primary =
    let (t, e) = ends_with-split ".json" name (ground (arith, primary)) in
    elim (Bool-cases (t == "")) [
      | inl empty ↦ inl (e ∙ ap (λ u. u +s ".json") ((eq_iff t "").0 empty) ∙ nil-append ".json")
      | inr full ↦ inr (ap suffix e ∙ json_suffix t full)
    ]
