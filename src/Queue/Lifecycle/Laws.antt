-- ===== src/Queue/Lifecycle/Laws.antt =====
-- What canceling, retrying and deleting leave of a job (src/voxera/core/queue_daemon.py).
use text.Mathlib.TextLemmas.{append_cancel_right}
use voxera_os.Base.Text.{◌+s◌, decimal}
use voxera_os.Base.{
  sym, String, true, false, Option, none, some, [], ◌∷◌, ◌≡◌, ◌≢◌, refl, ◌∙◌, ap, ◌||◌, arith,
  Bool-cases, subst, ◌⊎◌, inl, inr, if◌then◌else◌,
}
use voxera_os.Py.{Value}
use voxera_os.Queue.Disk.{
  Dir, inbox, pending, approvals, canceled, failed, sidecar_archive, FilePath, at, same_dir,
  same_path, Files, read, sidecar, state_file, move_job, move_target, renamed, exists, stem, suffix,
}
use voxera_os.Queue.Disk.Names.{
  tagged-ne, name-ne-state_file, approval-ne-state_file, renamed_stem-ne,
}
use voxera_os.Queue.Disk.Laws.{same_path_self, move_job-moves, move_target_dir, not_same_path_dir}
use voxera_os.Queue.Names.{is_primary_job_json, resolve_job_ref_in_dirs}
use voxera_os.Queue.Names.Laws.{resolve_job_ref_in_dirs-found}
use voxera_os.Queue.Lifecycle.{Env, Queue, pending_meta, approval_file, cancel_moved, cancel_job}
use voxera_os.Queue.Lifecycle.Moved.{
  read-cancel_moved, primary-suffix, primary-ne-state_file, pending_tag, approval_tag,
}
use voxera_os.Queue.Lifecycle.Frame.{not_same_path_name}

module _ (env : Env) (ref : String) (q : Queue) (job : FilePath) (v : Option Value)
    (named : resolve_job_ref_in_dirs env.refs ref (inbox ∷ pending ∷ []) q.files ≡ some job)
    (found : read job q.files ≡ some v)
    (waiting : (same_dir job.dir inbox || same_dir job.dir pending) ≡ true) where
  abbrev place : FilePath
  place = move_target env.now job canceled q.files

  abbrev moved : Files
  moved = (move_job env.now job canceled q.files).1

  place_dir : place.dir ≡ canceled
  place_dir = move_target_dir env.now job canceled q.files

  place_apart : (d : Dir) → same_dir canceled d ≡ false → same_dir place.dir d ≡ false
  place_apart d h = ap (λ e. same_dir e d) place_dir ∙ h

  cancel_job_files :
      (cancel_job env ref q).1.files ≡ (cancel_moved env place (record q { files = moved })).1.files
  unfolding cancel_job
  cancel_job_files = rw (cancel_job, named, (move_job-moves env.now job canceled q.files v found).0)

  read-cancel_job :
      (p : FilePath)
      → p.name ≢ sidecar ".state.json" place.name
      → same_dir p.dir failed ≡ false
      → same_dir p.dir sidecar_archive ≡ false
      → read p (cancel_job env ref q).1.files ≡ (
          if same_path (approval_file place.name) p
          then none
          else if same_path (pending_meta place.name) p
          then none
          else read p moved)
  read-cancel_job p not_state not_failed not_archive =
      ap (read p) cancel_job_files
      ∙ read-cancel_moved env place p (record q { files = moved }) not_state not_failed not_archive

  read-moved :
      (p : FilePath)
      → same_path (state_file job) p ≡ false
      → same_path (state_file place) p ≡ false
      → read p moved
        ≡ (if same_path place p then some v else if same_path job p then none else read p q.files)
  read-moved p = (move_job-moves env.now job canceled q.files v found).1 p

  apart : same_dir job.dir place.dir ≡ false
  apart = ap (same_dir job.dir) place_dir ∙ ground arith

  is_primary : is_primary_job_json job.name ≡ true
  is_primary =
      (resolve_job_ref_in_dirs-found env.refs ref (inbox ∷ pending ∷ []) q.files job named).1

  placed : read place moved ≡ some v
  placed =
      read-moved place
        (not_same_path_dir (state_file job) place (place_apart job.dir (ground arith)))
        (not_same_path_name (state_file place) place (name-ne-state_file place.name))
      ∙ rw (same_path_self place)

  at_place : read place (cancel_job env ref q).1.files ≡ some v
  at_place =
      read-cancel_job place (name-ne-state_file place.name) (place_apart failed refl)
        (place_apart sidecar_archive refl)
      ∙ rw
          (
            not_same_path_dir (approval_file place.name) place (place_apart approvals refl),
            not_same_path_dir (pending_meta place.name) place (place_apart pending refl),
          )
          placed

  job_gone : read job moved ≡ none
  job_gone =
      read-moved job (not_same_path_name (state_file job) job (name-ne-state_file job.name))
        (not_same_path_dir (state_file place) job apart)
      ∙ rw (not_same_path_dir place job apart, same_path_self job)

  at_job : read job (cancel_job env ref q).1.files ≡ none
  at_job =
      read-cancel_job job (primary-ne-state_file job.name place.name is_primary) (ground arith)
        (ground arith)
      ∙ rw job_gone (ground arith)

  no_pending : read (pending_meta place.name) (cancel_job env ref q).1.files ≡ none
  no_pending =
      read-cancel_job (pending_meta place.name) (tagged-ne (stem place.name) _ _ pending_tag) refl
        refl
      ∙ rw (same_path_self (pending_meta place.name)) (ground arith)

  no_approval : read (approval_file place.name) (cancel_job env ref q).1.files ≡ none
  no_approval =
      read-cancel_job (approval_file place.name) (tagged-ne (stem place.name) _ _ approval_tag) refl
        refl
      ∙ rw (same_path_self (approval_file place.name))

  -- The job keeps its name, where no job of that name was canceled before.
  place_name : exists (at canceled job.name) q.files ≡ false → place.name ≡ job.name
  unfolding move_target
  place_name free =
      ap (λ b. (if b then renamed env.now canceled job.name else at canceled job.name).name) free

  -- Where the job gets another name, the approval of its own stays.
  other_stem :
      exists (at canceled job.name) q.files ≡ true
      → suffix job.name ≡ ".json"
      → stem place.name ≢ stem job.name
  unfolding move_target
  other_stem before json e = renamed_stem-ne (stem job.name) (decimal env.now) (
      ap (λ t. stem (stem job.name +s "-" +s decimal env.now +s t)) (sym json)
      ∙ sym (
          ap
            (λ b. stem (if b then renamed env.now canceled job.name else at canceled job.name).name)
            before)
      ∙ e)

  kept_approval :
      stem place.name ≢ stem job.name
      → read (approval_file job.name) (cancel_job env ref q).1.files
        ≡ read (approval_file job.name) q.files
  kept_approval other =
      let p = approval_file job.name in
      read-cancel_job p (approval-ne-state_file (stem job.name) (stem place.name)) refl refl
      ∙ rw
          (
            not_same_path_name (approval_file place.name) p (λ e.
                other
                  (sym (append_cancel_right (stem job.name) (stem place.name) ".approval.json" e))),
            not_same_path_dir (pending_meta place.name) p refl,
          )
          (read-moved p (not_same_path_dir (state_file job) p (ground arith))
              (not_same_path_dir (state_file place) p (ground (arith, place_dir)))
            ∙ rw
                (
                  not_same_path_dir place p (ground (arith, place_dir)),
                  not_same_path_dir job p (ground arith),
                )
                refl)

  what_waits :
      ((exists (at canceled job.name) q.files ≡ false)
        × (read (pending_meta job.name) (cancel_job env ref q).1.files ≡ none)
        × (read (approval_file job.name) (cancel_job env ref q).1.files ≡ none))
      ⊎ ((exists (at canceled job.name) q.files ≡ true)
          × ((job.name ≡ ".json")
              ⊎ (read (approval_file job.name) (cancel_job env ref q).1.files
                  ≡ read (approval_file job.name) q.files)))
  what_waits = elim (Bool-cases (exists (at canceled job.name) q.files)) [
    | inl before ↦ inr (
      before,
      elim (primary-suffix job.name is_primary) [
        | inl only ↦ inl only
        | inr json ↦ inr (kept_approval (other_stem before json))
      ],
    )
    | inr free ↦ inl (
      free,
      subst (λ n. read (pending_meta n) (cancel_job env ref q).1.files ≡ none) (place_name free)
          no_pending,
      subst (λ n. read (approval_file n) (cancel_job env ref q).1.files ≡ none) (place_name free)
          no_approval,
    )
  ]

-- A job of the inbox or of the jobs that wait is canceled: it is then among the canceled jobs with
-- what it held, and no longer where it was, even where the update of its state raises. If no job of
-- its name was among the canceled ones, neither its approval nor its resumption is left. If one was,
-- its approval stays as it was, unless its name is `.json` alone.
pub cancel_job-moves :
    (env : Env) (ref : String) (q : Queue) (job : FilePath) (v : Option Value)
    → resolve_job_ref_in_dirs env.refs ref (inbox ∷ pending ∷ []) q.files ≡ some job
    → read job q.files ≡ some v
    → (same_dir job.dir inbox || same_dir job.dir pending) ≡ true
    → (read (move_target env.now job canceled q.files) (cancel_job env ref q).1.files ≡ some v)
      × (same_dir (move_target env.now job canceled q.files).dir canceled ≡ true)
      × (read job (cancel_job env ref q).1.files ≡ none)
      × (((exists (at canceled job.name) q.files ≡ false)
            × (read (pending_meta job.name) (cancel_job env ref q).1.files ≡ none)
            × (read (approval_file job.name) (cancel_job env ref q).1.files ≡ none))
          ⊎ ((exists (at canceled job.name) q.files ≡ true)
              × ((job.name ≡ ".json")
                  ⊎ (read (approval_file job.name) (cancel_job env ref q).1.files
                      ≡ read (approval_file job.name) q.files))))
cancel_job-moves env ref q job v named found waiting = (
  at_place env ref q job v named found waiting,
  ap (λ d. same_dir d canceled) (place_dir env ref q job v named found waiting),
  at_job env ref q job v named found waiting,
  what_waits env ref q job v named found waiting,
)
