-- ===== src/Queue/Disk/Laws.antt =====
-- What a write, a removal and a move of a job leave at each path (src/voxera/core/queue_paths.py).
use voxera_os.Base.{
  ℕ, true, false, Option, none, some, [], ◌∷◌, ◌≡◌, refl, ◌↔◌, ◌∙◌, ap, arith, eq_iff,
  if◌then◌else◌, Option-cases, Bool-cases, inl, inr,
}
use voxera_os.Py.{Value}
use voxera_os.Queue.Disk.{
  Dir, FilePath, at, same_dir, same_path, Files, read, exists, write, unlink, replace, move_target,
  or_files, state_file, move_job,
}

Dir-eq : (a b : Dir) → same_dir a b ≡ true → a ≡ b
Dir-eq a b h = ground arith

-- Two paths are the same exactly if the test says so.
pub same_path_iff : (p q : FilePath) → (same_path p q ≡ true) ↔ (p ≡ q)
unfolding same_path
same_path_iff p q = (
  (λ h. ground (arith, Dir-eq p.dir q.dir, eq_iff p.name q.name)),
  (λ e. ground (arith, eq_iff p.name q.name)),
)

pub same_path_self : (p : FilePath) → same_path p p ≡ true
same_path_self p = (same_path_iff p p).1 refl

pub read-write :
    (p q : FilePath) (v : Option Value) (fs : Files)
    → read q (write p v fs) ≡ (if same_path p q then some v else read q fs)
unfolding read write
read-write p q v [] = refl
read-write p q v ((r, w) ∷ fs) =
    ground (arith, read-write p q v fs, same_path_iff r p, same_path_iff r q, same_path_iff p q)

pub read-unlink :
    (p q : FilePath) (fs : Files)
    → read q (unlink p fs) ≡ (if same_path p q then none else read q fs)
unfolding read unlink
read-unlink p q [] = ground arith
read-unlink p q ((r, w) ∷ fs) =
    ground (arith, read-unlink p q fs, same_path_iff r p, same_path_iff r q, same_path_iff p q)

replace-some :
    (src dst : FilePath) (fs : Files) (v : Option Value)
    → read src fs ≡ some v
    → replace src dst fs ≡ some (write dst v (unlink src fs))
unfolding replace
replace-some src dst fs v found = rw (replace, found)

-- A replacement that may fail leaves all paths but its two alone.
read-replace_or :
    (src dst q : FilePath) (fs : Files)
    → same_path src q ≡ false
    → same_path dst q ≡ false
    → read q (or_files fs (replace src dst fs)) ≡ read q fs
unfolding replace
read-replace_or src dst q fs not_src not_dst = elim (Option-cases (read src fs)) [
  | inl gone ↦ rw (or_files, replace, gone)
  | inr (v, found) ↦
      rw (replace-some src dst fs v found)
        (ground (arith, read-write dst q v (unlink src fs), read-unlink src q fs))
]

-- A job that is there is moved: it is at its new place with what it held, its old place is empty
-- unless it is the new one, and no other file changes but the two state files.
pub move_job-moves :
    (now : ℕ) (src : FilePath) (dir : Dir) (fs : Files) (v : Option Value)
    → read src fs ≡ some v
    → ((move_job now src dir fs).0 ≡ some (move_target now src dir fs))
      × ((q : FilePath)
          → same_path (state_file src) q ≡ false
          → same_path (state_file (move_target now src dir fs)) q ≡ false
          → read q (move_job now src dir fs).1 ≡ (
              if same_path (move_target now src dir fs) q
              then some v
              else if same_path src q
              then none
              else read q fs))
unfolding move_job
move_job-moves now src dir fs v found =
    let t = move_target now src dir fs in
    let gs = write t v (unlink src fs) in
    (
      rw (move_job, replace-some src t fs v found),
      λ q not_src not_target.
          rw (move_job, replace-some src t fs v found)
            (read-replace_or (state_file src) (state_file t) q gs not_src not_target
              ∙ read-write t q v (unlink src fs)
              ∙ ap (λ r. if same_path t q then some v else r) (read-unlink src q fs)),
    )

pub move_target_dir :
    (now : ℕ) (src : FilePath) (dir : Dir) (fs : Files) → (move_target now src dir fs).dir ≡ dir
unfolding move_target
move_target_dir now src dir fs = elim (Bool-cases (exists (at dir src.name) fs)) [
  | inl there ↦ rw (move_target, there)
  | inr free ↦ rw (move_target, free)
]

pub not_same_path_dir : (p q : FilePath) → same_dir q.dir p.dir ≡ false → same_path p q ≡ false
unfolding same_path
not_same_path_dir p q h = ground arith

-- A move changes no file outside the two directories.
pub read-move_job_elsewhere :
    (now : ℕ) (src : FilePath) (dir : Dir) (q : FilePath) (fs : Files)
    → same_dir q.dir src.dir ≡ false
    → same_dir q.dir dir ≡ false
    → read q (move_job now src dir fs).1 ≡ read q fs
unfolding move_job replace
read-move_job_elsewhere now src dir q fs not_src not_dir = elim (Option-cases (read src fs)) [
  | inl gone ↦ rw (move_job, replace, gone)
  | inr (v, found) ↦
      let t = move_target now src dir fs in
      let apart : same_dir q.dir t.dir ≡ false =
        ap (same_dir q.dir) (move_target_dir now src dir fs) ∙ not_dir in
      (move_job-moves now src dir fs v found).1 q (not_same_path_dir (state_file src) q not_src)
        (not_same_path_dir (state_file t) q apart)
      ∙ rw (not_same_path_dir t q apart, not_same_path_dir src q not_src)
]
