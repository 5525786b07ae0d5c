-- ===== src/Queue/Disk.antt =====
-- The directories of the queue and the files in them, as src/voxera/core/queue_daemon.py lays them
-- out and src/voxera/core/queue_paths.py moves jobs between them. A path is a directory and a name;
-- what a file holds is a JSON value, or `none` where it does not parse.
pub mod Names
pub mod Laws
use voxera_os.Base.{
  ℕ, zero, suc, String, Bool, true, false, not, Option, none, some, List, [], ◌∷◌, ◌≡◌, ◌&&◌, ◌||◌,
  ◌==◌, nat_eq, if◌then◌else◌,
}
use voxera_os.Base.Text.{◌+s◌, has_substring, decimal}
use voxera_os.Py.{Value}

pub data Dir : Type 0 where
  root inbox pending approvals done failed canceled sidecar_archive : Dir

abbrev dir_code : Dir → ℕ
dir_code root = 0
dir_code inbox = 1
dir_code pending = 2
dir_code approvals = 3
dir_code done = 4
dir_code failed = 5
dir_code canceled = 6
dir_code sidecar_archive = 7

abbrev pub same_dir : Dir → Dir → Bool
same_dir a b = nat_eq (dir_code a) (dir_code b)

pub record FilePath : Type 0 where
  pub dir : Dir
  pub name : String

abbrev pub at : Dir → String → FilePath
at d n = record { dir = d; name = n }

unfoldable pub same_path : FilePath → FilePath → Bool
same_path p q = same_dir p.dir q.dir && (p.name == q.name)

abbrev pub Files : Type 0
Files = List (FilePath × Option Value)

-- What the file at a path holds; `none` if there is none.
unfoldable pub read : FilePath → Files → Option (Option Value)
read p [] = none
read p ((q, v) ∷ fs) = if same_path q p then some v else read p fs

-- `path.exists()`
unfoldable pub exists : FilePath → Files → Bool
exists p fs = elim (read p fs) [ none ↦ false | some v ↦ true ]

-- `path.write_text(…)`
unfoldable pub write : FilePath → Option Value → Files → Files
write p v [] = (p, v) ∷ []
write p v ((q, w) ∷ fs) = if same_path q p then (q, v) ∷ fs else (q, w) ∷ write p v fs

-- `path.unlink(missing_ok=True)`
unfoldable pub unlink : FilePath → Files → Files
unlink p [] = []
unlink p ((q, w) ∷ fs) = let rest = unlink p fs in if same_path q p then rest else (q, w) ∷ rest

-- `src.replace(dst)`, where `none` is the `FileNotFoundError`
unfoldable pub replace : FilePath → FilePath → Files → Option Files
replace src dst fs = elim (read src fs) [
  | none ↦ none
  | some v ↦ some (write dst v (unlink src fs))
]

-- A text cut before its last dot.
split_stem : String → Option (String × String)
split_stem String.[] = none
split_stem (String.◌∷◌ c s) = elim (split_stem s) [
  | some (a, b) ↦ some (String.◌∷◌ c a, b)
  | none ↦ if String.◌∷◌ c "" == "." then some ("", String.◌∷◌ c s) else none
]

abbrev named : String → Option (String × String) → String × String
named s none = (s, "")
named s (some (a, b)) = if (a == "") || (b == ".") then (s, "") else (a, b)

-- `path.stem` and `path.suffix`: a dot that is first or last does not count.
unfoldable pub stem : String → String
unfolding split_stem
stem s = (named s (split_stem s)).0

unfoldable pub suffix : String → String
unfolding split_stem
suffix s = (named s (split_stem s)).1

-- `f"{stem}.state.json"` and the like, of a job's name
abbrev pub sidecar : String → String → String
sidecar tag name = stem name +s tag

abbrev pub renamed : ℕ → Dir → String → FilePath
renamed now target_dir name = at target_dir (stem name +s "-" +s decimal now +s suffix name)

unfoldable pub move_target : ℕ → FilePath → Dir → Files → FilePath
move_target now src target_dir fs =
    if exists (at target_dir src.name) fs
    then renamed now target_dir src.name
    else at target_dir src.name

abbrev pub state_file : FilePath → FilePath
state_file p = at p.dir (sidecar ".state.json" p.name)

abbrev pub or_files : Files → Option Files → Files
or_files fs none = fs
or_files fs (some gs) = gs

-- `move_job_with_sidecar`: where the job is then, and the files.
unfoldable pub move_job : ℕ → FilePath → Dir → Files → Option FilePath × Files
move_job now src target_dir fs =
    let target = move_target now src target_dir fs in
    elim (replace src target fs) [
      | none ↦ (none, fs)
      | some gs ↦ (some target, or_files gs (replace (state_file src) (state_file target) gs))
    ]
