-- ===== src/Queue/Answer/Resolve/Denial.antt =====
-- What a denial leaves (src/voxera/core/queue_approvals.py).
use voxera_os.Base.{ℕ, ◌+◌, if◌then◌else◌, Bool, true, false, Option, none, some, ◌≡◌}
use voxera_os.Automation.{Raising, value, raises}
use voxera_os.Queue.Disk.{FilePath, read, exists}
use voxera_os.Queue.Lifecycle.{Queue}
use voxera_os.Queue.Steps.{M}
use voxera_os.Queue.Answer.{Waiting}
use voxera_os.Queue.Answer.Desk.{Desk}

module _ (w : Waiting) where
  -- The resumption and the approval are gone.
  abbrev pub Gone : Queue → Type 0
  Gone q = (read w.meta q.files ≡ none) × (read w.artifact q.files ≡ none)

  -- No run is started, and where an answer is given, it is this one, with so many more failures, and
  -- they are gone.
  record Removes (answer : Bool) (n : ℕ) (m : M Bool) : Type 0 where
    quiet : (q : Queue) → (m q).1.runs ≡ q.runs
    gone :
        (q : Queue) (b : Bool)
        → (m q).0 ≡ value b
        → (b ≡ answer) × ((m q).1.failures ≡ n + q.failures) × Gone (m q).1

  abbrev After : {A : Type 0} → (A → M Bool) → Raising A → Queue → Raising Bool × Queue
  After f r q = elim r [ value a ↦ f a q | raises e ↦ (raises e, q) ]

  abbrev was_moved : Option FilePath → Bool
  was_moved none = false
  was_moved (some t) = true

  abbrev one_if : Bool → ℕ
  one_if b = if b then 1 else 0

  -- An answer says whether the job was there; if so, it counts as failed. Nothing of it waits then.
  abbrev pub Ended : Queue → Raising Bool × Queue → Type 0
  Ended before (raises e, after) = Unit {0}
  Ended before (value b, after) =
      (b ≡ exists w.job before.files)
      × (after.failures ≡ (if b then 1 else 0) + before.failures)
      × (read w.meta after.files ≡ none)
      × (read w.artifact after.files ≡ none)
