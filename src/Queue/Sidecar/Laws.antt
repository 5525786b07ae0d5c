-- ===== src/Queue/Sidecar/Laws.antt =====
-- A failed job's error is read back as it was written (src/voxera/core/queue_daemon.py).
use voxera_os.Base.{
  ℕ, ◌≤◌, String, false, Option, none, some, ◌≡◌, ◌≢◌, arith, ◌==◌, eq_iff, eq_refl, ltb,
  Bool-cases, inl, inr,
}
use voxera_os.Py.{object, Fields}
use voxera_os.Automation.{value}
use voxera_os.Py.Dict.{get, find, has}
use voxera_os.Queue.Disk.{FilePath, Files, write}
use voxera_os.Queue.Disk.Laws.{read-write, same_path_self}
use voxera_os.Queue.Lifecycle.{error_sidecar}
use voxera_os.Queue.Sidecar.{
  timestamp_ms_min, sidecar_details, validate_failed_error_sidecar, write_failed_error_sidecar,
  read_failed_error_sidecar, parsed,
}

not_empty : (s : String) → s ≢ "" → (s == "") ≡ false
not_empty s h = elim (Bool-cases (s == "")) [
  | inl empty ↦ absurd (h ((eq_iff s "").0 empty))
  | inr full ↦ full
]

not_early : (now : ℕ) → timestamp_ms_min ≤ now → ltb now timestamp_ms_min ≡ false
not_early now late = ground arith

-- What the writer makes is valid if the job's name and the error are not empty and the time
-- is after the smallest time stamp.
details_valid :
    (now : ℕ) (name error : String) (payload : Option Fields)
    → name ≢ ""
    → error ≢ ""
    → timestamp_ms_min ≤ now
    → validate_failed_error_sidecar (object (sidecar_details now name error payload)) (some name)
      ≡ value (sidecar_details now name error payload)
unfolding validate_failed_error_sidecar get find has
details_valid now name error none named told late =
    rw (not_empty name named)
      (rw (eq_refl name) (rw (not_empty error told) (rw (not_early now late))))
details_valid now name error (some d) named told late =
    rw (not_empty name named)
      (rw (eq_refl name) (rw (not_empty error told) (rw (not_early now late))))

-- The error of a failed job that is written is read back with the payload, whatever the queue holds.
pub read_failed_error_sidecar-write :
    (now : ℕ) (job : FilePath) (error : String) (payload : Option Fields) (fs : Files)
    → job.name ≢ ""
    → error ≢ ""
    → timestamp_ms_min ≤ now
    → (gs : Files) × (write_failed_error_sidecar now job error payload fs ≡ value gs)
      × (read_failed_error_sidecar job gs ≡ some (sidecar_details now job.name error payload))
unfolding write_failed_error_sidecar read_failed_error_sidecar
read_failed_error_sidecar-write now job error payload fs named told late =
    let d = sidecar_details now job.name error payload in
    let valid = details_valid now job.name error payload named told late in
    (
      write (error_sidecar job) (some (object d)) fs,
      rw (write_failed_error_sidecar, valid),
      rw (
        read_failed_error_sidecar,
        read-write (error_sidecar job) (error_sidecar job) (some (object d)) fs,
        same_path_self (error_sidecar job),
        parsed,
        valid,
      ),
    )
