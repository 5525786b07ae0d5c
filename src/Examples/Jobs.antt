-- ===== src/Examples/Jobs.antt =====
-- The queue's jobs on concrete inputs (src/voxera/core/queue_daemon.py, queue_contracts.py).
use voxera_os.Base.{◌+◌, true, false, none, some, [], ◌∷◌, ◌≡◌, refl, arith, ◌⊎◌}
use voxera_os.Base.Text.{strip, lower, is_empty}
use voxera_os.Py.{Value, text, object, Fields, end, field}
use voxera_os.Py.Dict.{get, find, put}
use voxera_os.Automation.{value}
use voxera_os.Queue.Disk.{
  inbox, pending, canceled, failed, FilePath, at, Files, read, exists, stem, same_dir, same_path,
  move_target,
}
use voxera_os.Queue.Names.{
  Refs, base_name, candidates, is_primary_job_json, resolve_job_ref_in_dirs,
}
use voxera_os.Queue.Names.Laws.{Names, resolve_job_ref_in_dirs-Names}
use voxera_os.Queue.Lifecycle.{Env, Queue, cancel_job, pending_meta, approval_file}
use voxera_os.Queue.Lifecycle.Laws.{cancel_job-moves}
use voxera_os.Queue.Sidecar.{sidecar_details, write_failed_error_sidecar, read_failed_error_sidecar}
use voxera_os.Queue.Sidecar.Laws.{read_failed_error_sidecar-write}
use voxera_os.Queue.Requests.{
  WriteFile, write_file_request, extract_write_file_request, sanitize_lineage_string, or_text,
}
use voxera_os.Queue.Requests.Laws.{
  depth_of, root_of, descend, lineage-descend, write_file_value, extract_write_file_request-put,
}

abbrev pub sample_refs : Refs
sample_refs = record { direct = λ s. none; order = λ ns. ns }

abbrev pub sample_env : Env
sample_env = record { refs = sample_refs; now = 1700000000000; sanitize_payload = λ d. d }

abbrev notes_job : FilePath
notes_job = at inbox "notes.json"

abbrev notes_payload : Fields
notes_payload = field "goal" (text "open notes") end

abbrev notes_queue : Queue
notes_queue = record {
  files = (notes_job, some (object notes_payload)) ∷ [];
  artifacts = [];
  runs = [];
  processed = 0;
  failures = 0;
}

notes_resolved :
    resolve_job_ref_in_dirs sample_env.refs "notes" (inbox ∷ pending ∷ []) notes_queue.files
    ≡ some notes_job
unfolding resolve_job_ref_in_dirs candidates base_name stem exists read same_path
    is_primary_job_json strip
notes_resolved = refl

notes_read : read notes_job notes_queue.files ≡ some (some (object notes_payload))
unfolding read same_path
notes_read = refl

resolve_job_ref_in_dirs-Names_example :
    Names notes_queue.files none
      (is_empty (strip "notes"))
      (sample_refs.order (candidates (strip "notes")))
      (inbox ∷ pending ∷ [])
      (resolve_job_ref_in_dirs sample_refs "notes" (inbox ∷ pending ∷ []) notes_queue.files)
resolve_job_ref_in_dirs-Names_example =
    resolve_job_ref_in_dirs-Names sample_refs "notes" (inbox ∷ pending ∷ []) notes_queue.files

abbrev notes_place : FilePath
notes_place = move_target sample_env.now notes_job canceled notes_queue.files

cancel_job-moves_example :
    (read notes_place (cancel_job sample_env "notes" notes_queue).1.files
      ≡ some (some (object notes_payload)))
    × (same_dir notes_place.dir canceled ≡ true)
    × (read notes_job (cancel_job sample_env "notes" notes_queue).1.files ≡ none)
    × (((exists (at canceled "notes.json") notes_queue.files ≡ false)
          × (read (pending_meta "notes.json") (cancel_job sample_env "notes" notes_queue).1.files
              ≡ none)
          × (read (approval_file "notes.json") (cancel_job sample_env "notes" notes_queue).1.files
              ≡ none))
        ⊎ ((exists (at canceled "notes.json") notes_queue.files ≡ true)
            × ((notes_job.name ≡ ".json")
                ⊎ (read
                      (approval_file "notes.json")
                      (cancel_job sample_env "notes" notes_queue).1.files
                    ≡ read (approval_file "notes.json") notes_queue.files))))
cancel_job-moves_example =
    cancel_job-moves sample_env "notes" notes_queue notes_job (some (object notes_payload))
      notes_resolved notes_read refl

abbrev failed_notes : FilePath
failed_notes = at failed "notes.json"

read_failed_error_sidecar-write_example :
    (gs : Files) × (write_failed_error_sidecar 1700000000000 failed_notes "mission failed" none []
      ≡ value gs)
    × (read_failed_error_sidecar failed_notes gs
        ≡ some (sidecar_details 1700000000000 "notes.json" "mission failed" none))
read_failed_error_sidecar-write_example =
    read_failed_error_sidecar-write 1700000000000 failed_notes "mission failed" none [] (λ e. cc)
      (λ e. cc) (omega arith)

lineage-descend_example :
    (depth_of (descend ("a.json" ∷ "b.json" ∷ []) end) ≡ depth_of end + 2)
    × (root_of (descend ("a.json" ∷ "b.json" ∷ []) end) ≡ some (or_text (root_of end) "a.json"))
unfolding sanitize_lineage_string strip
lineage-descend_example = lineage-descend "a.json" ("b.json" ∷ []) end (refl, (refl, tt))

abbrev spaced_request : Value
spaced_request = object (
    field "path" (text " notes.txt")
      (field "content" (text "milk") (field "mode" (text "Append") end)))

abbrev plain_request : WriteFile
plain_request = record { path = "notes.txt"; content = "milk"; mode = "append" }

abbrev spaced_payload : Fields
spaced_payload = field "goal" (text "shopping") (field "write_file" spaced_request end)

spaced_taken : extract_write_file_request spaced_payload ≡ value (some plain_request)
unfolding extract_write_file_request write_file_request get find sanitize_lineage_string strip lower
spaced_taken = refl

extract_write_file_request-put_example :
    extract_write_file_request (put "write_file" (write_file_value plain_request) notes_payload)
    ≡ value (some plain_request)
extract_write_file_request-put_example =
    extract_write_file_request-put spaced_payload notes_payload plain_request spaced_taken
