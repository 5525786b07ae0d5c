-- ===== src/Queue/Sidecar.antt =====
-- The error sidecar of a failed job (src/voxera/core/queue_daemon.py): how it is written, and what a
-- reader accepts.
pub mod Laws
use voxera_os.Base.{
  ℕ, String, Bool, true, false, not, Option, none, some, List, [], ◌∷◌, ◌++◌, ◌==◌, ◌&&◌, ltb,
  nat_eq, if◌then◌else◌,
}
use voxera_os.Base.Text.{◌+s◌, is_empty, join}
use voxera_os.Base.Int.{ℤ, pos, negsuc}
use voxera_os.Py.{Value, null, bool, int, text, array, object, Fields, end, field}
use voxera_os.Py.Dict.{get, has}
use voxera_os.Py.Str.{py_str}
use voxera_os.Automation.{Raising, value, raises}
use voxera_os.Queue.State.{nat_value}
use voxera_os.Queue.Disk.{FilePath, Files, read, write}
use voxera_os.Queue.Requests.{◌>>=◌}
use voxera_os.Queue.Lifecycle.{error_sidecar}

abbrev pub timestamp_ms_min : ℕ
timestamp_ms_min = 1000000000000

-- `isinstance(v, int)`, with the number: a bool is one
abbrev as_int : Value → Option ℤ
as_int (bool true) = some (pos 1)
as_int (bool false) = some (pos 0)
as_int (int z) = some z
as_int _ = none

abbrev pub check : Bool → String → Raising (Unit {0})
check true message = value tt
check false message = raises message

abbrev is_version : Option ℤ → Bool
is_version (some (pos n)) = nat_eq n 1
is_version _ = false

abbrev is_int : Option ℤ → Bool
is_int none = false
is_int (some z) = true

abbrev is_timestamp : Option ℤ → Bool
is_timestamp (some (pos n)) = not (ltb n timestamp_ms_min)
is_timestamp _ = false

abbrev full_text : Value → Bool
full_text (text s) = not (is_empty s)
full_text _ = false

abbrev is_expected : Option String → Value → Bool
is_expected (some expected) (text job) = job == expected
is_expected _ _ = true

abbrev optional_object : Value → Bool
optional_object null = true
optional_object (object d) = true
optional_object _ = false

missing_fields : List String → Fields → List String
missing_fields [] d = []
missing_fields (k ∷ ks) d = let rest = missing_fields ks d in if has k d then rest else k ∷ rest

abbrev none_missing : List String → Raising (Unit {0})
none_missing [] = value tt
none_missing ks = raises ("failed sidecar missing required fields: " +s join ", " ks)

abbrev expected_text : Option String → String
expected_text none = ""
expected_text (some s) = s

-- `_validate_failed_sidecar_schema_version` in its mode "read"
validate_schema_version : Value → Raising (Unit {0})
validate_schema_version version = do
  _ ← check (is_int (as_int version)) "failed sidecar field 'schema_version' must be an integer"
  check (is_version (as_int version)) (
      "unsupported failed sidecar schema version for read: "
      +s py_str version
      +s " (supported: [1])")

validate_fields : Option String → Fields → Raising Fields
unfolding missing_fields validate_schema_version
validate_fields expected d = do
  _ ← none_missing (missing_fields ("schema_version" ∷ "job" ∷ "error" ∷ "timestamp_ms" ∷ []) d)
  _ ← validate_schema_version (get "schema_version" d)
  _ ← check (full_text (get "job" d)) "failed sidecar field 'job' must be a non-empty string"
  _ ← check (is_expected expected (get "job" d)) (
      "failed sidecar job mismatch: expected "
      +s expected_text expected
      +s ", got "
      +s py_str (get "job" d))
  _ ← check (full_text (get "error" d)) "failed sidecar field 'error' must be a non-empty string"
  _ ←
      check (is_timestamp (as_int (get "timestamp_ms" d)))
        "failed sidecar field 'timestamp_ms' must be an epoch timestamp in milliseconds"
  _ ←
      check (optional_object (get "payload" d))
        "failed sidecar field 'payload' must be an object when present"
  value d

-- `_validate_failed_error_sidecar`
unfoldable pub validate_failed_error_sidecar : Value → Option String → Raising Fields
unfolding validate_fields
validate_failed_error_sidecar (object d) expected = validate_fields expected d
validate_failed_error_sidecar _ expected = raises "failed sidecar payload must be a JSON object"

abbrev payload_entry : Option Fields → Fields
payload_entry none = end
payload_entry (some d) = field "payload" (object d) end

abbrev pub sidecar_details : ℕ → String → String → Option Fields → Fields
sidecar_details now name error payload = field "schema_version" (nat_value 1) (
    field "job" (text name)
      (field "error" (text error) (field "timestamp_ms" (nat_value now) (payload_entry payload))))

-- `_write_failed_error_sidecar`, once the payload is sanitized
unfoldable pub write_failed_error_sidecar :
    ℕ → FilePath → String → Option Fields → Files → Raising Files
write_failed_error_sidecar now job error payload fs = do
  d ←
      validate_failed_error_sidecar (object (sidecar_details now job.name error payload))
        (some job.name)
  value (write (error_sidecar job) (some (object d)) fs)

abbrev pub parsed : FilePath → Option (Option Value) → Option Fields
parsed job (some (some v)) = elim (validate_failed_error_sidecar v (some job.name)) [
  | value d ↦ some d
  | raises e ↦ none
]
parsed job _ = none

-- `_read_failed_error_sidecar`
unfoldable pub read_failed_error_sidecar : FilePath → Files → Option Fields
read_failed_error_sidecar job fs = parsed job (read (error_sidecar job) fs)
