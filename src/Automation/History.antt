-- ===== src/Automation/History.antt =====
-- src/voxera/automation/history.py: the record of one run event and its file. `payload_hash` stands
-- for the SHA-256 of the payload. The version of the schema, always 1, is left out.
use voxera_os.Base.{ℕ, String, true, Option, none, some, length}
use voxera_os.Base.Text.{◌+s◌, decimal}
use voxera_os.Base.Int.{pos}
use voxera_os.Base.Assoc.{Assoc, store}
use voxera_os.Py.{Value, bool, int, text, array, object, Fields, end, field, to_list}
use voxera_os.Py.Dict.{get}
use voxera_os.Automation.{Raising, value, raises, validated_id_segment}
use voxera_os.Automation.Trigger.{clean_str}

pub data RunOutcome : Type 0 where
  submitted skipped error : RunOutcome

pub record HistoryRecord : Type 0 where
  pub automation_id : String
  pub run_id : String
  pub triggered_at_ms : ℕ
  pub trigger_kind : String
  pub outcome : RunOutcome
  pub queue_job_ref : Option String
  pub message : String
  pub payload_summary : Fields
  pub payload_hash : String

-- `<epoch_ms>-<sha1[:8]>`, where `digest` stands for the first eight digits of the SHA-1
unfoldable pub generate_run_id : (String → String) → String → ℕ → String
generate_run_id digest automation_id now =
    decimal now +s "-" +s digest (automation_id +s "|" +s decimal now)

abbrev stripped_entry : String → Fields → Fields → Fields
stripped_entry key payload rest = elim (clean_str (get key payload)) [
  | none ↦ rest
  | some s ↦ field key (text s) rest
]

abbrev steps_count : Value → Fields → Fields
steps_count (array vs) rest = field "steps_count" (int (pos (length (to_list vs)))) rest
steps_count _ rest = rest

abbrev object_flag : String → Value → Fields → Fields
object_flag key (object d) rest = field key (bool true) rest
object_flag key _ rest = rest

-- `_summarize_payload`
unfoldable pub summarize_payload : Fields → Fields
summarize_payload payload = stripped_entry "mission_id" payload (
    stripped_entry "goal" payload (
      stripped_entry "title" payload (
        steps_count (get "steps" payload) (
          object_flag "has_write_file" (get "write_file" payload)
            (object_flag "has_file_organize" (get "file_organize" payload) end)))))

-- `_history_record_name`
unfoldable pub history_record_name : String → String → Raising String
history_record_name automation_id run_id = elim (validated_id_segment automation_id) [
  | raises e ↦ raises e
  | value id ↦ elim (validated_id_segment run_id) [
    | raises e ↦ raises e
    | value run ↦ value ("auto-" +s id +s "-" +s run +s ".json")
  ]
]

-- `write_history_record`, with the name of its file
unfoldable pub write_history_record :
    (String → Option String)
    → HistoryRecord
    → Assoc HistoryRecord
    → Raising String × Assoc HistoryRecord
write_history_record write_error r history = elim (history_record_name r.automation_id r.run_id) [
  | raises e ↦ (raises e, history)
  | value name ↦ elim (write_error name) [
    | some e ↦ (raises e, history)
    | none ↦ (value name, store name r history)
  ]
]
