-- ===== src/Automation/Inbox.antt =====
-- src/voxera/core/inbox.py: `add_inbox_payload`. The files of the inbox are a dictionary from their
-- names; `enrich` is src/voxera/core/queue_job_intent.py, and `write_error` says whether the write of
-- a file fails.
use voxera_os.Base.{String, Option, none, some, nat_eq, length, if◌then◌else◌}
use voxera_os.Base.Text.{◌+s◌, strip, is_empty, decimal}
use voxera_os.Base.Assoc.{Assoc, lookup, store}
use voxera_os.Py.{Value, null, text, array, object, Fields, end, field, to_list}
use voxera_os.Py.Dict.{get, put}
use voxera_os.Automation.{Raising, value, raises}
use voxera_os.Automation.Trigger.{clean_str}

abbrev first_of : Option String → Option String → Option String
first_of none b = b
first_of (some a) b = some a

abbrev tagged : String → Option String → Option String
tagged tag none = none
tagged tag (some s) = some (tag +s s)

abbrev steps_anchor : Value → Option String
steps_anchor (array vs) =
    let n = length (to_list vs) in if nat_eq n 0 then none else some ("inline_steps:" +s decimal n)
steps_anchor _ = none

abbrev entry_of : Value → String → Value
entry_of (object d) key = get key d
entry_of _ key = null

-- `_canonical_request_anchor_text`
unfoldable pub canonical_request_anchor_text : Fields → Option String
canonical_request_anchor_text payload =
    first_of (tagged "mission:" (clean_str (get "mission_id" payload))) (
      first_of (tagged "mission:" (clean_str (get "mission" payload))) (
        first_of (clean_str (get "goal" payload)) (
          first_of (clean_str (get "plan_goal" payload)) (
            first_of (steps_anchor (get "steps" payload)) (
              first_of
                (tagged "write_file:" (clean_str (entry_of (get "write_file" payload) "path")))
                (tagged "file_organize:"
                  (clean_str (entry_of (get "file_organize" payload) "source_path"))))))))

-- `{"id": job_id, **payload}`: an `id` of the payload wins
put_all : Fields → Fields → Fields
put_all end d = d
put_all (field k v rest) d = put_all rest (put k v d)

unfoldable pub job_payload : String → Fields → Fields
unfolding put_all
job_payload job_id payload = put_all payload (field "id" (text job_id) end)

write_job :
    (String → Option String) → String → Fields → Assoc Fields → Raising String × Assoc Fields
write_job write_error name job inbox = elim (lookup name inbox) [
  | some old ↦ (raises ("inbox job already exists: " +s name), inbox)
  | none ↦ elim (write_error name) [
    | some e ↦ (raises e, inbox)
    | none ↦ (value name, store name job inbox)
  ]
]

-- `add_inbox_payload` with a job id that is given and not empty: the file's name, and the inbox.
unfoldable pub add_inbox_payload :
    (Fields → Fields)
    → (String → Option String)
    → String
    → Fields
    → Assoc Fields
    → Raising String × Assoc Fields
unfolding write_job
add_inbox_payload enrich write_error job_id payload inbox =
    elim (canonical_request_anchor_text payload) [
      | none ↦ (raises "job payload requires at least one canonical request anchor", inbox)
      | some anchor ↦
          let id = strip job_id in
          if is_empty id
          then (raises "job id cannot be empty", inbox)
          else write_job write_error ("inbox-" +s id +s ".json") (enrich (job_payload id payload))
              inbox
    ]
