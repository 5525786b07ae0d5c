-- ===== src/Queue/Answer/Stored.antt =====
-- What `resolve_approval` of src/voxera/core/queue_approvals.py reads back of a job that waits: its
-- payload, its mission and its step. A step's skill and arguments and a mission's texts that are not
-- what the queue writes there raise when they are read.
use voxera_os.Base.{ℕ, suc, String, Option, none, some, List, [], ◌∷◌}
use voxera_os.Base.Int.{ℤ, to_ℕ}
use voxera_os.Py.{Value, text, array, object, Items, nil, cons, Fields, end, field}
use voxera_os.Py.Dict.{get, find}
use voxera_os.Automation.{Raising, value, raises}
use voxera_os.Mission.{MissionStep, MissionTemplate}
use voxera_os.Queue.State.{nat_value, int_of, or_value}
use voxera_os.Queue.Disk.{FilePath, Files, read}
use voxera_os.Queue.Gate.{get_or}
use voxera_os.Queue.Answer.{Waiting}

infixl 1 ◌>>=◌
abbrev pub ◌>>=◌ {ℓ κ} : {A : Type ℓ} {B : Type κ} → Raising A → (A → Raising B) → Raising B
value a >>= f = f a
raises e >>= f = raises e

-- The resumption of a job that has none: its own payload, from the first step.
abbrev payload_of : Option (Option Value) → Fields
payload_of (some (some (object d))) = d
payload_of _ = end

unfoldable pub default_meta : FilePath → Files → Fields
default_meta job fs = field "status" (text "pending_approval") (
    field "job" (text job.name) (
      field "payload" (object (payload_of (read job fs)))
        (field "resume_step" (nat_value 1) (field "mission" (object end) end))))

abbrev pub loaded_meta : Waiting → Files → Option (Option Value) → Raising Value
loaded_meta w fs none = value (object (default_meta w.job fs))
loaded_meta w fs (some none) = raises "JSONDecodeError()"
loaded_meta w fs (some (some v)) = value v

unfoldable pub read_meta : Waiting → Files → Raising Value
unfolding default_meta
read_meta w fs = loaded_meta w fs (read w.meta fs)

abbrev pub fields_of : Value → Raising Fields
fields_of (object d) = value d
fields_of _ = raises "AttributeError()"

abbrev pub as_dict : Value → Option Fields
as_dict (object d) = some d
as_dict _ = none

abbrev number_of : Option ℤ → Raising ℕ
number_of none = raises "TypeError()"
number_of (some z) = value (to_ℕ z)

-- `int(meta.get("resume_step", 1) or 1)`, where a number is not negative
unfoldable pub resume_step : Fields → Raising ℕ
unfolding int_of
resume_step meta =
    number_of (int_of (or_value (get_or "resume_step" (nat_value 1) meta) (nat_value 1)))

abbrev text_of : Value → Raising String
text_of (text s) = value s
text_of _ = raises "TypeError()"

abbrev pub text_at : String → Value → Fields → Raising String
text_at k other d = text_of (get_or k other d)

abbrev args_of : Option Value → Raising Fields
args_of none = value end
args_of (some v) = fields_of v

abbrev required : Option Value → Raising Value
required none = raises "KeyError('skill_id')"
required (some v) = value v

unfoldable pub stored_step : Value → Raising MissionStep
stored_step v = do
  d ← fields_of v
  skill ← required (find "skill_id" d)
  id ← text_of skill
  args ← args_of (find "args" d)
  value (record { skill_id = id; args = args })

unfoldable pub stored_steps : Items → Raising (List MissionStep)
unfolding stored_step
stored_steps nil = value []
stored_steps (cons v vs) = do s ← stored_step v; ss ← stored_steps vs; value (s ∷ ss)

abbrev steps_value : Value → Value
steps_value (object d) = get_or "steps" (array nil) d
steps_value _ = array nil

abbrev pub steps_in : Value → Items
steps_in (array vs) = vs
steps_in _ = nil

unfoldable pub stored_items : Fields → Items
stored_items meta = steps_in (steps_value (get_or "mission" (object end) meta))

-- The mission of the stored steps.
unfoldable pub stored_mission : Fields → Value → Items → Raising MissionTemplate
stored_mission meta payload items = do
  steps ← stored_steps items
  d ← fields_of (get_or "mission" (object end) meta)
  p ← fields_of payload
  id ← text_at "id" (get_or "mission_id" (text "queue_mission") p) d
  title ← text_at "title" (text "Queued Mission") d
  goal ← text_at "goal" (get_or "goal" (text "") p) d
  value (record { id = id; title = title; goal = goal; steps = steps })

-- `len(mission_steps)` of a mission that is denied
count_items : Items → ℕ
count_items nil = 0
count_items (cons v vs) = suc (count_items vs)

unfoldable pub denied_total : Fields → Raising ℕ
unfolding count_items
denied_total meta = do
  d ← fields_of (or_value (get "mission" meta) (object end))
  value (count_items (steps_in (get_or "steps" (array nil) d)))

-- The mission that a denied job's state names: one without steps.
unfoldable pub denied_template : Fields → Raising MissionTemplate
denied_template meta = do
  d ← fields_of (get_or "mission" (object end) meta)
  id ← text_at "id" (text "queue_mission") d
  title ← text_at "title" (text "Queued Mission") d
  goal ← text_at "goal" (text "") d
  value (record { id = id; title = title; goal = goal; steps = [] })
