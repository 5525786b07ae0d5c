-- ===== src/Automation/Trigger.antt =====
-- The trigger of an automation: its validation and its update time (src/voxera/automation/models.py)
-- and whether it is due (src/voxera/automation/runner.py).
pub mod Laws
use voxera_os.Base.{
  ℕ, zero, suc, ◌+◌, max, String, Bool, true, false, not, Option, none, some, List, [], ◌∷◌, ◌&&◌,
  ◌||◌, ◌==◌, contains, ltb, if◌then◌else◌,
}
use voxera_os.Base.Text.{◌+s◌, strip, is_empty, join, sorted, decimal}
use voxera_os.Base.Int.{ℤ, pos, negsuc}
use voxera_os.Py.{Value, null, bool, int, text, array, object, Fields, end, field}
use voxera_os.Py.Dict.{get}
use voxera_os.Automation.{
  Raising, value, raises, TriggerKind, once_at, delay, recurring_interval, recurring_cron,
  watch_path, AutomationDefinition, kind_name, is_supported, is_one_shot,
}

-- `_is_strict_positive_int`, with the number
abbrev pub positive : Value → Option ℕ
positive (int (pos (suc n))) = some (suc n)
positive _ = none

-- `_clean_str`
abbrev pub clean_str : Value → Option String
clean_str (text s) = if is_empty (strip s) then none else some (strip s)
clean_str _ = none

unknown_keys : List String → Fields → List String
unknown_keys allowed end = []
unknown_keys allowed (field k v d) =
    let rest = unknown_keys allowed d in if contains k allowed then rest else k ∷ rest

-- `_reject_unknown_keys`, before what is checked next
reject_unknown_keys : String → List String → Fields → Raising Fields → Raising Fields
unfolding unknown_keys
reject_unknown_keys kind allowed config next = elim (unknown_keys allowed config) [
  | [] ↦ next
  | k ∷ ks ↦ raises (
      "trigger_config for "
      +s kind
      +s " contains unsupported keys: "
      +s join ", " (sorted (k ∷ ks)))
]

positive_config : String → String → Fields → Raising Fields
positive_config key message config = elim (positive (get key config)) [
  | none ↦ raises message
  | some n ↦ value (field key (int (pos n)) end)
]

cron_config : Fields → Raising Fields
cron_config config = elim (clean_str (get "cron" config)) [
  | none ↦ raises "trigger_config.cron must be a non-empty string"
  | some cron ↦ value (field "cron" (text cron) end)
]

abbrev event_or_created : Option String → String
event_or_created none = "created"
event_or_created (some e) = e

watch_config : Fields → Raising Fields
watch_config config = elim (clean_str (get "path" config)) [
  | none ↦ raises "trigger_config.path must be a non-empty string"
  | some path ↦
      let event = event_or_created (clean_str (get "event" config)) in
      if contains event ("created" ∷ "modified" ∷ "deleted" ∷ [])
      then value (field "path" (text path) (field "event" (text event) end))
      else raises "trigger_config.event must be one of: created, deleted, modified"
]

-- `_validate_trigger_config`
unfoldable pub validate_trigger_config : TriggerKind → Fields → Raising Fields
unfolding reject_unknown_keys positive_config cron_config watch_config
validate_trigger_config once_at config =
    reject_unknown_keys "once_at" ("run_at_ms" ∷ []) config (
      positive_config "run_at_ms" "trigger_config.run_at_ms must be a positive int epoch-ms" config)
validate_trigger_config delay config = reject_unknown_keys "delay" ("delay_ms" ∷ []) config (
    positive_config "delay_ms" "trigger_config.delay_ms must be a positive int millisecond value"
      config)
validate_trigger_config recurring_interval config =
    reject_unknown_keys "recurring_interval" ("interval_ms" ∷ []) config (
      positive_config "interval_ms"
        "trigger_config.interval_ms must be a positive int millisecond value" config)
validate_trigger_config recurring_cron config =
    reject_unknown_keys "recurring_cron" ("cron" ∷ []) config (cron_config config)
validate_trigger_config watch_path config =
    reject_unknown_keys "watch_path" ("path" ∷ "event" ∷ []) config (watch_config config)

-- `touch_updated` at a positive time
unfoldable pub touch_updated : ℕ → AutomationDefinition → AutomationDefinition
touch_updated now d = record d { updated_at_ms = max (max now d.created_at_ms) d.updated_at_ms }

abbrev after : ℕ → Option ℕ → Option ℕ
after created none = none
after created (some n) = some (created + n)

unfoldable pub compute_due_anchor_ms : AutomationDefinition → Option ℕ
compute_due_anchor_ms d = elim d.trigger_kind [
  | once_at ↦ positive (get "run_at_ms" d.trigger_config)
  | delay ↦ after d.created_at_ms (positive (get "delay_ms" d.trigger_config))
  | recurring_interval ↦ elim d.next_run_at_ms [
    | some next ↦ some next
    | none ↦ after d.created_at_ms (positive (get "interval_ms" d.trigger_config))
  ]
  | _ ↦ none
]

abbrev is_set : Option ℕ → Bool
is_set none = false
is_set (some n) = true

unfoldable pub at_anchor : ℕ → Option ℕ → Bool × String
at_anchor now none = (false, "trigger_config is missing a usable due anchor")
at_anchor now (some anchor) =
    let times = "(anchor_ms=" +s decimal anchor +s ", now_ms=" +s decimal now +s ")" in
    if ltb now anchor then (false, "not yet due " +s times) else (true, "due " +s times)

unfoldable pub evaluate_due_automation : AutomationDefinition → ℕ → Bool → Bool × String
unfolding at_anchor
evaluate_due_automation d now force =
    if not d.enabled
    then (false, "definition is disabled")
    else if not (is_supported d.trigger_kind)
    then (false, "trigger_kind '" +s kind_name d.trigger_kind +s "' is not supported by the runner")
    else if force
    then (true, "forced (operator run-now, now_ms=" +s decimal now +s ")")
    else if is_one_shot d.trigger_kind && is_set d.last_run_at_ms
    then (false, "one-shot definition has already fired")
    else at_anchor now (compute_due_anchor_ms d)
