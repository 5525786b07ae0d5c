-- ===== src/Automation.antt =====
-- src/voxera/automation: saved definitions that submit a queue job when they are due. Here the
-- definition's record and the identifiers (models.py and history.py); Automation/Trigger validates
-- the trigger and decides what is due, Automation/Inbox submits a job, Automation/Runner runs
-- a definition, Automation/Pass all of them. Times are positive numbers of milliseconds.
pub mod Trigger
pub mod Inbox
pub mod History
pub mod Runner
pub mod Pass
use Prim.Native.Char.{Char, code}
use voxera_os.Base.{
  ℕ, suc, zero, String, Bool, true, false, Option, none, some, List, ◌&&◌, ◌||◌, ◌==◌, leb, nat_eq,
  contains, if◌then◌else◌,
}
use voxera_os.Base.Text.{strip, is_empty}
use voxera_os.Py.{Fields}

-- A value, or an exception with its text.
pub data Raising {ℓ} (A : Type ℓ) : Type ℓ where
  value : A → Raising A
  raises : String → Raising A

pub data TriggerKind : Type 0 where
  once_at delay recurring_interval recurring_cron watch_path : TriggerKind

pub record AutomationDefinition : Type 0 where
  pub id : String
  pub title : String
  pub description : String
  pub enabled : Bool
  pub trigger_kind : TriggerKind
  pub trigger_config : Fields
  pub payload_template : Fields
  pub created_at_ms : ℕ
  pub updated_at_ms : ℕ
  pub last_run_at_ms : Option ℕ
  pub next_run_at_ms : Option ℕ
  pub last_job_ref : Option String
  pub run_history_refs : List String
  pub policy_posture : String
  pub created_from : String

abbrev pub kind_name : TriggerKind → String
kind_name TriggerKind.once_at = "once_at"
kind_name TriggerKind.delay = "delay"
kind_name TriggerKind.recurring_interval = "recurring_interval"
kind_name TriggerKind.recurring_cron = "recurring_cron"
kind_name TriggerKind.watch_path = "watch_path"

-- `SUPPORTED_TRIGGER_KINDS` and `ONE_SHOT_TRIGGER_KINDS` of runner.py
abbrev pub is_supported : TriggerKind → Bool
is_supported TriggerKind.once_at = true
is_supported TriggerKind.delay = true
is_supported TriggerKind.recurring_interval = true
is_supported _ = false

abbrev pub is_one_shot : TriggerKind → Bool
is_one_shot TriggerKind.once_at = true
is_one_shot TriggerKind.delay = true
is_one_shot _ = false

abbrev between : ℕ → ℕ → Char → Bool
between low high c = leb low (code c) && leb (code c) high

-- `[A-Za-z0-9]` and `[A-Za-z0-9_-]`
abbrev is_alphanumeric : Char → Bool
is_alphanumeric c = between 48 57 c || between 65 90 c || between 97 122 c

abbrev is_id_char : Char → Bool
is_id_char c = is_alphanumeric c || nat_eq (code c) 95 || nat_eq (code c) 45

-- At most so many characters, each of an identifier.
unfoldable pub id_tail : ℕ → String → Bool
id_tail n String.[] = true
id_tail zero (String.◌∷◌ c s) = false
id_tail (suc n) (String.◌∷◌ c s) = is_id_char c && id_tail n s

-- `AUTOMATION_ID_PATTERN.match`, on a text without spaces at its ends
unfoldable pub matches_id : String → Bool
unfolding id_tail
matches_id String.[] = false
matches_id (String.◌∷◌ c s) = is_alphanumeric c && id_tail 127 s

-- `_validated_id_segment`
unfoldable pub validated_id_segment : String → Raising String
unfolding matches_id
validated_id_segment s =
    let stripped = strip s in
    if matches_id stripped then value stripped else raises "invalid automation id"
