-- ===== src/Queue/State.antt =====
-- src/voxera/core/queue_state.py: `update_job_state_snapshot`, with the states and the outcomes of
-- src/voxera/core/queue_object_model.py. `stem` is the stem of the job's file, and `none` is the
-- exception of an `int` or of a set that is asked for a list.
pub mod Laws
use Prim.Native.Char.{code}
use voxera_os.Base.{
  ℕ, zero, suc, ◌+◌, ◌-◌, ◌*◌, String, Bool, true, false, not, Option, none, some, List, [], ◌∷◌,
  ◌++◌, ◌&&◌, ◌==◌, contains, leb, nat_eq, length, if◌then◌else◌,
}
use voxera_os.Base.Text.{◌+s◌, strip, lower, is_empty, or_else}
use voxera_os.Base.Int.{ℤ, pos, negsuc}
use voxera_os.Py.{
  Value, null, bool, int, text, array, object, Items, nil, cons, Fields, end, field, optional_text,
  truthy,
}
use voxera_os.Py.Dict.{get, put}
use voxera_os.Py.Str.{py_str}
use voxera_os.Skill.Result.{str_or_empty}
use voxera_os.Mission.{MissionTemplate}

abbrev pub lifecycle_states : List String
lifecycle_states =
    "queued" ∷ "planning" ∷ "running" ∷ "awaiting_approval" ∷ "resumed" ∷ "advisory_running"
    ∷ "done" ∷ "failed" ∷ "step_failed" ∷ "blocked" ∷ "canceled" ∷ []

abbrev pub completed_states : List String
completed_states = "done" ∷ "failed" ∷ "step_failed" ∷ "blocked" ∷ "canceled" ∷ []

abbrev pub terminal_outcomes : List String
terminal_outcomes = "succeeded" ∷ "failed" ∷ "blocked" ∷ "denied" ∷ "canceled" ∷ []

abbrev boundary_classes : List String
boundary_classes = "path_blocked_scope" ∷ "capability_boundary_mismatch" ∷ "policy_denied" ∷ []

-- The keyword arguments of the update.
pub record Update : Type 0 where
  pub lifecycle_state : String
  pub payload : Option Fields
  pub mission : Option MissionTemplate
  pub rr_data : Option Fields
  pub terminal_outcome : Option String
  pub failure_summary : Option String
  pub blocked_reason : Option String
  pub blocked_reason_class : Option String
  pub approval_status : Option String

unfoldable pub normalized_lifecycle : String → String
normalized_lifecycle s =
    let state = lower (strip s) in if contains state lifecycle_states then state else "blocked"

digits : ℕ → String → Option ℕ
digits acc String.[] = some acc
digits acc (String.◌∷◌ c s) =
    let rest = digits (10 * acc + (code c - 48)) s in
    if leb 48 (code c) && leb (code c) 57 then rest else none

negated : Option ℕ → Option ℤ
negated none = none
negated (some zero) = some (pos zero)
negated (some (suc n)) = some (negsuc n)

unsigned : String → Option ℤ
unfolding digits
unsigned s = if is_empty s then none else elim (digits 0 s) [ none ↦ none | some n ↦ some (pos n) ]

signed : String → Option ℤ
unfolding unsigned negated digits
signed String.[] = none
signed (String.◌∷◌ c s) =
    if nat_eq (code c) 45
    then (if is_empty s then none else negated (digits 0 s))
    else if nat_eq (code c) 43
    then unsigned s
    else unsigned (String.◌∷◌ c s)

-- `int(v)`; digits are not grouped by underscores
unfoldable pub int_of : Value → Option ℤ
unfolding signed
int_of (bool true) = some (pos 1)
int_of (bool false) = some (pos 0)
int_of (int z) = some z
int_of (text s) = signed (strip s)
int_of _ = none

-- `v or w`
abbrev pub or_value : Value → Value → Value
or_value v w = if truthy v then v else w

abbrev pub nat_value : ℕ → Value
nat_value n = int (pos n)

-- `int(rr.get(key) or current.get(key) or 0)`
unfoldable pub counter : String → Fields → Fields → Option ℤ
unfolding int_of
counter key rr current = int_of (or_value (or_value (get key rr) (get key current)) (nat_value 0))

-- `x if isinstance(x, dict) else other`, and the same for a list and a text
abbrev pub dict_or : Value → Fields → Fields
dict_or (object d) other = d
dict_or _ other = other

abbrev list_or : Value → Value → Value
list_or (array vs) other = array vs
list_or _ other = other

abbrev text_or : Value → Option String → Option String
text_or (text s) other = some s
text_or _ other = other

abbrev given : Option String → Value → Value
given none v = v
given (some s) v = text s

abbrev pub empty_or : Option Fields → Fields
empty_or none = end
empty_or (some d) = d

abbrev items_of : Value → Items
items_of (array vs) = vs
items_of _ = nil

mission_payload : Option MissionTemplate → Fields → Fields
mission_payload none current = dict_or (get "mission" current) end
mission_payload (some m) current =
    field "mission_id" (text m.id) (field "title" (text m.title) (field "goal" (text m.goal) end))

total_steps : Option MissionTemplate → Fields → Option ℤ
total_steps none current = int_of (or_value (get "total_steps" current) (nat_value 0))
total_steps (some m) current = some (pos (length m.steps))

abbrev default_outcome : Bool → String → Value → Value
default_outcome applies outcome v = if applies && not (truthy v) then text outcome else v

is_denied : Option String → Bool
is_denied none = false
is_denied (some s) = s == "denied"

-- `resolved_terminal in TERMINAL_OUTCOMES`, else `None`
checked_outcome : Value → Option Value
checked_outcome (text s) =
    let outcome = lower (strip s) in
    some (if contains outcome terminal_outcomes then text outcome else null)
checked_outcome (array vs) = none
checked_outcome (object d) = none
checked_outcome _ = some null

unfoldable pub resolved_terminal : String → Update → Fields → Fields → Option Value
unfolding checked_outcome is_denied
resolved_terminal state u rr current = checked_outcome (
    default_outcome (is_denied u.approval_status) "denied" (
      default_outcome (state == "awaiting_approval") "blocked" (
        default_outcome (state == "done") "succeeded" (
          given u.terminal_outcome
            (or_value (get "terminal_outcome" rr) (get "terminal_outcome" current))))))

-- The last entry of a list, from the end, that gives a class.
abbrev last_class : (Fields → Option String) → Items → Option String
last_class f nil = none
last_class f (cons (object d) vs) = elim (last_class f vs) [ some c ↦ some c | none ↦ f d ]
last_class f (cons _ vs) = last_class f vs

abbrev outcome_class : Fields → Option String
outcome_class d = elim (get "blocked_reason_class" d) [
  | text s ↦ if is_empty (strip s) then none else some (strip s)
  | _ ↦ none
]

abbrev result_class : Fields → Option String
result_class d =
    let c = lower (strip (str_or_empty (get "error_class" d))) in
    if contains c boundary_classes then some c else none

abbrev first_some : Option String → Option String → Option String
first_some (some c) other = some c
first_some none other = other

unfoldable pub resolved_reason_class : Update → Fields → Fields → Option String
resolved_reason_class u rr current = first_some u.blocked_reason_class (
    first_some
      (text_or (get "blocked_reason_class" rr) (text_or (get "blocked_reason_class" current) none))
      (first_some (last_class outcome_class (items_of (get "step_outcomes" rr)))
        (last_class result_class (items_of (get "results" rr)))))

-- `results[-1].get("error")`, stripped, where the last result is a dictionary
abbrev last_error : Items → String
last_error nil = ""
last_error (cons (object d) nil) = strip (str_or_empty (get "error" d))
last_error (cons v nil) = ""
last_error (cons v (cons w vs)) = last_error (cons w vs)

abbrev text_of : Option String → String
text_of none = ""
text_of (some s) = s

-- `v if v is not None else w`
abbrev if_none : Value → Value → Value
if_none null w = w
if_none v w = v

resolved_reason : Update → Option String → Fields → Fields → Value
resolved_reason u reason_class rr current =
    let reason = given u.blocked_reason (get "blocked_reason" current) in
    if_none reason (
      if is_empty (text_of reason_class)
      then null
      else let found = or_else (text_of u.failure_summary) (
          or_else (strip (str_or_empty (get "error" rr)))
            (last_error (items_of (get "results" rr)))) in
        if is_empty found then get "failure_summary" current else text found)

abbrev payload_entry : Option Fields → Fields → Fields
payload_entry none current = elim (get "payload" current) [
  | object d ↦ field "payload" (object d) end
  | _ ↦ end
]
payload_entry (some d) current = field "payload" (object d) end

-- The snapshot, from the parts that may raise.
unfoldable pub snapshot : String → Update → Fields → ℕ → ℤ → ℤ → ℤ → ℤ → ℤ → Value → Fields
unfolding mission_payload resolved_reason
snapshot stem u current now started total step completed attempted terminal =
    let state = normalized_lifecycle u.lifecycle_state in
    let rr = empty_or u.rr_data in
    let reason_class = resolved_reason_class u rr current in
    field "schema_version" (nat_value 1) (
      field "job_id" (text (stem +s ".json")) (
        field "lifecycle_state" (text state) (
          field "current_step_index" (int step) (
            field "total_steps" (int total) (
              field "last_completed_step" (int completed) (
                field "last_attempted_step" (int attempted) (
                  field "terminal_outcome" terminal (
                    field "failure_summary"
                      (given u.failure_summary (get "failure_summary" current))
                      (field "blocked_reason" (resolved_reason u reason_class rr current) (
                        field "blocked_reason_class" (optional_text reason_class) (
                          field "approval_status"
                            (given u.approval_status (get "approval_status" current))
                            (field "mission" (object (mission_payload u.mission current)) (
                              field "step_outcomes"
                                (list_or (get "step_outcomes" rr)
                                  (list_or (get "step_outcomes" current) (array nil)))
                                (field "started_at_ms" (int started) (
                                  field "updated_at_ms" (nat_value now) (
                                    field "completed_at_ms"
                                      (if contains state completed_states
                                        then nat_value now
                                        else null)
                                      (field "transitions"
                                        (object (
                                          put state (nat_value now)
                                            (dict_or (get "transitions" current) end)))
                                        (payload_entry u.payload current))))))))))))))))))

infixl 1 ◌>>=◌
abbrev pub ◌>>=◌ {ℓ κ} : {A : Type ℓ} {B : Type κ} → Option A → (A → Option B) → Option B
none >>= f = none
some a >>= f = f a

unfoldable pub update_job_state_snapshot : String → Update → Fields → ℕ → Option Fields
unfolding total_steps
update_job_state_snapshot stem u current now = do
  let rr = empty_or u.rr_data
  started ← int_of (or_value (get "started_at_ms" current) (nat_value now))
  total ← total_steps u.mission current
  step ← counter "current_step_index" rr current
  completed ← counter "last_completed_step" rr current
  attempted ← counter "last_attempted_step" rr current
  terminal ← resolved_terminal (normalized_lifecycle u.lifecycle_state) u rr current
  some (snapshot stem u current now started total step completed attempted terminal)
