-- ===== src/Queue/State/Laws.antt =====
-- What every snapshot of a job's state satisfies (src/voxera/core/queue_state.py).
use voxera_os.Base.{
  ℕ, String, Bool, true, false, Option, none, some, List, ◌≡◌, refl, ap, subst, ◌∙◌, sym, ◌⊎◌, inl,
  inr, ◌==◌, arith, contains, if◌then◌else◌,
}
use voxera_os.Base.Text.{strip, lower}
use voxera_os.Base.Int.{ℤ}
use voxera_os.Py.{Value, null, bool, int, text, array, object, Fields, end, truthy}
use voxera_os.Py.Dict.{get, find, put, find-put}
use voxera_os.Queue.State.{
  Update, lifecycle_states, completed_states, terminal_outcomes, normalized_lifecycle, int_of,
  or_value, nat_value, dict_or, empty_or, counter, total_steps, checked_outcome, resolved_terminal,
  snapshot, update_job_state_snapshot, ◌>>=◌,
}

-- The parts of a snapshot that was made.
record Parts (stem : String) (u : Update) (current : Fields) (now : ℕ) (s : Fields) : Type 0 where
  started : ℤ
  total : ℤ
  step : ℤ
  completed : ℤ
  attempted : ℤ
  terminal : Value
  from_start : int_of (or_value (get "started_at_ms" current) (nat_value now)) ≡ some started
  outcome :
      resolved_terminal (normalized_lifecycle u.lifecycle_state) u (empty_or u.rr_data) current
      ≡ some terminal
  made : s ≡ snapshot stem u current now started total step completed attempted terminal

Parts-found :
    (stem : String) (u : Update) (current : Fields) (now : ℕ) (s : Fields) (a b c d e : Option ℤ)
    (t : Option Value)
    → int_of (or_value (get "started_at_ms" current) (nat_value now)) ≡ a
    → resolved_terminal (normalized_lifecycle u.lifecycle_state) u (empty_or u.rr_data) current ≡ t
    → (a >>= λ a'. b >>= λ b'. c >>= λ c'.
        d >>= λ d'. e >>= λ e'. t >>= λ t'. some (snapshot stem u current now a' b' c' d' e' t'))
      ≡ some s
    → Parts stem u current now s
Parts-found stem u current now s none b c d e t from out h = cc
Parts-found stem u current now s (some a) none c d e t from out h = cc
Parts-found stem u current now s (some a) (some b) none d e t from out h = cc
Parts-found stem u current now s (some a) (some b) (some c) none e t from out h = cc
Parts-found stem u current now s (some a) (some b) (some c) (some d) none t from out h = cc
Parts-found stem u current now s (some a) (some b) (some c) (some d) (some e) none from out h = cc
Parts-found stem u current now s (some a) (some b) (some c) (some d) (some e) (some t) from out h =
    record {
      started = a;
      total = b;
      step = c;
      completed = d;
      attempted = e;
      terminal = t;
      from_start = from;
      outcome = out;
      made = cc;
    }

update_job_state_snapshot-Parts :
    (stem : String) (u : Update) (current : Fields) (now : ℕ) (s : Fields)
    → update_job_state_snapshot stem u current now ≡ some s
    → Parts stem u current now s
unfolding update_job_state_snapshot
update_job_state_snapshot-Parts stem u current now s h =
    let rr = empty_or u.rr_data in
    Parts-found stem u current now s
      (int_of (or_value (get "started_at_ms" current) (nat_value now)))
      (total_steps u.mission current) (counter "current_step_index" rr current)
      (counter "last_completed_step" rr current) (counter "last_attempted_step" rr current)
      (resolved_terminal (normalized_lifecycle u.lifecycle_state) u rr current) refl refl h

chosen-known :
    (states : List String) (s : String) (b : Bool)
    → contains s states ≡ b
    → contains "blocked" states ≡ true
    → contains (if b then s else "blocked") states ≡ true
chosen-known states s true e h = e
chosen-known states s false e h = h

normalized_lifecycle-known :
    (s : String) → contains (normalized_lifecycle s) lifecycle_states ≡ true
unfolding normalized_lifecycle
normalized_lifecycle-known s = chosen-known lifecycle_states (lower (strip s)) _ refl refl

-- No outcome, or a known one.
abbrev pub IsOutcome : Value → Type 0
IsOutcome v = (v ≡ null) ⊎ ((o : String) × (v ≡ text o) × (contains o terminal_outcomes ≡ true))

IsOutcome-chosen :
    (o : String) (b : Bool) (w : Value)
    → contains o terminal_outcomes ≡ b
    → some (if b then text o else null) ≡ some w
    → IsOutcome w
IsOutcome-chosen o true w e h = inr (o, cc, e)
IsOutcome-chosen o false w e h = inl cc

checked_outcome-IsOutcome : (v w : Value) → checked_outcome v ≡ some w → IsOutcome w
unfolding checked_outcome
checked_outcome-IsOutcome null w h = inl cc
checked_outcome-IsOutcome (bool b) w h = inl cc
checked_outcome-IsOutcome (int z) w h = inl cc
checked_outcome-IsOutcome (array vs) w h = cc
checked_outcome-IsOutcome (object d) w h = cc
checked_outcome-IsOutcome (text s) w h =
    IsOutcome-chosen (lower (strip s)) (contains (lower (strip s)) terminal_outcomes) w refl h

-- What a snapshot says of a job, whatever the sidecar and the update hold.
pub record IsLegal (u : Update) (now : ℕ) (s : Fields) : Type 0 where
  pub state : String
  pub lifecycle : get "lifecycle_state" s ≡ text state
  pub known : contains state lifecycle_states ≡ true
  pub outcome : IsOutcome (get "terminal_outcome" s)
  pub completed :
      get "completed_at_ms" s ≡ (if contains state completed_states then nat_value now else null)

snapshot-IsLegal :
    (stem : String) (u : Update) (current : Fields) (now : ℕ) (a b c d e : ℤ) (t : Value)
    → IsOutcome t
    → IsLegal u now (snapshot stem u current now a b c d e t)
unfolding snapshot get find
snapshot-IsLegal stem u current now a b c d e t h = record {
  state = normalized_lifecycle u.lifecycle_state;
  lifecycle = refl;
  known = normalized_lifecycle-known u.lifecycle_state;
  outcome = h;
  completed = refl;
}

-- Every snapshot that is made, from any sidecar and any update, has a known lifecycle state, no
-- terminal outcome or a known one, and a completion time exactly if its state is a completed one.
pub update_job_state_snapshot-IsLegal :
    (stem : String) (u : Update) (current : Fields) (now : ℕ) (s : Fields)
    → update_job_state_snapshot stem u current now ≡ some s
    → IsLegal u now s
unfolding resolved_terminal
update_job_state_snapshot-IsLegal stem u current now s h =
    let p = update_job_state_snapshot-Parts stem u current now s h in
    rw p.made (
      snapshot-IsLegal stem u current now p.started p.total p.step p.completed p.attempted
        p.terminal (checked_outcome-IsOutcome _ p.terminal p.outcome))

started_in :
    (stem : String) (u : Update) (current : Fields) (now : ℕ) (s : Fields)
    (p : Parts stem u current now s)
    → get "started_at_ms" s ≡ int p.started
unfolding snapshot get find
started_in stem u current now s p = rw p.made refl

transitions_in :
    (stem : String) (u : Update) (current : Fields) (now : ℕ) (s : Fields)
    (p : Parts stem u current now s)
    → get "transitions" s
      ≡ object (
          put
            (normalized_lifecycle u.lifecycle_state)
            (nat_value now)
            (dict_or (get "transitions" current) end))
unfolding snapshot get find
transitions_in stem u current now s p = rw p.made refl

kept_start :
    (z z' : ℤ) (n : ℕ)
    → truthy (int z) ≡ true
    → int_of (or_value (int z) (nat_value n)) ≡ some z'
    → z' ≡ z
unfolding int_of
kept_start z z' n t h = ground arith

-- A later snapshot of a job that has started keeps its start and the times of the states that it
-- has passed, and adds the time of the new state.
pub update-keeps_history :
    (stem : String) (u u' : Update) (current s s' : Fields) (now now' : ℕ) (j : String)
    → update_job_state_snapshot stem u current now ≡ some s
    → update_job_state_snapshot stem u' s now' ≡ some s'
    → truthy (get "started_at_ms" s) ≡ true
    → (get "started_at_ms" s' ≡ get "started_at_ms" s)
      × (find j (dict_or (get "transitions" s') end) ≡ (
          if normalized_lifecycle u'.lifecycle_state == j
          then some (nat_value now')
          else find j (dict_or (get "transitions" s) end)))
update-keeps_history stem u u' current s s' now now' j h h' started =
    let p = update_job_state_snapshot-Parts stem u current now s h in
    let q = update_job_state_snapshot-Parts stem u' s now' s' h' in
    let same = started_in stem u current now s p in
    let kept =
      kept_start p.started q.started now' (subst (λ v. truthy v ≡ true) same started)
        (subst (λ v. int_of (or_value v (nat_value now')) ≡ some q.started) same q.from_start) in
    (
      started_in stem u' s now' s' q ∙ ap (λ z. int z) kept ∙ sym same,
      rw (transitions_in stem u' s now' s' q) (
          find-put j (normalized_lifecycle u'.lifecycle_state) (nat_value now')
            (dict_or (get "transitions" s) end)),
    )
