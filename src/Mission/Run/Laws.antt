-- ===== src/Mission/Run/Laws.antt =====
-- Where a mission stops, and what its result says of that
-- (src/voxera/core/missions.py and src/voxera/core/execution_evaluator.py).
use voxera_os.Base.{
  ℕ, suc, ◌-◌, max, String, true, false, Option, none, some, List, [], ◌∷◌, ◌≡◌, refl, ap, subst,
  ◌==◌, eq_iff, ltb, length, arith, if◌then◌else◌, ◌⊎◌, Bool-cases, inl, inr,
}
use voxera_os.Py.{Value, null, bool, int, array, object, Fields, text, truthy}
use voxera_os.Py.Str.{py_str}
use voxera_os.Py.Dict.{get, find, set_default, find-set_default}
use voxera_os.Models.{RunResult}
use voxera_os.Skill.Report.{denied_result}
use voxera_os.Skill.Enforce.{Enforcement}
use voxera_os.Skill.Run.{Exit, finished, escaped}
use voxera_os.Skill.Result.{build_skill_result, extract_skill_result}
use voxera_os.Evaluator.{EvaluationClass, evaluate_run_result}
use voxera_os.Mission.{MissionStep, MissionTemplate, nat_value, is_text, is_blocked, is_pending}
use voxera_os.Mission.Run.{
  Runner, attempt, step_end, paused_data, end_data, paused_result, failed_mission,
  completed_mission, run_from, run_mission,
}

-- How the steps of a mission end, with the step and its result.
pub data Ending : Type 0 where
  all_passed : Ending
  paused_at : ℕ → RunResult → Ending
  failed_at : ℕ → RunResult → Ending
  left_by : String → Ending

-- The first step from `start` on that does not succeed.
unfoldable pub ending : Runner → MissionTemplate → Fields → ℕ → ℕ → List MissionStep → Ending
ending r mission context start idx [] = all_passed
ending r mission context start idx (ms ∷ rest) = elim (ltb idx start) [
  | true ↦ ending r mission context start (suc idx) rest
  | false ↦ elim (attempt r mission context idx ms).exit [
    | escaped e ↦ left_by e
    | finished rr ↦ elim (is_pending rr) [
      | true ↦ paused_at idx rr
      | false ↦ elim rr.ok [
        | true ↦ ending r mission context start (suc idx) rest
        | false ↦ failed_at idx rr
      ]
    ]
  ]
]

abbrev class_of : RunResult → String → Option EvaluationClass
class_of rr kind = elim (evaluate_run_result rr kind) [
  | none ↦ none
  | some e ↦ some e.evaluation_class
]

-- What the mission's exit says of its ending.
abbrev pub Reports : ℕ → String → Ending → Exit → Type 0
Reports total kind all_passed (finished rr) =
    (rr.ok ≡ true)
    × (get "last_completed_step" rr.result_data ≡ nat_value total)
    × (class_of rr kind ≡ some EvaluationClass.succeeded)
Reports total kind (paused_at i step) (finished rr) =
    (rr.ok ≡ false) × (class_of rr kind ≡ some EvaluationClass.awaiting_approval)
Reports total kind (failed_at i step) (finished rr) =
    (rr.ok ≡ false)
    × (get "last_completed_step" rr.result_data ≡ nat_value (max (i - 1) 0))
    × (get "last_attempted_step" rr.result_data ≡ nat_value i)
    × (get "terminal_outcome" rr.result_data
        ≡ text (if is_blocked step then "blocked" else "failed"))
    × (get "status" rr.result_data ≡ null)
Reports total kind (left_by e) x = x ≡ escaped e
Reports total kind _ (escaped e) = ⊥

completed_mission-Reports :
    (mission : MissionTemplate) (kind : String) (outputs outcomes : List Fields)
    → Reports
        (length mission.steps)
        kind
        all_passed
        (finished (completed_mission mission outputs outcomes))
unfolding completed_mission end_data get find evaluate_run_result
completed_mission-Reports mission kind outputs outcomes = (refl, refl, refl)

failed_mission-Reports :
    (total idx : ℕ) (kind : String) (ms : MissionStep) (outputs outcomes : List Fields)
    (rr : RunResult)
    → Reports total kind
        (failed_at idx rr)
        (finished (failed_mission total idx ms outputs outcomes rr))
unfolding failed_mission end_data get find
failed_mission-Reports total idx kind ms outputs outcomes rr = (refl, refl, refl, refl, refl)

get-set_default_other :
    (j k : String) (v : Value) (d : Fields) → (k == j) ≡ false → get j (set_default k v d) ≡ get j d
unfolding get
get-set_default_other j k v d h = ground (arith, find-set_default j k v d)

status-paused_data :
    (total idx : ℕ) (ms : MissionStep) (outputs outcomes : List Fields) (d : Fields)
    → get "status" (paused_data total idx ms outputs outcomes d) ≡ get "status" d
unfolding paused_data
status-paused_data total idx ms outputs outcomes d = simp (get-set_default_other)

pending_text : (v : Value) → is_text "pending_approval" v ≡ true → v ≡ text "pending_approval"
pending_text null h = ground arith
pending_text (bool b) h = ground arith
pending_text (int z) h = ground arith
pending_text (array vs) h = ground arith
pending_text (object d) h = ground arith
pending_text (text s) h = ap (λ t. text t) ((eq_iff s "pending_approval").0 h)

paused_result-Reports :
    (total idx : ℕ) (kind : String) (ms : MissionStep) (outputs outcomes : List Fields)
    (rr : RunResult)
    → is_pending rr ≡ true
    → Reports total kind
        (paused_at idx rr)
        (finished (paused_result total idx ms outputs outcomes rr))
unfolding paused_result evaluate_run_result is_pending truthy py_str
paused_result-Reports total idx kind ms outputs outcomes rr h =
    let same = status-paused_data total idx ms outputs outcomes rr.result_data in
    let status = pending_text (get "status" rr.result_data) h in
    (refl, rw (class_of, evaluate_run_result, same, status) refl)

pub Exit-cases :
    (x : Exit) → ((e : String) × (x ≡ escaped e)) ⊎ ((rr : RunResult) × (x ≡ finished rr))
Exit-cases (escaped e) = inl (e, refl)
Exit-cases (finished rr) = inr (rr, refl)

-- A step waits for an approval, or fails, or succeeds.
pub RunResult-cases :
    (rr : RunResult)
    → (is_pending rr ≡ true) ⊎ ((is_pending rr ≡ false) × ((rr.ok ≡ false) ⊎ (rr.ok ≡ true)))
RunResult-cases rr = ground arith

run_from-Reports :
    (r : Runner) (mission : MissionTemplate) (context : Fields) (start idx : ℕ) (kind : String)
    (steps : List MissionStep) (outputs outcomes : List Fields)
    → Reports
        (length mission.steps)
        kind
        (ending r mission context start idx steps)
        (run_from r mission context start idx steps outputs outcomes).exit
unfolding run_from ending step_end
run_from-Reports r mission context start idx kind [] outputs outcomes =
    completed_mission-Reports mission kind outputs outcomes
run_from-Reports r mission context start idx kind (ms ∷ rest) outputs outcomes =
    elim (Bool-cases (ltb idx start)) [
      | inl early ↦
          rw (run_from, ending, early)
            (run_from-Reports r mission context start (suc idx) kind rest outputs outcomes)
      | inr due ↦
          rw (run_from, ending, due)
            (elim (Exit-cases (attempt r mission context idx ms).exit) [
              | inl (e, left) ↦ rw (Reports, left) refl
              | inr (rr, done) ↦
                  rw (Reports, done)
                    (elim (RunResult-cases rr) [
                      | inl paused ↦
                          rw (Reports, paused)
                            (paused_result-Reports (length mission.steps) idx kind ms _ _ rr paused)
                      | inr (over, inl broken) ↦
                          rw (Reports, over, broken)
                            (failed_mission-Reports (length mission.steps) idx kind ms _ _ rr)
                      | inr (over, inr fine) ↦
                          rw (Reports, over, fine)
                            (run_from-Reports r mission context start (suc idx) kind rest _ _)
                    ])
            ])
    ]

denied_is_blocked : (e : Enforcement) → is_blocked (denied_result e) ≡ true
unfolding is_blocked denied_result extract_skill_result build_skill_result get find
denied_is_blocked e = refl

denied_report :
    (total : ℕ) (kind : String) (i : ℕ) (e : Enforcement) (x : Exit)
    → Reports total kind (failed_at i (denied_result e)) x
    → (rr : RunResult) × (x ≡ finished rr)
      × (evaluate_run_result rr kind
          ≡ some (record {
            evaluation_class = EvaluationClass.blocked_non_retryable;
            reason = "policy_or_runtime_boundary_block";
            replan_allowed = false;
          }))
unfolding evaluate_run_result truthy py_str
denied_report total kind i e (finished rr) (bad, completed, attempted, outcome, status) =
    (rr, refl, rw (bad, status, outcome, denied_is_blocked e) refl)
denied_report total kind i e (escaped x) h = elim h [ ]

-- The result of a mission is that of its first step, from the start on, that does not succeed. It
-- is ok exactly if there is none, and evaluates to a success whose last completed step is the last;
-- if that step waits for an approval, it evaluates to that; if it fails, the last completed step is
-- the one before, and the outcome is blocked or failed as the step is; an exception is passed on.
pub run_mission-Reports :
    (r : Runner) (mission : MissionTemplate) (start : ℕ) (context : Fields) (kind : String)
    → Reports
        (length mission.steps)
        kind
        (ending r mission context start 1 mission.steps)
        (run_mission r mission start context).exit
unfolding run_mission
run_mission-Reports r mission start context kind =
    run_from-Reports r mission context start 1 kind mission.steps [] []

-- A mission that fails at a step which the policy or the capability check denied is evaluated as
-- blocked, and no replan is allowed, whatever the kind of the request.
pub denied_mission :
    (r : Runner) (mission : MissionTemplate) (start : ℕ) (context : Fields) (kind : String) (i : ℕ)
    (e : Enforcement)
    → ending r mission context start 1 mission.steps ≡ failed_at i (denied_result e)
    → (rr : RunResult) × ((run_mission r mission start context).exit ≡ finished rr)
      × (evaluate_run_result rr kind
          ≡ some (record {
            evaluation_class = EvaluationClass.blocked_non_retryable;
            reason = "policy_or_runtime_boundary_block";
            replan_allowed = false;
          }))
denied_mission r mission start context kind i e h =
    denied_report (length mission.steps) kind i e (run_mission r mission start context).exit (
      subst (λ x. Reports (length mission.steps) kind x (run_mission r mission start context).exit)
        h (run_mission-Reports r mission start context kind))
