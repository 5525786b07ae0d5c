-- ===== src/Queue/Execution/Loop/Laws.antt =====
-- How often a job is planned (src/voxera/core/queue_execution.py).
use voxera_os.Base.{
  ℕ, zero, suc, ◌+◌, ◌≤◌, ◌<◌, String, Bool, true, false, Option, none, some, ◌≡◌, ◌≢◌, refl, arith,
  ◌⊎◌, inl, inr, if◌then◌else◌,
}
use voxera_os.Automation.{Raising, value, raises}
use voxera_os.Models.{RunResult}
use voxera_os.Mission.{MissionTemplate}
use voxera_os.Evaluator.{EvaluationResult, evaluate_run_result}
use voxera_os.Queue.Lifecycle.{Env, Queue}
use voxera_os.Queue.Steps.{M, ◌>>=◌, ret}
use voxera_os.Queue.Execution.Host.{PlanError, Intent, Host, Job, Progress, Next, again, finished}
use voxera_os.Queue.Execution.Attempt.{
  attempt, ending, replan, planning_failed, after_run, run_ended, run_plan, reject_plan,
  may_replan_run, may_replan_planning, planning_error_metadata, PlanningClass, evaluated, checked,
  planned, mismatch, planning_next, plan_rejected, rejection, start_run, run_given, replanned,
}
use voxera_os.Queue.Execution.Loop.{attempts, go_on}

-- An attempt that asks for another has replanned once more, and was allowed to.
abbrev Counts : Host → Progress → Raising Next → Type 0
Counts host p (raises e) = Unit
Counts host p (value (finished b)) = Unit
Counts host p (value (again p')) = (p'.replans ≡ suc p.replans) × (p.replans < host.max_replans)

run_allowed :
    (host : Host) (p : Progress) (e : EvaluationResult)
    → may_replan_run host p e ≡ true
    → p.replans < host.max_replans
unfolding may_replan_run
run_allowed host p e h = ground arith

planning_allowed :
    (host : Host) (job : Job) (p : Progress) (c : PlanningClass)
    → may_replan_planning host job p c ≡ true
    → p.replans < host.max_replans
unfolding may_replan_planning
planning_allowed host job p c h = ground arith

module _ (host : Host) (p : Progress) where
  after-Counts :
      {A : Type 0} (r : Raising A) (f : A → M Next) (q : Queue)
      → ((a : A) (q' : Queue) → Counts host p (f a q').0)
      → Counts host p
          (elim r as (λ x. Raising Next × Queue) [ value a ↦ f a q | raises e ↦ (raises e, q) ]).0
  after-Counts (value a) f q h = h a q
  after-Counts (raises e) f q h = tt

  >>=-Counts :
      {A : Type 0} (m : M A) (f : A → M Next) (q : Queue)
      → ((a : A) (q' : Queue) → Counts host p (f a q').0)
      → Counts host p ((m >>= f) q).0
  >>=-Counts m f q h = after-Counts (m q).0 f (m q).1 h

  >>-Counts :
      (r : Raising (Unit {0})) (k : M Next) (q : Queue)
      → ((q' : Queue) → Counts host p (k q').0)
      → Counts host p
          (elim r as (λ x. Raising Next × Queue) [ value a ↦ k q | raises e ↦ (raises e, q) ]).0
  >>-Counts r k q h = after-Counts r (λ _. k) q (λ _ q'. h q')

  ending-Counts : (m : M Bool) (q : Queue) → Counts host p (ending m q).0
  unfolding ending
  ending-Counts m q = >>=-Counts m (λ b. ret (finished b)) q (λ b q'. tt)

  replan-Counts :
      (job : Job) (previous : Option MissionTemplate) (q : Queue)
      → p.replans < host.max_replans
      → Counts host p (replan job p previous q).0
  unfolding replan
  replan-Counts job previous q allowed =
      >>-Counts _ (ret (again (replanned p previous))) _ (λ q'. (refl, allowed))

  either-Counts :
      (b : Bool) (m n : M Next) (q : Queue)
      → (b ≡ true → Counts host p (m q).0)
      → Counts host p (n q).0
      → Counts host p ((if b then m else n) q).0
  either-Counts true m n q h k = h refl
  either-Counts false m n q h k = k

  planning_next-Counts :
      (env : Env) (job : Job) (e : PlanError) (q : Queue)
      → Counts host p (planning_next env host job p e q).0
  unfolding planning_next
  planning_next-Counts env job e q =
      either-Counts (may_replan_planning host job p (planning_error_metadata e.message)) _ _ q
        (λ h.
          replan-Counts job p.previous q
            (planning_allowed host job p (planning_error_metadata e.message) h))
        (ending-Counts _ q)

  planning_failed-Counts :
      (env : Env) (job : Job) (e : PlanError) (q : Queue)
      → Counts host p (planning_failed env host job p e q).0
  unfolding planning_failed
  planning_failed-Counts env job e q =
      >>-Counts _ (planning_next env host job p e) _ (planning_next-Counts env job e)

  after_run-Counts :
      (env : Env) (job : Job) (mission : MissionTemplate) (rr : RunResult) (e : EvaluationResult)
      (q : Queue)
      → Counts host p (after_run env host job p mission rr e q).0
  unfolding after_run
  after_run-Counts env job mission rr e q =
      either-Counts (may_replan_run host p e) _ _ q
        (λ h. replan-Counts job (some mission) q (run_allowed host p e h)) (ending-Counts _ q)

  evaluated-Counts :
      (env : Env) (job : Job) (mission : MissionTemplate) (rr : RunResult)
      (o : Option EvaluationResult) (q : Queue)
      → Counts host p (evaluated env host job p mission rr o q).0
  evaluated-Counts env job mission rr none q = tt
  evaluated-Counts env job mission rr (some e) q = after_run-Counts env job mission rr e q

  run_ended-Counts :
      (env : Env) (job : Job) (mission : MissionTemplate) (r : Raising RunResult) (q : Queue)
      → Counts host p (run_ended env host job p mission r q).0
  unfolding run_ended
  run_ended-Counts env job mission (raises e) q = tt
  run_ended-Counts env job mission (value rr) q =
      either-Counts (host.shutdown_after p.attempts) _ _ q (λ _. ending-Counts _ q)
        (evaluated-Counts env job mission rr (evaluate_run_result rr job.kind) q)

  run_plan-Counts :
      (env : Env) (job : Job) (mission : MissionTemplate) (q : Queue)
      → Counts host p (run_plan env host job p mission q).0
  unfolding run_plan
  run_plan-Counts env job mission q = >>-Counts _ (start_run env host job p mission) _ λ q1.
      >>-Counts _ (run_given env host job p mission) _ λ q2.
        >>-Counts _ (run_ended env host job p mission (host.run p.attempts mission)) _
          (run_ended-Counts env job mission (host.run p.attempts mission))

  reject_plan-Counts :
      (env : Env) (job : Job) (mission : MissionTemplate) (i : Intent) (skill : String) (q : Queue)
      → Counts host p (reject_plan env host job p mission i skill q).0
  unfolding reject_plan
  reject_plan-Counts env job mission i skill q =
      >>-Counts _ (plan_rejected env host job p mission i skill) _ λ q1.
        >>-Counts _ (ending (rejection env host job p mission i skill)) _
          (ending-Counts (rejection env host job p mission i skill))

  checked-Counts :
      (env : Env) (job : Job) (mission : MissionTemplate) (o : Option (Intent × String)) (q : Queue)
      → Counts host p (checked env host job p mission o q).0
  checked-Counts env job mission none q = run_plan-Counts env job mission q
  checked-Counts env job mission (some (i, skill)) q = reject_plan-Counts env job mission i skill q

  planned-Counts :
      (env : Env) (job : Job) (o : MissionTemplate ⊎ PlanError) (q : Queue)
      → Counts host p (planned env host job p o q).0
  planned-Counts env job (inr e) q = planning_failed-Counts env job e q
  planned-Counts env job (inl mission) q =
      checked-Counts env job mission (mismatch job.intent mission) q

attempt-Counts :
    (env : Env) (host : Host) (job : Job) (p : Progress) (q : Queue)
    → Counts host p (attempt env host job p q).0
unfolding attempt
attempt-Counts env host job p q =
    let p' = record p { attempts = suc p.attempts } in
    planned-Counts host p' env job (host.build_mission p'.attempts job.payload) q

-- The fuel did not run out.
abbrev Ends : Raising (Option Bool) → Type 0
Ends r = r ≢ value none

Ends-after :
    (host : Host) (p : Progress) (loop : Progress → M (Option Bool)) (r : Raising Next) (q : Queue)
    → Counts host p r
    → ((p' : Progress) (q' : Queue)
        → p'.replans ≡ suc p.replans
        → p.replans < host.max_replans
        → Ends (loop p' q').0)
    → Ends
        (elim r as (λ x. Raising (Option Bool) × Queue) [
          | value next ↦ go_on loop next q
          | raises e ↦ (raises e, q)
        ]).0
Ends-after host p loop (raises e) q c again_ends = λ same. cc
Ends-after host p loop (value (finished b)) q c again_ends = λ same. cc
Ends-after host p loop (value (again p')) q c again_ends = again_ends p' q c.0 c.1

-- Fuel that is more than the replans that are left does not run out.
pub attempts-Ends :
    (fuel : ℕ) (env : Env) (host : Host) (job : Job) (p : Progress) (q : Queue)
    → p.replans ≤ host.max_replans
    → host.max_replans < fuel + p.replans
    → Ends (attempts fuel env host job p q).0
unfolding attempts
attempts-Ends zero env host job p q few h = absurd (omega arith)
attempts-Ends (suc fuel) env host job p q few h =
    Ends-after host p (attempts fuel env host job) (attempt env host job p q).0
      (attempt env host job p q).1 (attempt-Counts env host job p q)
      (λ p' q' more left. attempts-Ends fuel env host job p' q' (omega arith) (omega arith))
