-- ===== src/Queue/Execution/Loop/Runs.antt =====
-- How often the loop gives a mission to the runner (src/voxera/core/queue_execution.py).
use voxera_os.Base.{
  ℕ, zero, suc, ◌+◌, ◌≤◌, ◌∷◌, String, Bool, Option, none, some, ◌≢◌, refl, ap, arith, length, ◌⊎◌,
  inl, inr,
}
use voxera_os.Py.{Fields}
use voxera_os.Automation.{Raising, value, raises}
use voxera_os.Models.{RunResult}
use voxera_os.Mission.{MissionTemplate}
use voxera_os.Evaluator.{EvaluationResult, evaluate_run_result}
use voxera_os.Queue.Lifecycle.{Env, Queue, Artifact}
use voxera_os.Queue.Steps.{M, ◌>>◌, ret, note}
use voxera_os.Queue.Execution.Host.{PlanError, Intent, Host, Job, Progress, Next, again, finished}
use voxera_os.Queue.Execution.Runs.{
  Quiet, >>=-Quiet, >>-Quiet, either-Quiet, ret-Quiet, note-Quiet, set_state-Quiet, fail_job-Quiet,
  finalize_job_shutdown_failure-Quiet, wait_job-Quiet, complete_job-Quiet,
}
use voxera_os.Queue.Execution.Attempt.{
  attempt, ending, replan, planning_failed, planning_next, planning_error_metadata, after_run,
  end_run, evaluated, run_ended, run_plan, start_run, run_given, give_to_runner, reject_plan,
  plan_rejected, rejection, checked, planned, mismatch, may_replan_run, may_replan_planning,
  replanned,
}
use voxera_os.Queue.Execution.Loop.{attempts, go_on, at_first}
use voxera_os.Queue.Execution.Loop.Laws.{attempts-Ends}

ending-Quiet : (m : M Bool) → Quiet m → Quiet (ending m)
unfolding ending
ending-Quiet m h = >>=-Quiet m (λ b. ret (finished b)) h (λ b. ret-Quiet (finished b))

replan-Quiet :
    (job : Job) (p : Progress) (previous : Option MissionTemplate) → Quiet (replan job p previous)
unfolding replan
replan-Quiet job p previous =
    >>-Quiet (note job.path (Artifact.action "queue_job_replanned"))
      (ret (again (replanned p previous))) (note-Quiet _ _) (ret-Quiet _)

pub planning_failed-Quiet :
    (env : Env) (host : Host) (job : Job) (p : Progress) (e : PlanError)
    → Quiet (planning_failed env host job p e)
unfolding planning_failed planning_next
planning_failed-Quiet env host job p e =
    let c = planning_error_metadata e.message in
    >>-Quiet
      (note job.path
        (Artifact.planning_failure p.attempts p.replans c.evaluation_class c.reason e.shown))
      (planning_next env host job p e) (note-Quiet _ _)
      (either-Quiet (may_replan_planning host job p c) _ _ (replan-Quiet job p p.previous)
        (ending-Quiet _ (fail_job-Quiet env host job.path _)))

end_run-Quiet :
    (env : Env) (host : Host) (job : Job) (mission : MissionTemplate) (rr : RunResult) (d : Fields)
    → Quiet (end_run env host job mission rr d)
unfolding end_run
end_run-Quiet env host job mission rr d = either-Quiet _ _ _ (wait_job-Quiet env job mission rr _) (
    either-Quiet _ _ _ (fail_job-Quiet env host job.path _)
      (complete_job-Quiet env host job mission _))

after_run-Quiet :
    (env : Env) (host : Host) (job : Job) (p : Progress) (mission : MissionTemplate)
    (rr : RunResult) (e : EvaluationResult)
    → Quiet (after_run env host job p mission rr e)
unfolding after_run
after_run-Quiet env host job p mission rr e =
    either-Quiet (may_replan_run host p e) (replan job p (some mission)) _
      (replan-Quiet job p (some mission)) (ending-Quiet _ (end_run-Quiet env host job mission rr _))

evaluated-Quiet :
    (env : Env) (host : Host) (job : Job) (p : Progress) (mission : MissionTemplate)
    (rr : RunResult) (o : Option EvaluationResult)
    → Quiet (evaluated env host job p mission rr o)
evaluated-Quiet env host job p mission rr none = record { same = λ q. refl }
evaluated-Quiet env host job p mission rr (some e) = after_run-Quiet env host job p mission rr e

pub run_ended-Quiet :
    (env : Env) (host : Host) (job : Job) (p : Progress) (mission : MissionTemplate)
    (r : Raising RunResult)
    → Quiet (run_ended env host job p mission r)
unfolding run_ended
run_ended-Quiet env host job p mission (raises e) = record { same = λ q. refl }
run_ended-Quiet env host job p mission (value rr) =
    either-Quiet (host.shutdown_after p.attempts) _ _
      (ending-Quiet _ (finalize_job_shutdown_failure-Quiet env host job))
      (evaluated-Quiet env host job p mission rr (evaluate_run_result rr job.kind))

-- The runner is given one mission at most.
record AddsOne {A : Type 0} (m : M A) : Type 0 where
  few : (q : Queue) → length (m q).1.runs ≤ suc (length q.runs)

Quiet-AddsOne : {A : Type 0} (m : M A) → Quiet m → AddsOne m
Quiet-AddsOne m h = record { few = λ q. omega (arith, ap length (h.same q)) }

after_few :
    {A B : Type 0} (r : Raising A) (f : A → M B) (q : Queue) (n : ℕ)
    → length q.runs ≤ n
    → ((a : A) → length (f a q).1.runs ≤ n)
    → length
        (elim r as (λ x. Raising B × Queue) [ value a ↦ f a q | raises e ↦ (raises e, q) ]).1.runs
      ≤ n
after_few (value a) f q n h k = k a
after_few (raises e) f q n h k = h

>>-AddsOne : {B : Type 0} (m : M (Unit {0})) (k : M B) → Quiet m → AddsOne k → AddsOne (m >> k)
>>-AddsOne m k h l = record {
  few = λ q.
      after_few (m q).0 (λ _. k) (m q).1 (suc (length q.runs)) (omega (arith, ap length (h.same q)))
        (λ _. omega (arith, l.few (m q).1, ap length (h.same q)));
}

run_given-AddsOne :
    (env : Env) (host : Host) (job : Job) (p : Progress) (mission : MissionTemplate)
    → AddsOne (run_given env host job p mission)
unfolding give_to_runner
run_given-AddsOne env host job p mission = record {
  few = λ q. omega (
    arith,
    ap length (
        (run_ended-Quiet env host job p mission (host.run p.attempts mission)).same
          (record q { runs = mission ∷ q.runs })),
  );
}

run_plan-AddsOne :
    (env : Env) (host : Host) (job : Job) (p : Progress) (mission : MissionTemplate)
    → AddsOne (run_plan env host job p mission)
unfolding run_plan
run_plan-AddsOne env host job p mission =
    >>-AddsOne (note job.path (Artifact.plan p.attempts p.replans mission))
      (start_run env host job p mission) (note-Quiet _ _)
      (>>-AddsOne _ (run_given env host job p mission) (set_state-Quiet env job.path _)
        (run_given-AddsOne env host job p mission))

pub reject_plan-Quiet :
    (env : Env) (host : Host) (job : Job) (p : Progress) (mission : MissionTemplate) (i : Intent)
    (skill : String)
    → Quiet (reject_plan env host job p mission i skill)
unfolding reject_plan
reject_plan-Quiet env host job p mission i skill =
    >>-Quiet (note job.path (Artifact.intent_mismatch p.attempts p.replans skill))
      (plan_rejected env host job p mission i skill) (note-Quiet _ _)
      (>>-Quiet (note job.path (Artifact.action "queue_simple_intent_mismatch"))
        (ending (rejection env host job p mission i skill)) (note-Quiet _ _)
        (ending-Quiet _ (fail_job-Quiet env host job.path _)))

checked-AddsOne :
    (env : Env) (host : Host) (job : Job) (p : Progress) (mission : MissionTemplate)
    (o : Option (Intent × String))
    → AddsOne (checked env host job p mission o)
checked-AddsOne env host job p mission none = run_plan-AddsOne env host job p mission
checked-AddsOne env host job p mission (some (i, skill)) =
    Quiet-AddsOne (reject_plan env host job p mission i skill)
      (reject_plan-Quiet env host job p mission i skill)

planned-AddsOne :
    (env : Env) (host : Host) (job : Job) (p : Progress) (o : MissionTemplate ⊎ PlanError)
    → AddsOne (planned env host job p o)
planned-AddsOne env host job p (inr e) =
    Quiet-AddsOne (planning_failed env host job p e) (planning_failed-Quiet env host job p e)
planned-AddsOne env host job p (inl mission) =
    checked-AddsOne env host job p mission (mismatch job.intent mission)

attempt-AddsOne :
    (env : Env) (host : Host) (job : Job) (p : Progress) → AddsOne (attempt env host job p)
unfolding attempt
attempt-AddsOne env host job p =
    let p' = record p { attempts = suc p.attempts } in
    planned-AddsOne env host job p' (host.build_mission p'.attempts job.payload)

go_on_few :
    (loop : Progress → M (Option Bool)) (next : Next) (q : Queue) (n : ℕ)
    → length q.runs ≤ n
    → ((p : Progress) → length (loop p q).1.runs ≤ n)
    → length (go_on loop next q).1.runs ≤ n
go_on_few loop (again p) q n h k = k p
go_on_few loop (finished b) q n h k = h

attempts_few :
    (fuel : ℕ) (env : Env) (host : Host) (job : Job) (p : Progress) (q : Queue)
    → length (attempts fuel env host job p q).1.runs ≤ length q.runs + fuel
unfolding attempts
attempts_few zero env host job p q = omega arith
attempts_few (suc fuel) env host job p q =
    let q' = (attempt env host job p q).1 in
    let step = (attempt-AddsOne env host job p).few q in
    after_few (attempt env host job p q).0 (go_on (attempts fuel env host job)) q'
      (length q.runs + suc fuel) (omega arith)
      (λ next.
        go_on_few (attempts fuel env host job) next q' (length q.runs + suc fuel) (omega arith)
          (λ p'. omega (arith, attempts_few fuel env host job p' q')))

-- The loop over a job ends, with an answer or an exception, whatever the planner and the runner do:
-- its turns are one more than the replans allowed, and no more missions are given to the runner.
pub attempts_end :
    (env : Env) (host : Host) (job : Job) (q : Queue)
    → ((attempts (suc host.max_replans) env host job at_first q).0 ≢ value none)
      × (length (attempts (suc host.max_replans) env host job at_first q).1.runs
          ≤ length q.runs + suc host.max_replans)
attempts_end env host job q = (
  attempts-Ends (suc host.max_replans) env host job at_first q (omega arith) (omega arith),
  attempts_few (suc host.max_replans) env host job at_first q,
)
