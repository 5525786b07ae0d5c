-- ===== src/Queue/Execution/Loop/Fits.antt =====
-- What the loop gives to the runner fits the request (src/voxera/core/queue_execution.py).
use voxera_os.Base.{
  ℕ, zero, suc, String, Bool, true, false, Option, none, some, List, [], ◌∷◌, ◌≡◌, ◌≢◌, ◌==◌, ◌∙◌,
  refl, sym, ap, arith, contains, subst, All, ◌⊎◌, inl, inr,
}
use voxera_os.Automation.{Raising, value, raises}
use voxera_os.Mission.{MissionStep, MissionTemplate}
use voxera_os.Queue.Lifecycle.{Env, Queue, Artifact}
use voxera_os.Queue.Steps.{M, ◌>>=◌, ◌>>◌, note}
use voxera_os.Queue.Execution.Host.{PlanError, Intent, Host, Job, Progress, Next, again, finished}
use voxera_os.Queue.Execution.Runs.{Quiet, note-Quiet, set_state-Quiet}
use voxera_os.Queue.Execution.Attempt.{
  attempt, planning_failed, run_ended, run_plan, start_run, run_given, give_to_runner, reject_plan,
  checked, planned, mismatch, mismatching, first_skill, no_skills, check_skill_family_mismatch,
}
use voxera_os.Queue.Execution.Loop.{attempts, go_on}
use voxera_os.Queue.Execution.Loop.Runs.{planning_failed-Quiet, run_ended-Quiet, reject_plan-Quiet}

-- The first of the steps, where there are any, is of an allowed skill.
abbrev pub StartsIn : List String → List MissionStep → Type 0
StartsIn allowed [] = Unit {0}
StartsIn allowed (s ∷ ss) = contains s.skill_id allowed ≡ true

-- Every mission that was given to the runner has no steps or begins with an allowed skill.
abbrev pub AllFit : List String → List MissionTemplate → Type 0
AllFit allowed = All (λ m. StartsIn allowed m.steps)

module _ (allowed : List String) where
  record Keeps {A : Type 0} (m : M A) : Type 0 where
    fit : (q : Queue) → AllFit allowed q.runs → AllFit allowed (m q).1.runs

  Quiet-Keeps : {A : Type 0} (m : M A) → Quiet m → Keeps m
  Quiet-Keeps m h = record { fit = λ q. subst (AllFit allowed) (sym (h.same q)) }

  after_fit :
      {A B : Type 0} (r : Raising A) (f : A → M B) (q : Queue)
      → AllFit allowed q.runs
      → ((a : A) → Keeps (f a))
      → AllFit allowed
          (elim r as (λ x. Raising B × Queue) [ value a ↦ f a q | raises e ↦ (raises e, q) ]).1.runs
  after_fit (value a) f q h k = (k a).fit q h
  after_fit (raises e) f q h k = h

  >>=-Keeps :
      {A B : Type 0} (m : M A) (f : A → M B) → Keeps m → ((a : A) → Keeps (f a)) → Keeps (m >>= f)
  >>=-Keeps m f h k = record { fit = λ q all. after_fit (m q).0 f (m q).1 (h.fit q all) k }

  >>-Keeps : {B : Type 0} (m : M (Unit {0})) (k : M B) → Keeps m → Keeps k → Keeps (m >> k)
  >>-Keeps m k h l = >>=-Keeps m (λ _. k) h (λ _. l)

  give_to_runner-Keeps :
      (mission : MissionTemplate) → StartsIn allowed mission.steps → Keeps (give_to_runner mission)
  unfolding give_to_runner
  give_to_runner-Keeps mission fits = record { fit = λ q all. (fits, all) }

module _ (allowed : List String) (env : Env) (host : Host) (job : Job)
    (holds : (m : MissionTemplate) → mismatch job.intent m ≡ none → StartsIn allowed m.steps)
    (p : Progress) where
  run_plan-Keeps :
      (mission : MissionTemplate)
      → StartsIn allowed mission.steps
      → Keeps allowed (run_plan env host job p mission)
  unfolding run_plan
  run_plan-Keeps mission fits =
      >>-Keeps allowed (note job.path (Artifact.plan p.attempts p.replans mission))
        (start_run env host job p mission) (Quiet-Keeps allowed _ (note-Quiet _ _))
        (>>-Keeps allowed _ (run_given env host job p mission)
          (Quiet-Keeps allowed _ (set_state-Quiet env job.path _))
          (>>-Keeps allowed (give_to_runner mission)
            (run_ended env host job p mission (host.run p.attempts mission))
            (give_to_runner-Keeps allowed mission fits)
            (Quiet-Keeps allowed _
              (run_ended-Quiet env host job p mission (host.run p.attempts mission)))))

  checked-Keeps :
      (mission : MissionTemplate) (o : Option (Intent × String))
      → mismatch job.intent mission ≡ o
      → Keeps allowed (checked env host job p mission o)
  checked-Keeps mission none fits = run_plan-Keeps mission (holds mission fits)
  checked-Keeps mission (some (i, skill)) fits =
      Quiet-Keeps allowed (reject_plan env host job p mission i skill)
        (reject_plan-Quiet env host job p mission i skill)

  planned-Keeps : (o : MissionTemplate ⊎ PlanError) → Keeps allowed (planned env host job p o)
  planned-Keeps (inr e) =
      Quiet-Keeps allowed (planning_failed env host job p e)
        (planning_failed-Quiet env host job p e)
  planned-Keeps (inl mission) = checked-Keeps mission (mismatch job.intent mission) refl

module _ (allowed : List String) (env : Env) (host : Host) (job : Job)
    (holds : (m : MissionTemplate) → mismatch job.intent m ≡ none → StartsIn allowed m.steps) where
  attempt-Keeps : (p : Progress) → Keeps allowed (attempt env host job p)
  unfolding attempt
  attempt-Keeps p =
      let p' = record p { attempts = suc p.attempts } in
      planned-Keeps allowed env host job holds p' (host.build_mission p'.attempts job.payload)

  go_on-Keeps :
      (loop : Progress → M (Option Bool)) (next : Next)
      → ((p : Progress) → Keeps allowed (loop p))
      → Keeps allowed (go_on loop next)
  go_on-Keeps loop (again p) k = k p
  go_on-Keeps loop (finished b) k = record { fit = λ q all. all }

  attempts-Keeps : (fuel : ℕ) (p : Progress) → Keeps allowed (attempts fuel env host job p)
  unfolding attempts
  attempts-Keeps zero p = record { fit = λ q all. all }
  attempts-Keeps (suc fuel) p =
      >>=-Keeps allowed (attempt env host job p) (go_on (attempts fuel env host job))
        (attempt-Keeps p)
        (λ next. go_on-Keeps (attempts fuel env host job) next (attempts-Keeps fuel))

not_empty : (l : List String) → l ≢ [] → no_skills l ≡ false
not_empty [] h = absurd (h refl)
not_empty (s ∷ ss) h = refl

-- A plan that was not rejected begins with a skill of the request's family.
fits_steps :
    (i : Intent) (steps : List MissionStep)
    → i.deterministic ≡ true
    → i.fail_closed ≡ true
    → (i.kind == "unknown_or_ambiguous") ≡ false
    → i.allowed_skill_ids ≢ []
    → mismatching i (first_skill steps) ≡ none
    → StartsIn i.allowed_skill_ids steps
unfolding check_skill_family_mismatch
fits_steps i [] sure closed known some_skills fits = tt
fits_steps i (s ∷ ss) sure closed known some_skills fits =
    ground (arith, not_empty i.allowed_skill_ids some_skills)

-- For a request whose intent is sure, fails closed, and is of a known kind with some skills allowed:
-- the loop gives the runner only missions that begin with an allowed skill or have no steps at all,
-- however often the planner is asked again, so that all that were given do if those before did.
pub attempts-AllFit :
    (fuel : ℕ) (env : Env) (host : Host) (job : Job) (p : Progress) (q : Queue) (i : Intent)
    → job.intent ≡ some i
    → i.deterministic ≡ true
    → i.fail_closed ≡ true
    → (i.kind == "unknown_or_ambiguous") ≡ false
    → i.allowed_skill_ids ≢ []
    → AllFit i.allowed_skill_ids q.runs
    → AllFit i.allowed_skill_ids (attempts fuel env host job p q).1.runs
unfolding mismatch
attempts-AllFit fuel env host job p q i asked sure closed known some_skills =
    let holds : (m : MissionTemplate)
        → mismatch job.intent m ≡ none
        → StartsIn i.allowed_skill_ids m.steps =
      λ m fits.
        fits_steps i m.steps sure closed known some_skills
          (ap (λ o. mismatch o m) (sym asked) ∙ fits) in
    (attempts-Keeps i.allowed_skill_ids env host job holds fuel p).fit q
