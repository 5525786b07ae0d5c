-- ===== src/Queue/Answer/Resolve/Prompt.antt =====
-- An approved step and the prompt that asks about it (src/voxera/core/queue_approvals.py).
use voxera_os.Base.{
  suc, String, true, List, [], ◌∷◌, ◌++◌, ◌||◌, ◌≡◌, refl, sym, ◌∙◌, ap, arith, length, eq_refl,
}
use voxera_os.Py.{Value, Fields}
use voxera_os.Py.Dict.{get}
use voxera_os.Models.{SkillManifest}
use voxera_os.Policy.{PolicyDecision}
use voxera_os.Mission.{MissionStep, MissionTemplate}
use voxera_os.Queue.State.{nat_value}
use voxera_os.Queue.Disk.{FilePath}
use voxera_os.Queue.Approvals.{
  Grant, StepKey, Daemon, is_approved, has_approval_grant, auto_approved, grant_for, step_key,
  step_number, queue_approval_prompt,
}
use voxera_os.Queue.Approvals.Laws.{lets_run, prompt-lets_run}
use voxera_os.Queue.Answer.Desk.{DeskHost}
use voxera_os.Queue.Answer.Resume.{add_step, resumed_key, skill_at}

skill_at-append :
    (before rest : List MissionStep) (s : MissionStep)
    → skill_at (length before) (before ++ s ∷ rest) ≡ s.skill_id
unfolding skill_at
skill_at-append [] rest s = refl
skill_at-append (b ∷ before) rest s = skill_at-append before rest s

is_approved-add_step : (k : StepKey) (ks : List StepKey) → is_approved k (add_step k ks) ≡ true
unfolding is_approved
is_approved-add_step k ks = ground (arith, eq_refl k.job, eq_refl k.skill_id)

module _ (host : DeskHost) (job : FilePath) (mission : MissionTemplate)
    (before rest : List MissionStep) (s : MissionStep)
    (steps : mission.steps ≡ before ++ s ∷ rest) where
  resumed_skill : (resumed_key host job mission (suc (length before))).skill_id ≡ s.skill_id
  unfolding resumed_key
  resumed_skill =
      ap (λ n. skill_at n mission.steps) (omega arith)
      ∙ ap (skill_at (length before)) steps
      ∙ skill_at-append before rest s

  -- Once a job that waited at a step is resumed, the prompt that the mission runner then asks about
  -- this step of this job, for the step's own skill, lets it run, whatever the policy's reason, the
  -- daemon's settings and the grants.
  pub approved_step_runs :
      (daemon : Daemon) (m : SkillManifest) (d : PolicyDecision) (context args : Fields)
      (ks : List StepKey) (gs : List Grant)
      → daemon.current_job_ref ≡ host.path_text job
      → get "step" context ≡ nat_value (suc (length before))
      → m.id ≡ s.skill_id
      → lets_run
          (queue_approval_prompt daemon m d context args (record {
            approved_steps = add_step (resumed_key host job mission (suc (length before))) ks;
            grants = gs;
          })).0
        ≡ true
  unfolding step_key resumed_key
  approved_step_runs daemon m d context args ks gs here at_step skill =
      let key = resumed_key host job mission (suc (length before)) in
      let named : String → Value → String → StepKey =
        λ j v i. record { job = j; step = step_number v; skill_id = i } in
      let same : step_key daemon m context ≡ key =
        ap (λ j. named j (get "step" context) m.id) here
        ∙ ap (λ v. named (host.path_text job) v m.id) at_step
        ∙ ap (named (host.path_text job) (nat_value (suc (length before))))
            (skill ∙ sym resumed_skill) in
      prompt-lets_run daemon m d context args _
      ∙ ap (λ b. b || has_approval_grant (grant_for m d) gs || auto_approved daemon d)
          (ap (λ k. is_approved k (add_step key ks)) same ∙ is_approved-add_step key ks)
