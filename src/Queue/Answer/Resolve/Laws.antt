-- ===== src/Queue/Answer/Resolve/Laws.antt =====
-- What an answer to an approval does (src/voxera/core/queue_approvals.py).
use voxera_os.Base.{
  ℕ, suc, String, Bool, true, Option, none, some, List, [], ◌∷◌, ◌≡◌, ◌≢◌, refl, ◌∙◌, ap, subst,
  map, if◌then◌else◌,
}
use voxera_os.Py.{Value, object, of_list, Fields, truthy}
use voxera_os.Py.Dict.{get, find}
use voxera_os.Automation.{Raising, value, raises}
use voxera_os.Models.{RunResult}
use voxera_os.Mission.{MissionStep, MissionTemplate}
use voxera_os.Queue.State.{nat_value, int_of, or_value}
use voxera_os.Queue.Disk.{FilePath, read, stem}
use voxera_os.Queue.Disk.Laws.{read-write, same_path_self}
use voxera_os.Queue.Lifecycle.{Env, Queue, pending_meta, approval_file}
use voxera_os.Queue.Gate.{write_pending_artifacts, write_pending_at, resumption, step_value}
use voxera_os.Queue.Approvals.{StepKey}
use voxera_os.Queue.Steps.{write_file}
use voxera_os.Queue.Answer.{Waiting, waiting_for, resolve_pending_approval_paths}
use voxera_os.Queue.Answer.Stored.{
  ◌>>=◌, read_meta, loaded_meta, stored_steps, stored_mission, stored_items, resume_step,
}
use voxera_os.Queue.Answer.Desk.{DeskHost, Desk}
use voxera_os.Queue.Answer.Resume.{
  resumption_of, resumption_from, stored_resumption, resumed_key, add_step, announce, announced,
  resume, start_resumed, after_start,
}
use voxera_os.Queue.Answer.Resolve.{
  resolve_approval, answered_at, answered, approve, approved_as, granted,
}

-- The steps that were stored are read back.
stored_steps_lem :
    (steps : List MissionStep) → stored_steps (of_list (map step_value steps)) ≡ value steps
unfolding stored_steps find
stored_steps_lem [] = refl
stored_steps_lem (s ∷ ss) = ap (λ r. r >>= λ ts. value (s ∷ ts)) (stored_steps_lem ss)

module _ (job : FilePath) (payload : Fields) (mission : MissionTemplate) (n : ℕ) where
  stored_mission_lem :
      stored_mission
        (resumption job payload mission (suc n))
        (object payload)
        (of_list (map step_value mission.steps))
      ≡ value mission
  unfolding stored_mission resumption get find
  stored_mission_lem = rw (stored_steps_lem mission.steps) refl

  resumption_steps :
      (host : DeskHost) (steps : List MissionStep)
      → mission.steps ≡ steps
      → steps ≢ []
      → resumption_of host (resumption job payload mission (suc n)) ≡ value (mission, suc n)
  unfolding resumption_of resumption stored_items resume_step find get truthy
  resumption_steps host [] e some_steps = absurd (some_steps refl)
  resumption_steps host (s ∷ ss) e some_steps =
      let stored = resumption job payload mission (suc n) in
      ap (λ l. resumption_from host stored (object payload) (of_list (map step_value l))) e
      ∙ ap (λ r. stored_resumption r (value (suc n)))
          (subst
            (λ l.
              stored_mission stored (object payload) (of_list (map step_value l)) ≡ value mission)
            e stored_mission_lem)

module _ (env : Env) (host : DeskHost) (w : Waiting) (payload : Option Fields)
    (mission : MissionTemplate) (step : ℕ) where
  after_start_starts :
      (r : Raising RunResult × List StepKey) (s : Desk)
      → (after_start env host w payload mission r s).1.starts ≡ s.starts
  after_start_starts (raises e, ks) s = refl
  after_start_starts (value rr, ks) s = refl

  announced_starts :
      (r : Raising (Unit {0}) × Queue) (s : Desk)
      → r.0 ≡ value tt
      → (announced env host w payload mission step s r).1.starts
        ≡ record { mission = mission; step = step; approved = s.approved_steps } ∷ s.starts
  unfolding start_resumed
  announced_starts (raises e, q) s h = cc
  announced_starts (value u, q) s h =
      after_start_starts (host.run s.approved_steps s.grants step mission) _

  resume_starts :
      (s : Desk)
      → (announce env w.job payload mission step s.queue).0 ≡ value tt
      → (resume env host w payload mission step s).1.starts
        ≡ record {
          mission = mission;
          step = step;
          approved = add_step (resumed_key host w.job mission step) s.approved_steps;
        }
          ∷ s.starts
  unfolding resume
  resume_starts s told =
      announced_starts (announce env w.job payload mission step s.queue)
        (record s {
          approved_steps = add_step (resumed_key host w.job mission step) s.approved_steps;
        })
        told

-- The files of a job that waits at a step.
unfoldable pub waiting_desk : Env → FilePath → Fields → MissionTemplate → Fields → Desk → Desk
waiting_desk env job payload mission d s = record s {
  queue = (write_pending_artifacts env job payload mission d s.queue).1;
}

module _ (env : Env) (host : DeskHost) (ref : String) (always : Bool) (job : FilePath)
    (payload : Fields) (mission : MissionTemplate) (d : Fields) (n : ℕ) (s : Desk)
    (at_step : find "step" d ≡ some (nat_value (suc n))) where
  waiting_meta :
      read (pending_meta job.name) (waiting_desk env job payload mission d s).queue.files
      ≡ some (some (object (resumption job payload mission (suc n))))
  unfolding waiting_desk write_pending_artifacts write_file truthy int_of
  waiting_meta =
      ap
        (λ o.
          read (pending_meta job.name)
            (write_pending_at env job payload mission d
              (int_of (
                or_value (elim o as (λ x. Value) [ none ↦ nat_value 0 | some v ↦ v ])
                  (nat_value 0)))
              s.queue).1.files)
        at_step
      ∙ read-write (pending_meta job.name) (pending_meta job.name) _ _
      ∙ rw (same_path_self (pending_meta job.name)) refl

  read_waiting :
      read_meta
        (waiting_for job (stem job.name))
        (waiting_desk env job payload mission d s).queue.files
      ≡ value (object (resumption job payload mission (suc n)))
  unfolding read_meta
  read_waiting =
      ap
        (loaded_meta (waiting_for job (stem job.name))
          (waiting_desk env job payload mission d s).queue.files)
        waiting_meta

  -- A job that was written down as waiting at a step is resumed, once it is approved and its state
  -- can be updated, with the mission that waited, from that step, and with that step's approval added
  -- to those that the prompt looks for; nothing else is started.
  pub resolve_approval-resumes :
      resolve_pending_approval_paths host.recent ref
          (waiting_desk env job payload mission d s).queue.files
        ≡ value (waiting_for job (stem job.name))
      → mission.steps ≢ []
      → (announce env job
          (some payload)
          mission
          (suc n)
          (waiting_desk env job payload mission d s).queue).0
        ≡ value tt
      → (resolve_approval env host ref true always
          (waiting_desk env job payload mission d s)).1.starts
        ≡ record {
          mission = mission;
          step = suc n;
          approved = add_step (resumed_key host job mission (suc n)) s.approved_steps;
        }
          ∷ s.starts
  unfolding resolve_approval approve resumption get find waiting_desk
  resolve_approval-resumes found some_steps told =
      let s' = waiting_desk env job payload mission d s in
      let stored = resumption job payload mission (suc n) in
      let granted_desk : Desk = record s' {
        grants =
            if always
            then granted (read (approval_file job.name) s'.queue.files) s'.grants
            else s'.grants;
      } in
      ap (λ w. (answered_at env host true always w s').1.starts) found
      ∙ ap (λ v. (answered env host true always (waiting_for job (stem job.name)) v s').1.starts)
          read_waiting
      ∙ ap
          (λ r.
            (approved_as env host (waiting_for job (stem job.name)) stored r granted_desk).1.starts)
          (resumption_steps job payload mission n host mission.steps refl some_steps)
      ∙ resume_starts env host (waiting_for job (stem job.name)) (some payload) mission (suc n)
          granted_desk told
