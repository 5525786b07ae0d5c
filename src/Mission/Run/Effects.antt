-- ===== src/Mission/Run/Effects.antt =====
-- What a mission does of the skill runner's effects
-- (src/voxera/core/missions.py).
use voxera_os.Base.{
  ℕ, suc, Bool, not, ◌&&◌, true, false, List, [], ◌∷◌, ◌++◌, map, ◌≡◌, refl, ap, ◌∙◌, ltb,
  Bool-cases, inl, inr,
}
use voxera_os.Py.{Fields}
use voxera_os.Skill.Report.{Effect}
use voxera_os.Skill.Run.{Exit, finished, escaped}
use voxera_os.Mission.{is_pending, MissionStep, MissionTemplate}
use voxera_os.Mission.Run.{
  Runner, MissionEffect, skill, event, log_line, attempt, step_end, run_from, run_mission,
}
use voxera_os.Mission.Run.Laws.{Exit-cases, RunResult-cases}

abbrev pub succeeds : Exit → Bool
succeeds (finished rr) = not (is_pending rr) && rr.ok
succeeds (escaped e) = false

-- What the skill runner does in the steps up to the first that does not succeed.
unfoldable pub due_effects :
    Runner → MissionTemplate → Fields → ℕ → ℕ → List MissionStep → List Effect
due_effects r mission context start idx [] = []
due_effects r mission context start idx (ms ∷ rest) = elim (ltb idx start) [
  | true ↦ due_effects r mission context start (suc idx) rest
  | false ↦
      let o = attempt r mission context idx ms in
      elim (succeeds o.exit) [
        | true ↦ o.effects ++ due_effects r mission context start (suc idx) rest
        | false ↦ o.effects
      ]
]

-- The effects that are the skill runner's.
unfoldable pub skill_effects : List MissionEffect → List Effect
skill_effects [] = []
skill_effects (skill e ∷ es) = e ∷ skill_effects es
skill_effects (event n d ∷ es) = skill_effects es
skill_effects (log_line s n p ∷ es) = skill_effects es

skill_effects-append :
    (es : List Effect) (fs : List MissionEffect)
    → skill_effects (map skill es ++ fs) ≡ es ++ skill_effects fs
unfolding skill_effects
skill_effects-append [] fs = refl
skill_effects-append (e ∷ es) fs = ap (λ r. e ∷ r) (skill_effects-append es fs)

append_nil : (es : List Effect) → es ++ [] ≡ es
append_nil [] = refl
append_nil (e ∷ es) = ap (λ r. e ∷ r) (append_nil es)

skill_effects-map : (es : List Effect) → skill_effects (map skill es) ≡ es
unfolding skill_effects
skill_effects-map [] = refl
skill_effects-map (e ∷ es) = ap (λ r. e ∷ r) (skill_effects-map es)

skill_effects-run_from :
    (r : Runner) (mission : MissionTemplate) (context : Fields) (start idx : ℕ)
    (steps : List MissionStep) (outputs outcomes : List Fields)
    → skill_effects (run_from r mission context start idx steps outputs outcomes).effects
      ≡ due_effects r mission context start idx steps
unfolding run_from due_effects skill_effects step_end
skill_effects-run_from r mission context start idx [] outputs outcomes = refl
skill_effects-run_from r mission context start idx (ms ∷ rest) outputs outcomes =
    elim (Bool-cases (ltb idx start)) [
      | inl early ↦
          rw (run_from, due_effects, early)
            (skill_effects-run_from r mission context start (suc idx) rest outputs outcomes)
      | inr due ↦
          rw (run_from, due_effects, due)
            (elim (Exit-cases (attempt r mission context idx ms).exit) [
              | inl (e, left) ↦
                  rw (skill_effects, left)
                    (skill_effects-map (attempt r mission context idx ms).effects)
              | inr (rr, done) ↦
                  rw (skill_effects, done)
                    (elim (RunResult-cases rr) [
                      | inl paused ↦
                          rw (skill_effects, paused)
                            (skill_effects-append (attempt r mission context idx ms).effects _
                              ∙ append_nil (attempt r mission context idx ms).effects)
                      | inr (over, inl broken) ↦
                          rw (skill_effects, over, broken)
                            (skill_effects-append (attempt r mission context idx ms).effects _
                              ∙ append_nil (attempt r mission context idx ms).effects)
                      | inr (over, inr fine) ↦
                          rw (skill_effects, over, fine)
                            (skill_effects-append (attempt r mission context idx ms).effects _
                              ∙ ap (λ fs. (attempt r mission context idx ms).effects ++ fs)
                                  (skill_effects-run_from r mission context start (suc idx) rest _
                                    _))
                    ])
            ])
    ]

-- A mission does, of the skill runner's effects, exactly those of its steps from the start up to the
-- first that does not succeed, in their order: no later step is attempted.
pub skill_effects-run_mission :
    (r : Runner) (mission : MissionTemplate) (start : ℕ) (context : Fields)
    → skill_effects (run_mission r mission start context).effects
      ≡ due_effects r mission context start 1 mission.steps
unfolding run_mission skill_effects
skill_effects-run_mission r mission start context =
    skill_effects-run_from r mission context start 1 mission.steps [] []
