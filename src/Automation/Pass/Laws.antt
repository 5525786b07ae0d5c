-- ===== src/Automation/Pass/Laws.antt =====
-- What a pass reports (src/voxera/automation/runner.py).
use voxera_os.Base.{ℕ, suc, ◌+◌, false, List, [], ◌∷◌, ◌≡◌, refl, subst, ◌∙◌, arith, length}
use voxera_os.Automation.{Raising, value, raises, AutomationDefinition}
use voxera_os.Automation.History.{submitted, skipped, error}
use voxera_os.Automation.Runner.{Env, Disk, AutomationRunResult, process_automation_definition}
use voxera_os.Automation.Pass.{
  RunnerPassResult, pass_of, with_result, process_all, listed, run_due_automations, count_outcome,
  run_due_automations_locked,
}

count_outcome-length :
    (rs : List AutomationRunResult)
    → count_outcome submitted rs + count_outcome skipped rs + count_outcome error rs ≡ length rs
unfolding count_outcome
count_outcome-length [] = refl
count_outcome-length (r ∷ rs) = ground (arith, count_outcome-length rs)

length-with_result :
    (o : Raising AutomationRunResult) (disk : Disk) (rest : Raising (List AutomationRunResult))
    (disk' : Disk) (rs : List AutomationRunResult)
    → (with_result o disk (rest, disk')).0 ≡ value rs
    → (tail : List AutomationRunResult) × (rest ≡ value tail) × (length rs ≡ suc (length tail))
length-with_result (raises e) disk rest disk' rs h = cc
length-with_result (value r) disk (raises e) disk' rs h = cc
length-with_result (value r) disk (value tail) disk' rs h = (tail, refl, ground arith)

length-process_all :
    (env : Env) (ds : List AutomationDefinition) (now : ℕ) (disk : Disk)
    (rs : List AutomationRunResult)
    → (process_all env ds now disk).0 ≡ value rs
    → length rs ≡ length ds
unfolding process_all
length-process_all env [] now disk rs h = ground arith
length-process_all env (d ∷ ds) now disk rs h =
    let p = process_automation_definition env d now false disk in
    let rest = process_all env ds now p.disk in
    let (tail, found, longer) = length-with_result p.result p.disk rest.0 rest.1 rs h in
    omega (arith, longer, length-process_all env ds now p.disk tail found)

value_injective : {p q : RunnerPassResult} → value p ≡ value q → p ≡ q
value_injective h = cc

pass_results :
    (results : Raising (List AutomationRunResult)) (p : RunnerPassResult)
    (ds : List AutomationDefinition)
    → elim results [ raises e ↦ raises e | value rs ↦ value (pass_of rs) ] ≡ value p
    → ((rs : List AutomationRunResult) → results ≡ value rs → length rs ≡ length ds)
    → (length p.results ≡ length ds)
      × (count_outcome submitted p.results
            + count_outcome skipped p.results
            + count_outcome error p.results
          ≡ length ds)
pass_results (raises e) p ds h each = cc
pass_results (value rs) p ds h each =
    subst
      (λ (q : RunnerPassResult).
        (length q.results ≡ length ds)
        × (count_outcome submitted q.results
              + count_outcome skipped q.results
              + count_outcome error q.results
            ≡ length ds))
      (value_injective h) (each rs refl, count_outcome-length rs ∙ each rs refl)

-- A pass under the lock that no exception leaves has one result for each valid definition, and each
-- is counted once, as submitted, as skipped or as an error.
pub pass-counted :
    (env : Env) (now : ℕ) (disk : Disk) (p : RunnerPassResult)
    → (run_due_automations_locked env false now disk).0 ≡ value p
    → (length p.results ≡ length (listed disk.definitions))
      × (count_outcome submitted p.results
            + count_outcome skipped p.results
            + count_outcome error p.results
          ≡ length (listed disk.definitions))
unfolding run_due_automations_locked run_due_automations
pass-counted env now disk p h =
    pass_results (process_all env (listed disk.definitions) now disk).0 p (listed disk.definitions)
      h (λ rs e. length-process_all env (listed disk.definitions) now disk rs e)
