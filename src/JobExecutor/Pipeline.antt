-- ===== src/JobExecutor/Pipeline.antt =====
-- src/workers/JobExecutor.ts: `executeDataPipeline`, its results and the time it sleeps.
use backend_task_orchestrati.Prelude.{◌+◌, ◌*◌, ◌≡◌, refl, ◌∙◌, false, some, arith}
use backend_task_orchestrati.Models.Json.{num, arr, Items, nil, cons, Fields, end, field}
use backend_task_orchestrati.JobExecutor.Values.{get, items_length}
use backend_task_orchestrati.JobExecutor.Runs.{Run, World, resolved, settled, slept}
use backend_task_orchestrati.JobExecutor.Local.{
  succeeded, step_result, step_fields, is_null, run_steps, execute_data_pipeline,
}

abbrev pub NoNull : Items → Type 0
NoNull nil = Unit
NoNull (cons step steps) = (is_null step ≡ false) × NoNull steps

abbrev pub results_of : Items → Items
results_of nil = nil
results_of (cons step steps) = cons (step_result (step_fields step)) (results_of steps)

module _ (world : World) where
  run_steps-settled :
      (steps : Items) (next : Items → Run)
      → NoNull steps
      → settled world (run_steps steps next) ≡ settled world (next (results_of steps))
  unfolding run_steps settled
  run_steps-settled nil next h = refl
  run_steps-settled (cons step steps) next h =
      rw h.0 (run_steps-settled steps (λ r. next (cons (step_result (step_fields step)) r)) h.1)

  run_steps-slept :
      (steps : Items) (next : Items → Run)
      → NoNull steps
      → slept world (run_steps steps next)
        ≡ 100 * items_length steps + slept world (next (results_of steps))
  unfolding run_steps slept items_length
  run_steps-slept nil next h = omega arith
  run_steps-slept (cons step steps) next h = rw h.0 (
      omega
        (arith, run_steps-slept steps (λ r. next (cons (step_result (step_fields step)) r)) h.1))

-- A pipeline whose steps are an array with no null in it succeeds with one result for each step, in
-- their order, and sleeps for a tenth of a second for each.
pub execute_data_pipeline_correct :
    (world : World) (payload : Fields) (steps : Items)
    → get "steps" payload ≡ some (arr steps)
    → NoNull steps
    → (settled world (execute_data_pipeline payload)
        ≡ resolved (
            succeeded (
              field "steps"
                (arr (results_of steps))
                (field "totalSteps" (num (items_length steps)) end))))
      × (slept world (execute_data_pipeline payload) ≡ 100 * items_length steps)
unfolding execute_data_pipeline settled slept
execute_data_pipeline_correct world payload steps found clean = (
  rw (found, execute_data_pipeline) (run_steps-settled world steps _ clean),
  rw (found, execute_data_pipeline) (run_steps-slept world steps _ clean ∙ omega arith),
)
