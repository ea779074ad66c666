-- ===== src/JobService/Create.antt =====
-- src/services/JobService.ts: `createJob`
use backend_task_orchestrati.Prelude.{
  ℕ, ◌≡◌, ◌≢◌, Bool, true, ◌&&◌, String, some, [], All, or_else, ◌⊎◌, length,
}
use backend_task_orchestrati.Prelude.Eq.{◌==◌, nat_eq, string_eq, elem}
use backend_task_orchestrati.Models.Job.{Job, CreateJobDto, status_eq}
use backend_task_orchestrati.JobRepository.{Jobs, ids, find_by_id, new_job, is_due, is_runnable}
use backend_task_orchestrati.DependencyResolver.{Graph, register}
use backend_task_orchestrati.JobService.{Result, ok, err, failure}

-- A job stored anew: the table has it beside the rows that it had, the graph has it registered.
pub record Created (now : ℕ) (id : String) (dto : CreateJobDto) (before : Jobs) (graph : Graph)
    (after : Jobs) (graph' : Graph) : Type 0 where
  pub stored : find_by_id id after ≡ some (new_job now id dto)
  pub others : (id' : String) → id ≢ id' → find_by_id id' after ≡ find_by_id id' before
  pub registered : graph' ≡ register (new_job now id dto) graph
  -- It can be claimed as soon as it is due if it has no dependencies, and otherwise not yet.
  pub claimable :
      (clock : ℕ)
      → is_runnable clock (new_job now id dto)
        ≡ (is_due clock dto.scheduled_at && length (or_else dto.dependencies []) == 0)

-- What `createJob` asks of a request: cron-parser takes its expression, if it has one that is not
-- empty; its dependencies are stored; and its id is not in use.
pub record IsValid (parses : String → String → Bool) (id : String) (dto : CreateJobDto)
    (table : Jobs) : Type 0 where
  pub cron :
      (expression : String)
      → dto.cron_expression ≡ some expression
      → expression ≢ ""
      → parses expression (or_else dto.timezone "UTC") ≡ true
  pub found : All (λ dep. elem dep.job_id (ids table) ≡ true) (or_else dto.dependencies [])
  pub unused : All (λ job. job.id ≢ id) table

-- What `createJob` gives where the request is valid, and where it is not.
abbrev pub Creation :
    (parses : String → String → Bool)
    → ℕ
    → String
    → CreateJobDto
    → Jobs
    → Graph
    → Result Job × Jobs × Graph
    → Type 0
Creation parses now id dto table graph answer =
    ((¬ IsValid parses id dto table) × (answer ≡ (err failure, table, graph)))
    ⊎ (IsValid parses id dto table
        × (after : Jobs) × (graph' : Graph) × (answer ≡ (ok (new_job now id dto), after, graph'))
        × Created now id dto table graph after graph')
