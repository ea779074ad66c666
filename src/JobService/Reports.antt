-- ===== src/JobService/Reports.antt =====
-- src/services/JobService.ts: `createJob`, `listJobs`, `getJobHistory` and `getJobStats`
use backend_task_orchestrati.Prelude.{
  ℕ, ◌+◌, Bool, true, false, ◌&&◌, String, Option, none, some, List, [], ◌∷◌, if◌then◌else◌,
  or_else, is_some,
}
use backend_task_orchestrati.Prelude.Eq.{◌==◌, string_eq}
use backend_task_orchestrati.Models.Job.{
  JobStatus, pending, queued, running, completed, failed, retrying, cancelled, JobDependency,
  CreateJobDto, Job,
}
use backend_task_orchestrati.Models.Filter.{one, JobFilter, PaginatedJobs}
use backend_task_orchestrati.Models.ExecutionLog.{ExecutionLog}
use backend_task_orchestrati.JobRepository.{Jobs, find_by_id}
use backend_task_orchestrati.JobRepository.Query.{find_many, no_filter}
use backend_task_orchestrati.ExecutionRepository.{Logs, find_by_job_id}
use backend_task_orchestrati.DependencyResolver.{Graph}
use backend_task_orchestrati.JobScheduler.{submit_job}
use backend_task_orchestrati.JobService.{Result, ok, err, failure, get_job}

abbrev pub all_found : List JobDependency → Jobs → Bool
all_found [] table = true
all_found (dep ∷ deps) table =
    if is_some (find_by_id dep.job_id table) then all_found deps table else false

-- `parses` is whether cron-parser takes the expression in the time zone; a text that is empty is not
-- given to it.
abbrev pub cron_accepted : (parses : String → String → Bool) → CreateJobDto → Bool
cron_accepted parses dto = elim dto.cron_expression [
  | none ↦ true
  | some expression ↦
      if expression == "" then true else parses expression (or_else dto.timezone "UTC")
]

-- `none` in the answer of `submit_job` stands for an error of the database.
abbrev pub submitted_or : Option (Job × Jobs × Graph) → Jobs → Graph → Result Job × Jobs × Graph
submitted_or none table graph = (err failure, table, graph)
submitted_or (some (job, table', graph')) table graph = (ok job, table', graph')

unfoldable pub create_job :
    (parses : String → String → Bool)
    → ℕ
    → String
    → CreateJobDto
    → Jobs
    → Graph
    → Result Job × Jobs × Graph
create_job parses now id dto table graph =
    if cron_accepted parses dto && all_found (or_else dto.dependencies []) table
    then submitted_or (submit_job now id dto table graph) table graph
    else (err failure, table, graph)

abbrev pub list_jobs :
    (ilike : String → String → Bool)
    → (ties : JobFilter → Job → Job → Bool) → JobFilter
    → Jobs
    → Option PaginatedJobs
list_jobs = find_many

unfoldable pub get_job_history : String → String → Jobs → Logs → Result (List ExecutionLog)
get_job_history id organization_id table logs = elim (get_job id organization_id table) [
  | err e ↦ err e
  | ok job ↦ ok (find_by_job_id id logs)
]

pub record ByStatus : Type 0 where
  pub pending_total : ℕ
  pub queued_total : ℕ
  pub running_total : ℕ
  pub completed_total : ℕ
  pub failed_total : ℕ
  pub retrying_total : ℕ
  pub cancelled_total : ℕ

pub record JobStats : Type 0 where
  pub total : ℕ
  pub by_status : ByStatus

abbrev pub total_of : Option PaginatedJobs → ℕ
total_of none = 0
total_of (some page) = page.total

unfoldable pub total_in :
    (ilike : String → String → Bool)
    → (ties : JobFilter → Job → Job → Bool) → String
    → JobStatus
    → Jobs
    → ℕ
total_in ilike ties organization_id status table = total_of (
    find_many ilike ties
      (record no_filter {
        organization_id = some organization_id;
        status = some (one status);
        limit = some 1;
      })
      table)

-- The queries of the report run at the same instant. `byPriority` and `avgDurationMs` are constant.
unfoldable pub get_job_stats :
    (ilike : String → String → Bool)
    → (ties : JobFilter → Job → Job → Bool) → String
    → Jobs
    → JobStats
get_job_stats ilike ties organization_id table =
    let count = λ (s : JobStatus). total_in ilike ties organization_id s table in
    record {
      total =
          count pending
          + count queued
          + count running
          + count completed
          + count failed
          + count retrying
          + count cancelled;
      by_status = record {
        pending_total = count pending;
        queued_total = count queued;
        running_total = count running;
        completed_total = count completed;
        failed_total = count failed;
        retrying_total = count retrying;
        cancelled_total = count cancelled;
      };
    }
