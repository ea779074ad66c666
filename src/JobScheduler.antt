-- ===== src/JobScheduler.antt =====
-- src/scheduler/JobScheduler.ts: `scheduleReadyJobs`, `recoverStalledJobs`, `submitJob` and
-- `onJobCompleted`, over the table of jobs and the graph of dependencies.
-- `accepts` tells for which requests BullMQ's `Queue.add` succeeds; a refused one throws. Metrics,
-- events and logs have no effect here.
pub mod Ready
pub mod Recover
pub mod Complete
pub mod Leadership
pub mod Leads
mod Tests
use backend_task_orchestrati.Prelude.{
  ℕ, ◌+◌, ◌-◌, Bool, true, false, String, Option, none, some, List, [], ◌∷◌, ◌++◌, ltb,
  if◌then◌else◌, length,
}
use backend_task_orchestrati.Models.Job.{
  JobStatus, pending, failed, Job, CreateJobDto, UpdateJobDto,
}
use backend_task_orchestrati.JobQueue.{Request, request, bull_job_id}
use backend_task_orchestrati.JobRepository.{
  Jobs, create, update, update_each, no_update, claim_pending_jobs, find_stalled_jobs,
  resolve_dependency,
}
use backend_task_orchestrati.DependencyResolver.{Graph, register, on_job_state_change}

-- `scheduledAt ? Math.max(0, scheduledAt - now) : 0`
abbrev pub delay_until : ℕ → Option ℕ → ℕ
delay_until now none = 0
delay_until now (some t) = t - now

-- The call of `jobQueue.add` for a claimed job.
unfoldable pub enqueue_request : ℕ → Job → Request
enqueue_request now job =
    request
      (record {
        job_id = job.id;
        type = job.type;
        payload = job.payload;
        organization_id = job.organization_id;
        attempt_number = job.retry_count + 1;
      })
      (record {
        priority = some job.priority;
        delay_ms = some (delay_until now job.scheduled_at);
        job_id = some (bull_job_id job.id);
      })

abbrev pub back_to_pending : UpdateJobDto
back_to_pending = record no_update { status = some pending }

-- The body of the loop of `scheduleReadyJobs`. `sent` are the requests that the queue accepted.
unfoldable pub schedule_one : ℕ → (Request → Bool) → Job → Jobs → List Request → Jobs × List Request
schedule_one now accepts job table sent =
    if ltb job.resolved_dependency_count job.dependency_count
    then ((update now job.id back_to_pending table).1, sent)
    else if accepts (enqueue_request now job)
    then (table, sent ++ enqueue_request now job ∷ [])
    else ((update now job.id back_to_pending table).1, sent)

unfoldable pub schedule_all :
    ℕ → (Request → Bool) → Jobs → Jobs → List Request → Jobs × List Request
schedule_all now accepts [] table sent = (table, sent)
schedule_all now accepts (job ∷ jobs) table sent =
    let (table', sent') = schedule_one now accepts job table sent in
    schedule_all now accepts jobs table' sent'

unfoldable pub schedule_ready_jobs :
    ℕ → (String → Bool) → ℕ → (Request → Bool) → Jobs → Jobs × List Request
schedule_ready_jobs now locked batch_size accepts table =
    let (jobs, table') = claim_pending_jobs now locked batch_size table in
    schedule_all now accepts jobs table' []

-- What `recoverStalledJobs` writes to a stalled job. The fields set to `undefined` are left out.
unfoldable pub recovery : ℕ → Job → UpdateJobDto
recovery now job =
    if ltb job.retry_count job.max_retries then back_to_pending else record no_update {
      status = some failed;
      error_message = some "Job stalled: worker did not complete within timeout";
      completed_at = some now;
    }

unfoldable pub recover_stalled_jobs : ℕ → ℕ → Jobs → Jobs
recover_stalled_jobs now stalled_job_threshold_ms table =
    update_each now (recovery now) (find_stalled_jobs now stalled_job_threshold_ms table) table

-- `id` is the identifier that `create` generates. A refused insert throws.
unfoldable pub submit_job : ℕ → String → CreateJobDto → Jobs → Graph → Option (Job × Jobs × Graph)
submit_job now id dto table graph = elim (create now id dto table) [
  | none ↦ none
  | some (job, table') ↦ some (job, table', register job graph)
]

-- `for (const id of unblockedIds) await jobRepository.resolveDependency(jobId)`
unfoldable pub resolve_each : ℕ → String → List String → Jobs → Jobs
resolve_each now job_id [] table = table
resolve_each now job_id (id ∷ unblocked) table =
    resolve_each now job_id unblocked (resolve_dependency now job_id table)

unfoldable pub on_job_completed : ℕ → String → JobStatus → Jobs → Graph → Jobs × Graph
on_job_completed now job_id status table graph =
    let (unblocked, graph') = on_job_state_change job_id status graph in
    (resolve_each now job_id unblocked table, graph')
