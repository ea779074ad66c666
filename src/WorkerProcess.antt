-- ===== src/WorkerProcess.antt =====
-- src/workers/WorkerNode.ts: `processJob` and `handleFailure`, with `add` of
-- src/queue/DeadLetterQueue.ts.
-- `execute` is `jobExecutor.execute`: what the handlers of the job make of it. Metrics and logs have
-- no effect here, nor has the delay that `handleFailure` computes for its log line.
pub mod Outcome
pub mod Refusal
pub mod Life
mod Tests
use backend_task_orchestrati.Prelude.{
  ℕ, ◌+◌, Bool, true, false, String, Option, none, some, List, [], ◌∷◌, ◌++◌, leb, or_else,
  if◌then◌else◌,
}
use backend_task_orchestrati.Prelude.Eq.{◌==◌, string_eq}
use backend_task_orchestrati.Models.Json.{Fields}
use backend_task_orchestrati.Models.Job.{
  JobType, cancelled, running, completed, failed, retrying, status_eq, Job, UpdateJobDto,
}
use backend_task_orchestrati.Models.ExecutionLog
use backend_task_orchestrati.Models.ExecutionLog.{
  ExecutionStatus, CreateExecutionLogDto, CompleteExecutionLogDto,
}
use backend_task_orchestrati.JobRepository.{Jobs, find_by_id, update, no_update}
use backend_task_orchestrati.ExecutionRepository.{Logs, create, complete}
use backend_task_orchestrati.DependencyResolver.{Graph}
use backend_task_orchestrati.JobScheduler.{on_job_completed}
use backend_task_orchestrati.JobExecutor.Runs.{ExecutionResult}

pub record DlqEntry : Type 0 where
  pub original_job_id : String
  pub type : JobType
  pub payload : Fields
  pub organization_id : String
  pub failure_reason : String
  pub failure_stack : Option String
  pub total_attempts : ℕ
  pub first_failed_at : ℕ
  pub last_failed_at : ℕ

-- What the worker changes. `dead` are the entries handed to the dead letter queue, oldest first.
pub record Backend : Type 0 where
  pub jobs : Jobs
  pub logs : Logs
  pub graph : Graph
  pub dead : List DlqEntry

abbrev pub to_running : ℕ → String → UpdateJobDto
to_running now worker_id = record no_update {
  status = some running;
  worker_id = some worker_id;
  started_at = some now;
}

abbrev pub success_update : ℕ → ExecutionResult → UpdateJobDto
success_update completed_at r = record no_update {
  status = some completed;
  completed_at = some completed_at;
  result = r.result;
  exit_code = r.exit_code;
}

abbrev pub success_log : String → ℕ → ExecutionResult → CompleteExecutionLogDto
success_log log_id completed_at r = record {
  id = log_id;
  status = ExecutionStatus.completed;
  completed_at = completed_at;
  duration_ms = r.duration_ms;
  stdout = r.stdout;
  stderr = r.stderr;
  exit_code = r.exit_code;
  result = r.result;
  error_message = none;
  error_stack = none;
  error_code = none;
  peak_memory_mb = none;
  cpu_percent = none;
}

abbrev pub failure_log : String → ℕ → ExecutionResult → ExecutionStatus → CompleteExecutionLogDto
failure_log log_id completed_at r final_status = record {
  id = log_id;
  status = final_status;
  completed_at = completed_at;
  duration_ms = r.duration_ms;
  stdout = r.stdout;
  stderr = r.stderr;
  exit_code = none;
  result = none;
  error_message = r.error_message;
  error_stack = r.error_stack;
  error_code = r.error_code;
  peak_memory_mb = none;
  cpu_percent = none;
}

-- `workerId` and `startedAt` are `undefined`, and left.
abbrev pub retry_update : ℕ → UpdateJobDto
retry_update new_retry_count = record no_update {
  status = some retrying;
  retry_count = some new_retry_count;
}

abbrev pub failure_update : ℕ → ExecutionResult → UpdateJobDto
failure_update completed_at r = record no_update {
  status = some failed;
  completed_at = some completed_at;
  error_message = r.error_message;
  error_stack = r.error_stack;
  exit_code = r.exit_code;
}

abbrev pub dead_letter : ℕ → String → Job → ExecutionResult → DlqEntry
dead_letter completed_at job_id job r = record {
  original_job_id = job_id;
  type = job.type;
  payload = job.payload;
  organization_id = job.organization_id;
  failure_reason = or_else r.error_message "Unknown error";
  failure_stack = r.error_stack;
  total_attempts = job.retry_count + 1;
  first_failed_at = or_else job.started_at completed_at;
  last_failed_at = completed_at;
}

unfoldable pub retry_or_bury : ℕ → String → Job → ExecutionResult → Backend → Backend
retry_or_bury completed_at job_id job r b =
    if leb (job.retry_count + 1) job.max_retries
    then record b {
      jobs = (update completed_at job_id (retry_update (job.retry_count + 1)) b.jobs).1;
    }
    else (let jobs = (update completed_at job_id (failure_update completed_at r) b.jobs).1 in
        let (jobs', graph') = on_job_completed completed_at job_id failed jobs b.graph in
        record b {
          jobs = jobs';
          graph = graph';
          dead = b.dead ++ dead_letter completed_at job_id job r ∷ [];
        })

-- The statements run in the instant `completed_at`.
unfoldable pub handle_failure :
    String → String → ExecutionResult → ℕ → ExecutionStatus → Backend → Backend
handle_failure job_id log_id r completed_at final_status b = elim (find_by_id job_id b.jobs) [
  | none ↦ b
  | some job ↦
      retry_or_bury completed_at job_id job r
        (record b { logs = complete (failure_log log_id completed_at r final_status) b.logs })
]

-- `result.errorCode === 'JOB_TIMEOUT'`
abbrev pub is_timeout : Option String → Bool
is_timeout none = false
is_timeout (some code) = code == "JOB_TIMEOUT"

-- What follows the execution.
unfoldable pub settle : String → String → ExecutionResult → ℕ → Backend → Backend
settle job_id log_id r completed_at b =
    if r.success
    then (let jobs = (update completed_at job_id (success_update completed_at r) b.jobs).1 in
        let (jobs', graph') = on_job_completed completed_at job_id completed jobs b.graph in
        record b {
          jobs = jobs';
          logs = complete (success_log log_id completed_at r) b.logs;
          graph = graph';
        })
    else (if is_timeout r.error_code
        then handle_failure job_id log_id r completed_at ExecutionStatus.timed_out b
        else handle_failure job_id log_id r completed_at ExecutionStatus.failed b)

-- `none` stands for an error of the database, which `processJob` throws.
unfoldable pub process_job :
    (execute : Job → ExecutionResult)
    → (now completed_at : ℕ) (worker_id log_id job_id : String) (attempt_number : ℕ) → Backend
    → Option Backend
process_job execute now completed_at worker_id log_id job_id attempt_number b =
    elim (find_by_id job_id b.jobs) [
      | none ↦ some b
      | some job ↦
          if job.status == cancelled
          then some b
          else elim (create now log_id
              (record {
                job_id = job_id;
                worker_id = worker_id;
                attempt_number = attempt_number;
                status = ExecutionStatus.running;
                started_at = now;
              })
              b.logs) [
                | none ↦ none
                | some (log, logs') ↦ some (
                    settle job_id log.id (execute job) completed_at (record b {
                      logs = logs';
                      jobs = (update now job_id (to_running now worker_id) b.jobs).1;
                    }))
              ]
    ]
