-- ===== src/JobExecutor.antt =====
-- src/workers/JobExecutor.ts
-- A handler is a run: its calls of axios and of the shell, in their order, each going on with the
-- answer. `Promise.race` and the timer are the runtime's: which side settles first is an input.
pub mod Values
pub mod Runs
pub mod Calls
pub mod Local
pub mod Safety
pub mod Pipeline
mod Tests
use backend_task_orchestrati.Prelude.{ℕ, Bool, true, false, String, Option, none, some}
use Prim.Native.String.{◌++◌}
use backend_task_orchestrati.Prelude.Text.{show}
use backend_task_orchestrati.Models.Json.{Json, Fields}
use backend_task_orchestrati.Models.Job
use backend_task_orchestrati.Models.Job.{Job, JobType}
use backend_task_orchestrati.JobExecutor.Runs.{
  ExecutionResult, Failure, Run, World, Settled, resolved, failed, settled,
}
use backend_task_orchestrati.JobExecutor.Calls.{
  bare, error_result, execute_http_request, execute_shell_command, execute_webhook,
}
use backend_task_orchestrati.JobExecutor.Local.{
  Clock, Handlers, execute_data_pipeline, execute_email_notification, execute_report_generation,
  execute_file_processing, execute_database_cleanup, execute_custom,
}

-- What the executor reads of its process.
pub record Process : Type 0 where
  pub cwd : Json
  pub env : Fields
  pub clock : Clock
  pub handlers : Handlers

-- Every type of job has its case, so the source's default is not reached.
unfoldable pub dispatch_as : Process → JobType → Fields → Run
dispatch_as process JobType.http_request payload = execute_http_request payload
dispatch_as process JobType.shell_command payload =
    execute_shell_command process.cwd process.env payload
dispatch_as process JobType.webhook payload = execute_webhook payload
dispatch_as process JobType.data_pipeline payload = execute_data_pipeline payload
dispatch_as process JobType.email_notification payload =
    execute_email_notification process.clock payload
dispatch_as process JobType.report_generation payload =
    execute_report_generation process.clock payload
dispatch_as process JobType.file_processing payload = execute_file_processing process.clock payload
dispatch_as process JobType.database_cleanup payload = execute_database_cleanup payload
dispatch_as process JobType.custom payload = execute_custom process.handlers payload

abbrev pub dispatch : Process → Job → Run
dispatch process job = dispatch_as process job.type job.payload

-- Who wins `Promise.race`, and the milliseconds since the start by then.
pub data Race : Type 0 where
  execution_first timer_first : ℕ → Race

abbrev pub settle_first : ℕ → Settled → ExecutionResult
settle_first duration (resolved r) = record r { duration_ms = duration }
settle_first duration (failed e) = record (error_result e.message "EXECUTION_ERROR") {
  error_stack = e.stack;
  duration_ms = duration;
}

abbrev pub timed_out : ℕ → ℕ → ExecutionResult
timed_out timeout_ms duration =
    record (error_result ("Job exceeded timeout of " ++ show timeout_ms ++ "ms") "JOB_TIMEOUT") {
      duration_ms = duration;
    }

unfoldable pub execute : Process → World → Race → Job → ExecutionResult
execute process world (execution_first duration) job =
    settle_first duration (settled world (dispatch process job))
execute process world (timer_first duration) job = timed_out job.timeout_ms duration
