-- ===== src/WorkerProcess/Refusal.antt =====
-- src/workers/WorkerNode.ts with src/workers/JobExecutor.ts: what becomes of a refused command.
use backend_task_orchestrati.Prelude.{
  ℕ, ◌+◌, ◌<◌, ◌≡◌, refl, ap, ◌∙◌, true, false, String, some, arith, map,
}
use backend_task_orchestrati.Prelude.Eq.{◌==◌, string_eq, elem}
use backend_task_orchestrati.Prelude.Text.{has_any}
use backend_task_orchestrati.Models.Json.{Json}
use backend_task_orchestrati.Models.Job.{Job, JobType, cancelled, retrying, status_eq}
use backend_task_orchestrati.Models.ExecutionLog.{ExecutionLog}
use backend_task_orchestrati.JobRepository.{find_by_id}
use backend_task_orchestrati.JobExecutor.Values.{get, truthy, to_text}
use backend_task_orchestrati.JobExecutor.Runs.{ExecutionResult, World, settled}
use backend_task_orchestrati.JobExecutor.Calls.{
  dangerous_patterns, error_result, execute_shell_command,
}
use backend_task_orchestrati.JobExecutor.{Process, dispatch_as, execution_first, execute}
use backend_task_orchestrati.Retry.{should_retry}
use backend_task_orchestrati.WorkerProcess.{Backend, process_job}
use backend_task_orchestrati.WorkerProcess.Outcome.{process_job_correct}

-- A job for a command with one of the refused characters.
abbrev pub IsRefused : Job → Type 0
IsRefused job =
    (command : Json) × (job.type ≡ JobType.shell_command)
    × (get "command" job.payload ≡ some command)
    × (truthy command ≡ true)
    × (has_any dangerous_patterns (to_text command) ≡ true)

execute-IsRefused :
    (process : Process) (world : World) (duration : ℕ) (job : Job)
    → IsRefused job
    → execute process world (execution_first duration) job
      ≡ record (error_result "Command contains disallowed shell characters" "SECURITY_VIOLATION") {
        duration_ms = duration;
      }
unfolding execute dispatch_as execute_shell_command settled
execute-IsRefused process world duration job (command, is, found, given, bad) =
    rw (is, execute, dispatch_as, found, execute_shell_command, given, bad) refl

refusal_is_permanent : (job : Job) → should_retry job (some "SECURITY_VIOLATION") ≡ false
unfolding should_retry elem
refusal_is_permanent job = ground arith

-- A stored job that was not cancelled, for a command with one of the refused characters and with
-- retries left, run under a log id that is not in use and not stopped by the timer, is marked for a
-- retry with one more retry counted, though the policy of retries says that such an error is not to
-- be retried.
pub refused_command_retried :
    (process : Process) (world : World) (duration now at : ℕ) (worker_id log_id job_id : String)
    (attempt : ℕ)
    → (b : Backend) (job : Job) → find_by_id job_id b.jobs ≡ some job
    → (job.status == cancelled) ≡ false
    → elem log_id (map (λ (l : ExecutionLog). l.id) b.logs) ≡ false
    → IsRefused job
    → job.retry_count < job.max_retries
    → (after : Backend) × (process_job
          (execute process world (execution_first duration))
          now
          at
          worker_id
          log_id
          job_id
          attempt
          b
        ≡ some after)
      × (find_by_id job_id after.jobs
          ≡ some (record job {
            status = retrying;
            worker_id = some worker_id;
            started_at = some now;
            retry_count = job.retry_count + 1;
            updated_at = at;
          }))
      × (should_retry job (execute process world (execution_first duration) job).error_code ≡ false)
refused_command_retried process world duration now at worker_id log_id job_id attempt b job found
      still free bad more =
    let run = execute process world (execution_first duration) in
    let same = execute-IsRefused process world duration job bad in
    let (after, ran, settled_as) =
      process_job_correct run now at worker_id log_id job_id attempt b job found still free in
    (
      after,
      ran,
      (settled_as.retried (ap (λ (r : ExecutionResult). r.success) same) more).0,
      ap (λ (r : ExecutionResult). should_retry job r.error_code) same ∙ refusal_is_permanent job,
    )
