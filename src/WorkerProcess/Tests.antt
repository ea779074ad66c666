-- ===== src/WorkerProcess/Tests.antt =====
-- The theorems on the worker at a small back end.
use mathlib.Core.Option.{some-injective}
use backend_task_orchestrati.Prelude.{◌≡◌, refl, sym, ap, false, none, some, [], ◌∷◌, map}
use backend_task_orchestrati.Prelude.Eq.{string_eq, elem}
use backend_task_orchestrati.Models.Job.{Job, queued, running, cancelled, status_eq}
use backend_task_orchestrati.Models.ExecutionLog.{ExecutionLog}
use backend_task_orchestrati.Models.Json.{str, end, field}
use backend_task_orchestrati.Models.Job.{JobType, retrying}
use backend_task_orchestrati.Samples.{job_in, plain_process, silent_world}
use backend_task_orchestrati.Prelude.{arith}
use backend_task_orchestrati.Prelude.Text.{has_any, has_char}
use backend_task_orchestrati.JobExecutor.Values.{get, to_text}
use backend_task_orchestrati.JobExecutor.{execution_first, execute}
use backend_task_orchestrati.Retry.{should_retry}
use backend_task_orchestrati.Samples.{plain_worker}
use backend_task_orchestrati.WorkerRepository.{mark_lost_workers}
use backend_task_orchestrati.WorkerProcess.Life.{shutdown, shutdown_not_lost}
use backend_task_orchestrati.WorkerProcess.Refusal.{IsRefused, refused_command_retried}
use backend_task_orchestrati.JobRepository.{find_by_id}
use backend_task_orchestrati.JobExecutor.Runs.{ExecutionResult}
use backend_task_orchestrati.WorkerProcess.{Backend, process_job}
use backend_task_orchestrati.WorkerProcess.Outcome.{Settled, process_job_correct}

-- A handler that fails.
abbrev fails : Job → ExecutionResult
fails job = record {
  success = false;
  exit_code = none;
  stdout = none;
  stderr = none;
  result = none;
  error_message = some "refused";
  error_stack = none;
  error_code = none;
  duration_ms = 4;
}

abbrev last_try : Job
last_try = record (job_in "a" queued) { retry_count = 3 }

abbrev backend : Backend
backend = record { jobs = last_try ∷ job_in "b" cancelled ∷ []; logs = []; graph = []; dead = [] }

a_found : find_by_id "a" backend.jobs ≡ some last_try
unfolding find_by_id
a_found = refl

log_free : elem "l" (map (λ (l : ExecutionLog). l.id) backend.logs) ≡ false
unfolding elem
log_free = refl

process_job_correct_example :
    (after : Backend) × (process_job fails 10 14 "w" "l" "a" 4 backend ≡ some after)
    × Settled "a"
        (fails last_try)
        14
        (record last_try {
          status = running;
          worker_id = some "w";
          started_at = some 10;
          updated_at = 10;
        })
        backend.dead
        after
process_job_correct_example =
    process_job_correct fails 10 14 "w" "l" "a" 4 backend last_try a_found refl log_free

b_cancelled : (job : Job) → find_by_id "b" backend.jobs ≡ some job → job.status ≡ cancelled
unfolding find_by_id
b_cancelled job found =
    ap (λ (j : Job). j.status) (sym (some-injective (job_in "b" cancelled) job found))

-- A command that pipes, of which the pattern refuses the character.
abbrev piped : Job
piped = record (job_in "a" queued) {
  type = JobType.shell_command;
  payload = field "command" (str "ls | sh") end;
}

abbrev with_piped : Backend
with_piped = record { jobs = piped ∷ []; logs = []; graph = []; dead = [] }

piped_found : find_by_id "a" with_piped.jobs ≡ some piped
unfolding find_by_id
piped_found = refl

piped-IsRefused : IsRefused piped
unfolding get has_any has_char to_text
piped-IsRefused = (str "ls | sh", refl, refl, refl, refl)

refused_command_retried_example :
    (after : Backend) × (process_job
        (execute plain_process silent_world (execution_first 1))
        10
        14
        "w"
        "l"
        "a"
        1
        with_piped
      ≡ some after)
    × (find_by_id "a" after.jobs
        ≡ some (record piped {
          status = retrying;
          worker_id = some "w";
          started_at = some 10;
          retry_count = 1;
          updated_at = 14;
        }))
    × (should_retry piped (execute plain_process silent_world (execution_first 1) piped).error_code
        ≡ false)
refused_command_retried_example =
    refused_command_retried plain_process silent_world 1 10 14 "w" "l" "a" 1 with_piped piped
      piped_found refl log_free piped-IsRefused (omega arith)

shutdown_not_lost_example :
    elem "v" (mark_lost_workers 90000 30000 (shutdown 5 9 "v" (plain_worker "v" 1 ∷ []))).0 ≡ false
shutdown_not_lost_example = shutdown_not_lost 5 9 90000 30000 "v" (plain_worker "v" 1 ∷ [])
