-- ===== src/ExecutionRepository.antt =====
-- src/db/repositories/ExecutionRepository.ts over the table of execution logs, a list of its rows.
use backend_task_orchestrati.Prelude.{
  ℕ, String, Option, none, some, List, [], ◌∷◌, ◌++◌, map, ltb, if◌then◌else◌, length, filter,
}
use backend_task_orchestrati.Prelude.Eq.{◌==◌, nat_eq, string_eq, elem}
use backend_task_orchestrati.Prelude.Sort.{sort_by}
use backend_task_orchestrati.Models.ExecutionLog.{
  ExecutionLog, CreateExecutionLogDto, CompleteExecutionLogDto,
}
use backend_task_orchestrati.JobRepository.{assigned}

abbrev pub Logs : Type 0
Logs = List ExecutionLog

abbrev pub new_log : ℕ → String → CreateExecutionLogDto → ExecutionLog
new_log now id dto = record {
  id = id;
  job_id = dto.job_id;
  worker_id = dto.worker_id;
  attempt_number = dto.attempt_number;
  status = dto.status;
  started_at = dto.started_at;
  completed_at = none;
  duration_ms = none;
  stdout = none;
  stderr = none;
  exit_code = none;
  result = none;
  error_message = none;
  error_stack = none;
  error_code = none;
  peak_memory_mb = none;
  cpu_percent = none;
  created_at = now;
}

-- `id` is the identifier that `generateId` made. The primary key refuses one that is in use.
unfoldable pub create : ℕ → String → CreateExecutionLogDto → Logs → Option (ExecutionLog × Logs)
create now id dto logs =
    let log = new_log now id dto in
    if elem id (map (λ (l : ExecutionLog). l.id) logs) then none else some (log, logs ++ log ∷ [])

-- A field that is `undefined` leaves its column, but `result` is set to NULL.
abbrev pub completed_log : CompleteExecutionLogDto → ExecutionLog → ExecutionLog
completed_log dto log = record log {
  status = dto.status;
  completed_at = some dto.completed_at;
  duration_ms = some dto.duration_ms;
  stdout = assigned dto.stdout log.stdout;
  stderr = assigned dto.stderr log.stderr;
  exit_code = assigned dto.exit_code log.exit_code;
  result = dto.result;
  error_message = assigned dto.error_message log.error_message;
  error_stack = assigned dto.error_stack log.error_stack;
  error_code = assigned dto.error_code log.error_code;
  peak_memory_mb = assigned dto.peak_memory_mb log.peak_memory_mb;
  cpu_percent = assigned dto.cpu_percent log.cpu_percent;
}

unfoldable pub complete : CompleteExecutionLogDto → Logs → Logs
complete dto [] = []
complete dto (log ∷ logs) =
    (if log.id == dto.id then completed_log dto log else log) ∷ complete dto logs

unfoldable pub find_by_job_id : String → Logs → Logs
find_by_job_id job_id logs =
    sort_by (λ a b. ltb a.attempt_number b.attempt_number) (filter (λ l. l.job_id == job_id) logs)

abbrev first : Logs → Option ExecutionLog
first [] = none
first (log ∷ logs) = some log

unfoldable pub get_latest_attempt : String → Logs → Option ExecutionLog
get_latest_attempt job_id logs =
    first (
      sort_by (λ a b. ltb b.attempt_number a.attempt_number)
        (filter (λ l. l.job_id == job_id) logs))

unfoldable pub count_attempts : String → Logs → ℕ
count_attempts job_id logs = length (filter (λ l. l.job_id == job_id) logs)
