-- ===== src/Models/ExecutionLog.antt =====
-- src/models/ExecutionLog.ts
use backend_task_orchestrati.Prelude.{ℕ, String, Option}
use backend_task_orchestrati.Models.Json.{Fields}

pub data ExecutionStatus : Type 0 where
  running completed failed timed_out cancelled : ExecutionStatus

pub record ExecutionLog : Type 0 where
  pub id : String
  pub job_id : String
  pub worker_id : String
  pub attempt_number : ℕ
  pub status : ExecutionStatus
  pub started_at : ℕ
  pub completed_at : Option ℕ
  pub duration_ms : Option ℕ
  pub stdout : Option String
  pub stderr : Option String
  pub exit_code : Option ℕ
  pub result : Option Fields
  pub error_message : Option String
  pub error_stack : Option String
  pub error_code : Option String
  pub peak_memory_mb : Option ℕ
  pub cpu_percent : Option ℕ
  pub created_at : ℕ

pub record CreateExecutionLogDto : Type 0 where
  pub job_id : String
  pub worker_id : String
  pub attempt_number : ℕ
  pub status : ExecutionStatus
  pub started_at : ℕ

pub record CompleteExecutionLogDto : Type 0 where
  pub id : String
  pub status : ExecutionStatus
  pub completed_at : ℕ
  pub duration_ms : ℕ
  pub stdout : Option String
  pub stderr : Option String
  pub exit_code : Option ℕ
  pub result : Option Fields
  pub error_message : Option String
  pub error_stack : Option String
  pub error_code : Option String
  pub peak_memory_mb : Option ℕ
  pub cpu_percent : Option ℕ
