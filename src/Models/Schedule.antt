-- ===== src/Models/Schedule.antt =====
-- src/models/ExecutionLog.ts: `Schedule`
use backend_task_orchestrati.Prelude.{ℕ, Bool, String, Option, List}
use backend_task_orchestrati.Models.Json.{Fields}
use backend_task_orchestrati.Models.Job.{JobType, JobPriority, RetryConfigDto}

pub record JobTemplate : Type 0 where
  pub type : JobType
  pub payload : Fields
  pub priority : JobPriority
  pub timeout_ms : ℕ
  pub retry_config : RetryConfigDto
  pub tags : Option (List String)

pub record Schedule : Type 0 where
  pub id : String
  pub name : String
  pub description : Option String
  pub cron_expression : String
  pub timezone : String
  pub job_template : JobTemplate
  pub is_active : Bool
  pub last_triggered_at : Option ℕ
  pub next_trigger_at : Option ℕ
  pub total_triggered_count : ℕ
  pub organization_id : String
  pub created_by : String
  pub created_at : ℕ
  pub updated_at : ℕ
