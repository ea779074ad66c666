-- ===== src/Models/Job.antt =====
-- src/models/Job.ts
use backend_task_orchestrati.Prelude.{ℕ, ◌≡◌, ◌↔◌, Bool, true, String, Option, List, arith, nat_beq}
use backend_task_orchestrati.Prelude.Eq.{Eq}
use backend_task_orchestrati.Models.Json.{Fields}

pub data JobStatus : Type 0 where
  pending queued running completed failed retrying cancelled timed_out skipped : JobStatus

abbrev pub status_code : JobStatus → ℕ
status_code pending = 0
status_code queued = 1
status_code running = 2
status_code completed = 3
status_code failed = 4
status_code retrying = 5
status_code cancelled = 6
status_code timed_out = 7
status_code skipped = 8

abbrev pub status_beq : JobStatus → JobStatus → Bool
status_beq a b = nat_beq (status_code a) (status_code b)

pub status_beq_iff : (a b : JobStatus) → (status_beq a b ≡ true) ↔ (a ≡ b)
status_beq_iff a b = ground arith

instance abbrev pub status_eq : Eq JobStatus
status_eq = record { equal = status_beq; equal_iff = status_beq_iff }

pub data JobPriority : Type 0 where
  critical high medium low background : JobPriority

pub data JobType : Type 0 where
  http_request shell_command data_pipeline email_notification report_generation : JobType
  file_processing database_cleanup webhook custom : JobType

abbrev pub type_code : JobType → ℕ
type_code http_request = 0
type_code shell_command = 1
type_code data_pipeline = 2
type_code email_notification = 3
type_code report_generation = 4
type_code file_processing = 5
type_code database_cleanup = 6
type_code webhook = 7
type_code custom = 8

abbrev pub type_beq : JobType → JobType → Bool
type_beq a b = nat_beq (type_code a) (type_code b)

pub type_beq_iff : (a b : JobType) → (type_beq a b ≡ true) ↔ (a ≡ b)
type_beq_iff a b = ground arith

instance abbrev pub type_eq : Eq JobType
type_eq = record { equal = type_beq; equal_iff = type_beq_iff }

abbrev pub priority_weight : JobPriority → ℕ
priority_weight critical = 100
priority_weight high = 75
priority_weight medium = 50
priority_weight low = 25
priority_weight background = 5

pub data RetryBackoff : Type 0 where
  fixed exponential jitter : RetryBackoff

pub record RetryConfig : Type 0 where
  pub max_retries : ℕ
  pub retry_delay : ℕ
  pub retry_backoff : RetryBackoff
  pub retry_on : List String

pub record JobDependency : Type 0 where
  pub job_id : String
  pub require_status : List JobStatus

pub record Job : Type 0 where
  pub id : String
  pub name : String
  pub description : Option String
  pub type : JobType
  pub payload : Fields
  pub status : JobStatus
  pub priority : JobPriority
  pub scheduled_at : Option ℕ
  pub cron_expression : Option String
  pub timezone : Option String
  pub next_run_at : Option ℕ
  pub last_run_at : Option ℕ
  pub worker_id : Option String
  pub started_at : Option ℕ
  pub completed_at : Option ℕ
  pub timeout_ms : ℕ
  pub retry_config : RetryConfig
  pub retry_count : ℕ
  pub max_retries : ℕ
  pub dependencies : List JobDependency
  pub dependency_count : ℕ
  pub resolved_dependency_count : ℕ
  pub result : Option Fields
  pub error_message : Option String
  pub error_stack : Option String
  pub exit_code : Option ℕ
  pub organization_id : String
  pub created_by : String
  pub tags : List String
  pub metadata : Fields
  pub created_at : ℕ
  pub updated_at : ℕ

-- `Partial<RetryConfig>`
pub record RetryConfigDto : Type 0 where
  pub max_retries : Option ℕ
  pub retry_delay : Option ℕ
  pub retry_backoff : Option RetryBackoff
  pub retry_on : Option (List String)

pub record CreateJobDto : Type 0 where
  pub name : String
  pub description : Option String
  pub type : JobType
  pub payload : Fields
  pub priority : Option JobPriority
  pub scheduled_at : Option ℕ
  pub cron_expression : Option String
  pub timezone : Option String
  pub timeout_ms : Option ℕ
  pub retry_config : Option RetryConfigDto
  pub dependencies : Option (List JobDependency)
  pub tags : Option (List String)
  pub metadata : Option Fields
  pub organization_id : String
  pub created_by : String

-- A field is `none` where the caller leaves it out or sets it to `undefined`.
pub record UpdateJobDto : Type 0 where
  pub status : Option JobStatus
  pub worker_id : Option String
  pub started_at : Option ℕ
  pub completed_at : Option ℕ
  pub result : Option Fields
  pub error_message : Option String
  pub error_stack : Option String
  pub exit_code : Option ℕ
  pub retry_count : Option ℕ
  pub next_run_at : Option ℕ
  pub last_run_at : Option ℕ
  pub resolved_dependency_count : Option ℕ
