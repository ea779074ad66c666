-- ===== src/Models/Worker.antt =====
-- src/models/Worker.ts
use backend_task_orchestrati.Prelude.{ℕ, ◌≡◌, ◌↔◌, Bool, true, String, Option, List, arith, nat_beq}
use backend_task_orchestrati.Prelude.Eq.{Eq}

pub data WorkerStatus : Type 0 where
  online busy draining offline lost : WorkerStatus

abbrev pub worker_status_code : WorkerStatus → ℕ
worker_status_code online = 0
worker_status_code busy = 1
worker_status_code draining = 2
worker_status_code offline = 3
worker_status_code lost = 4

abbrev pub worker_status_beq : WorkerStatus → WorkerStatus → Bool
worker_status_beq a b = nat_beq (worker_status_code a) (worker_status_code b)

pub worker_status_beq_iff : (a b : WorkerStatus) → (worker_status_beq a b ≡ true) ↔ (a ≡ b)
worker_status_beq_iff a b = ground arith

instance abbrev pub worker_status_eq : Eq WorkerStatus
worker_status_eq = record { equal = worker_status_beq; equal_iff = worker_status_beq_iff }

pub record WorkerCapabilities : Type 0 where
  pub job_types : List String
  pub max_concurrency : ℕ
  pub gpu_enabled : Bool
  pub region : Option String
  pub labels : List (String × String)

-- A field is `none` where a heartbeat left it out, since a heartbeat writes the whole column.
-- `averageJobDurationMs` and `currentLoad` are fractions that nothing reads, and are left out.
pub record WorkerStats : Type 0 where
  pub total_jobs_processed : Option ℕ
  pub total_jobs_succeeded : Option ℕ
  pub total_jobs_failed : Option ℕ
  pub total_jobs_timed_out : Option ℕ
  pub uptime_ms : Option ℕ

pub record WorkerNode : Type 0 where
  pub id : String
  pub hostname : String
  pub ip_address : String
  pub pid : ℕ
  pub version : String
  pub status : WorkerStatus
  pub capabilities : WorkerCapabilities
  pub stats : WorkerStats
  pub current_job_count : ℕ
  pub max_concurrency : ℕ
  pub last_heartbeat_at : ℕ
  pub registered_at : ℕ
  pub updated_at : ℕ

pub record RegisterWorkerDto : Type 0 where
  pub hostname : String
  pub ip_address : String
  pub pid : ℕ
  pub version : String
  pub capabilities : WorkerCapabilities

pub record WorkerHeartbeatDto : Type 0 where
  pub worker_id : String
  pub status : WorkerStatus
  pub current_job_count : ℕ
  pub stats : WorkerStats
  pub timestamp : ℕ
