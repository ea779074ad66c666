-- ===== src/Models/Filter.antt =====
-- src/models/Job.ts: the filter of a query for jobs, and a page of its answer.
use backend_task_orchestrati.Prelude.{ℕ, String, Option, List}
use backend_task_orchestrati.Models.Job.{JobStatus, JobPriority, JobType, Job}

-- `T | T[]`
pub data OneOrMany (A : Type 0) : Type 0 where
  one : A → OneOrMany A
  many : List A → OneOrMany A

pub data SortBy : Type 0 where
  by_created_at by_scheduled_at by_priority by_status : SortBy

pub data SortOrder : Type 0 where
  ascending descending : SortOrder

pub record JobFilter : Type 0 where
  pub status : Option (OneOrMany JobStatus)
  pub priority : Option (OneOrMany JobPriority)
  pub type : Option JobType
  pub organization_id : Option String
  pub created_by : Option String
  pub tags : Option (List String)
  pub scheduled_before : Option ℕ
  pub scheduled_after : Option ℕ
  pub created_before : Option ℕ
  pub created_after : Option ℕ
  pub search : Option String
  pub page : Option ℕ
  pub limit : Option ℕ
  pub sort_by : Option SortBy
  pub sort_order : Option SortOrder

pub record PaginatedJobs : Type 0 where
  pub jobs : List Job
  pub total : ℕ
  pub page : ℕ
  pub limit : ℕ
  pub total_pages : Option ℕ
