-- ===== src/JobService.antt =====
-- src/services/JobService.ts; `createJob` and the reads stand in JobService/Reports.
-- A method returns what it returns or throws, and the table `jobs`.
pub mod Tenancy
pub mod Lifecycle
pub mod Bulk
pub mod Reports
pub mod Create
pub mod Stats
mod Tests
use backend_task_orchestrati.Prelude.{
  ℕ, Bool, true, false, not, String, Option, none, some, List, [], ◌∷◌, ◌++◌, if◌then◌else◌,
}
use backend_task_orchestrati.Prelude.Eq.{◌==◌, string_eq, elem}
use backend_task_orchestrati.Models.Job.{
  JobStatus, pending, completed, failed, cancelled, timed_out, status_eq, Job, UpdateJobDto,
}
use backend_task_orchestrati.JobRepository.{Jobs, find_by_id, update, no_update}

-- `NotFoundError`, `ForbiddenError`, `ConflictError`, and the plain `Error`s.
pub data ServiceError : Type 0 where
  not_found forbidden conflict failure : ServiceError

pub data Result (A : Type 0) : Type 0 where
  ok : A → Result A
  err : ServiceError → Result A

unfoldable pub get_job : String → String → Jobs → Result Job
get_job id organization_id table = elim (find_by_id id table) [
  | none ↦ err not_found
  | some job ↦ if not (job.organization_id == organization_id) then err forbidden else ok job
]

-- `if (!updated) throw …; return updated`
abbrev pub updated_or : Option Job × Jobs → Result Job × Jobs
updated_or (none, table) = (err failure, table)
updated_or (some job, table) = (ok job, table)

abbrev pub cancellation : ℕ → UpdateJobDto
cancellation now = record no_update { status = some cancelled; completed_at = some now }

unfoldable pub cancel_job : ℕ → String → String → Jobs → Result Job × Jobs
cancel_job now id organization_id table = elim (get_job id organization_id table) [
  | err e ↦ (err e, table)
  | ok job ↦
      if elem job.status (completed ∷ failed ∷ cancelled ∷ [])
      then (err conflict, table)
      else updated_or (update now id (cancellation now) table)
]

-- `workerId: undefined` and the like stand for no assignment.
abbrev pub reset : UpdateJobDto
reset = record no_update { status = some pending }

unfoldable pub retry_job : ℕ → String → String → Jobs → Result Job × Jobs
retry_job now id organization_id table = elim (get_job id organization_id table) [
  | err e ↦ (err e, table)
  | ok job ↦
      if not (elem job.status (failed ∷ cancelled ∷ timed_out ∷ []))
      then (err conflict, table)
      else updated_or (update now id reset table)
]

pub record BulkResult : Type 0 where
  pub cancelled_ids : List String
  pub skipped_ids : List String

abbrev pub sorted_into : String → Result Job → BulkResult → BulkResult
sorted_into id (ok job) r = record r { cancelled_ids = r.cancelled_ids ++ id ∷ [] }
sorted_into id (err e) r = record r { skipped_ids = r.skipped_ids ++ id ∷ [] }

unfoldable pub bulk_cancel_loop : ℕ → List String → String → BulkResult → Jobs → BulkResult × Jobs
bulk_cancel_loop now [] organization_id result table = (result, table)
bulk_cancel_loop now (id ∷ rest) organization_id result table =
    let (outcome, table') = cancel_job now id organization_id table in
    bulk_cancel_loop now rest organization_id (sorted_into id outcome result) table'

unfoldable pub bulk_cancel : ℕ → List String → String → Jobs → BulkResult × Jobs
bulk_cancel now chosen organization_id table =
    bulk_cancel_loop now chosen organization_id (record { cancelled_ids = []; skipped_ids = [] })
      table
