-- ===== src/JobRepository.antt =====
-- src/db/repositories/JobRepository.ts over the table `jobs` of src/db/migrations/002_create_jobs.sql.
-- The table is the list of its rows, and a row is the model that `fromRow` builds from it. A
-- statement runs alone; `now` is the clock that it reads. Each update sets `updated_at`, as the
-- table's trigger does.
pub mod Rows
pub mod Claim
pub mod Batch
pub mod Query
pub mod Pages
mod Tests
use backend_task_orchestrati.Prelude.{
  ℕ, ◌-◌, ◌*◌, ◌/◌, ◌+◌, Bool, true, false, not, ◌&&◌, ◌||◌, String, Option, none, some, List, [],
  ◌∷◌, ◌++◌, map, ltb, leb, if◌then◌else◌, or_else, is_some, length, take, drop, filter,
}
use backend_task_orchestrati.Prelude.Eq.{◌==◌, nat_eq, string_eq, elem}
use backend_task_orchestrati.Prelude.Sort.{sort_by}
use backend_task_orchestrati.Models.Json.{end}
use backend_task_orchestrati.Models.Job.{
  JobStatus, pending, queued, running, status_eq, JobPriority, critical, high, medium, low,
  background, exponential, RetryConfig, RetryConfigDto, JobDependency, Job, CreateJobDto,
  UpdateJobDto,
}

abbrev pub Jobs : Type 0
Jobs = List Job

abbrev pub ids : Jobs → List String
ids table = map (λ j. j.id) table

unfoldable pub find_by_id : String → Jobs → Option Job
find_by_id id [] = none
find_by_id id (j ∷ table) = if j.id == id then some j else find_by_id id table

-- `dto.retryConfig?.field ?? fallback`
abbrev pub configured : {A : Type 0} → (RetryConfigDto → Option A) → A → CreateJobDto → A
configured field fallback dto = elim dto.retry_config [
  | none ↦ fallback
  | some config ↦ or_else (field config) fallback
]

-- The row that `create` inserts.
unfoldable pub new_job : ℕ → String → CreateJobDto → Job
new_job now id dto =
    let max_retries = configured (λ c. c.max_retries) 3 dto in
    let dependencies = or_else dto.dependencies [] in
    record {
      id = id;
      name = dto.name;
      description = dto.description;
      type = dto.type;
      payload = dto.payload;
      status = pending;
      priority = or_else dto.priority medium;
      scheduled_at = dto.scheduled_at;
      cron_expression = dto.cron_expression;
      timezone = some (or_else dto.timezone "UTC");
      next_run_at = none;
      last_run_at = none;
      worker_id = none;
      started_at = none;
      completed_at = none;
      timeout_ms = or_else dto.timeout_ms 300_000;
      retry_config = record {
        max_retries = max_retries;
        retry_delay = configured (λ c. c.retry_delay) 5000 dto;
        retry_backoff = configured (λ c. c.retry_backoff) exponential dto;
        retry_on = configured (λ c. c.retry_on) [] dto;
      };
      retry_count = 0;
      max_retries = max_retries;
      dependencies = dependencies;
      dependency_count = length dependencies;
      resolved_dependency_count = 0;
      result = none;
      error_message = none;
      error_stack = none;
      exit_code = none;
      organization_id = dto.organization_id;
      created_by = dto.created_by;
      tags = or_else dto.tags [];
      metadata = or_else dto.metadata end;
      created_at = now;
      updated_at = now;
    }

-- `id` is the identifier that `generateId` made. The primary key refuses one that is in use.
unfoldable pub create : ℕ → String → CreateJobDto → Jobs → Option (Job × Jobs)
create now id dto table =
    let job = new_job now id dto in
    if elem id (ids table) then none else some (job, table ++ job ∷ [])

-- `SET column = value` for a field that `toRow` keeps: one that is not `undefined`.
abbrev pub assigned : {A : Type 0} → Option A → Option A → Option A
assigned (some a) old = some a
assigned none old = old

unfoldable pub apply_update : ℕ → UpdateJobDto → Job → Job
apply_update now dto j = record j {
  status = or_else dto.status j.status;
  worker_id = assigned dto.worker_id j.worker_id;
  started_at = assigned dto.started_at j.started_at;
  completed_at = assigned dto.completed_at j.completed_at;
  result = assigned dto.result j.result;
  error_message = assigned dto.error_message j.error_message;
  error_stack = assigned dto.error_stack j.error_stack;
  exit_code = assigned dto.exit_code j.exit_code;
  retry_count = or_else dto.retry_count j.retry_count;
  next_run_at = assigned dto.next_run_at j.next_run_at;
  last_run_at = assigned dto.last_run_at j.last_run_at;
  resolved_dependency_count = or_else dto.resolved_dependency_count j.resolved_dependency_count;
  updated_at = now;
}

-- `UPDATE … WHERE test`
unfoldable pub update_where : (Job → Bool) → (Job → Job) → Jobs → Jobs
update_where test change [] = []
update_where test change (j ∷ table) =
    (if test j then change j else j) ∷ update_where test change table

-- The updated row, if there is one, and the table.
unfoldable pub update : ℕ → String → UpdateJobDto → Jobs → Option Job × Jobs
update now id dto table =
    let changed = update_where (λ j. j.id == id) (apply_update now dto) table in
    (find_by_id id changed, changed)

unfoldable pub delete : String → Jobs → Bool × Jobs
delete id table =
    let kept = filter (λ j. not (j.id == id)) table in (ltb 0 (length table - length kept), kept)

-- `(scheduled_at IS NULL OR scheduled_at <= :now)`
abbrev pub is_due : ℕ → Option ℕ → Bool
is_due now none = true
is_due now (some t) = leb t now

unfoldable pub is_runnable : ℕ → Job → Bool
is_runnable now j =
    j.status == pending
    && (is_due now j.scheduled_at && j.dependency_count == j.resolved_dependency_count)

abbrev pub priority_rank : JobPriority → ℕ
priority_rank critical = 1
priority_rank high = 2
priority_rank medium = 3
priority_rank low = 4
priority_rank background = 5

-- `scheduled_at ASC NULLS LAST`
abbrev pub scheduled_before : Option ℕ → Option ℕ → Bool
scheduled_before none b = false
scheduled_before (some s) none = true
scheduled_before (some s) (some t) = ltb s t

-- The ORDER BY of `claimPendingJobs`.
unfoldable pub claims_before : Job → Job → Bool
claims_before a b =
    ltb (priority_rank a.priority) (priority_rank b.priority)
    || priority_rank a.priority == priority_rank b.priority
      && (scheduled_before a.scheduled_at b.scheduled_at
          || not (scheduled_before b.scheduled_at a.scheduled_at) && ltb a.created_at b.created_at)

-- The subquery. `locked` tells the rows that other transactions hold, which SKIP LOCKED leaves out.
unfoldable pub candidates : ℕ → (String → Bool) → Jobs → Jobs
candidates now locked table =
    sort_by claims_before (filter (λ j. is_runnable now j && not (locked j.id)) table)

unfoldable pub mark_queued : ℕ → Job → Job
mark_queued now j = record j { status = queued; updated_at = now }

-- The claimed rows, here in the order of the table (RETURNING promises none), and the table.
unfoldable pub claim_pending_jobs : ℕ → (String → Bool) → ℕ → Jobs → Jobs × Jobs
claim_pending_jobs now locked limit table =
    let chosen = ids (take limit (candidates now locked table)) in
    let changed = update_where (λ j. elem j.id chosen) (mark_queued now) table in
    (filter (λ j. elem j.id chosen) changed, changed)

-- `started_at <= threshold`, which holds of no NULL. The threshold may lie before the epoch.
abbrev pub started_by : ℕ → ℕ → Option ℕ → Bool
started_by now age none = false
started_by now age (some t) = leb (t + age) now

unfoldable pub is_stalled : ℕ → ℕ → Job → Bool
is_stalled now age j = j.status == running && started_by now age j.started_at

unfoldable pub find_stalled_jobs : ℕ → ℕ → Jobs → Jobs
find_stalled_jobs now age table = filter (is_stalled now age) table

-- `dependencies @> '[{"jobId": id}]'`
unfoldable pub depends_on : String → List JobDependency → Bool
depends_on id deps = elem id (map (λ d. d.job_id) deps)

unfoldable pub resolve_dependency : ℕ → String → Jobs → Jobs
resolve_dependency now completed_id table =
    update_where (λ j. depends_on completed_id j.dependencies && j.status == pending)
      (λ j. record j {
        resolved_dependency_count = j.resolved_dependency_count + 1;
        updated_at = now;
      })
      table

unfoldable pub bulk_update_status : ℕ → List String → JobStatus → Jobs → Jobs
bulk_update_status now chosen status table =
    update_where (λ j. elem j.id chosen) (λ j. record j { status = status; updated_at = now }) table

-- `for (const job of jobs) await jobRepository.update(job.id, dto(job))`
unfoldable pub update_each : ℕ → (Job → UpdateJobDto) → Jobs → Jobs → Jobs
update_each now dto [] table = table
update_each now dto (job ∷ jobs) table =
    update_each now dto jobs (update now job.id (dto job) table).1

-- The update that sets no column.
abbrev pub no_update : UpdateJobDto
no_update = record {
  status = none;
  worker_id = none;
  started_at = none;
  completed_at = none;
  result = none;
  error_message = none;
  error_stack = none;
  exit_code = none;
  retry_count = none;
  next_run_at = none;
  last_run_at = none;
  resolved_dependency_count = none;
}
