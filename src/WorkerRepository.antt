-- ===== src/WorkerRepository.antt =====
-- src/db/repositories/WorkerRepository.ts over the table of workers, a list of its rows.
pub mod Liveness
mod Tests
use backend_task_orchestrati.Prelude.{
  ℕ, ◌+◌, ◌-◌, ◌*◌, Bool, true, false, ◌&&◌, String, Option, none, some, List, [], ◌∷◌, ◌++◌, map,
  ltb, if◌then◌else◌, filter,
}
use backend_task_orchestrati.Prelude.Eq.{◌==◌, string_eq, elem}
use backend_task_orchestrati.Prelude.Sort.{sort_by}
use backend_task_orchestrati.Models.Worker.{
  WorkerStatus, online, busy, lost, worker_status_eq, WorkerNode, RegisterWorkerDto,
  WorkerHeartbeatDto,
}

abbrev pub Workers : Type 0
Workers = List WorkerNode

unfoldable pub new_worker : ℕ → String → RegisterWorkerDto → WorkerNode
new_worker now id dto = record {
  id = id;
  hostname = dto.hostname;
  ip_address = dto.ip_address;
  pid = dto.pid;
  version = dto.version;
  status = online;
  capabilities = dto.capabilities;
  stats = record {
    total_jobs_processed = some 0;
    total_jobs_succeeded = some 0;
    total_jobs_failed = some 0;
    total_jobs_timed_out = some 0;
    uptime_ms = some 0;
  };
  current_job_count = 0;
  max_concurrency = dto.capabilities.max_concurrency;
  last_heartbeat_at = now;
  registered_at = now;
  updated_at = now;
}

-- `id` is the identifier that `generateId` made. The primary key refuses one that is in use.
unfoldable pub register : ℕ → String → RegisterWorkerDto → Workers → Option (WorkerNode × Workers)
register now id dto workers =
    let worker = new_worker now id dto in
    if elem id (map (λ (w : WorkerNode). w.id) workers)
    then none
    else some (worker, workers ++ worker ∷ [])

unfoldable pub find_worker : String → Workers → Option WorkerNode
find_worker id [] = none
find_worker id (w ∷ workers) = if w.id == id then some w else find_worker id workers

-- An empty list of statuses selects no row; `findAll` without a filter is the table.
unfoldable pub find_all : List WorkerStatus → Workers → Workers
find_all statuses workers = filter (λ w. elem w.status statuses) workers

abbrev pub beat : ℕ → WorkerHeartbeatDto → WorkerNode → WorkerNode
beat now dto w = record w {
  status = dto.status;
  current_job_count = dto.current_job_count;
  last_heartbeat_at = dto.timestamp;
  stats = dto.stats;
  updated_at = now;
}

unfoldable pub heartbeat : ℕ → WorkerHeartbeatDto → Workers → Workers
heartbeat now dto [] = []
heartbeat now dto (w ∷ workers) =
    (if w.id == dto.worker_id then beat now dto w else w) ∷ heartbeat now dto workers

unfoldable pub update_status : ℕ → String → WorkerStatus → Workers → Workers
update_status now id status [] = []
update_status now id status (w ∷ workers) =
    (if w.id == id then record w { status = status; updated_at = now } else w)
    ∷ update_status now id status workers

-- A worker at work whose last heartbeat came before `now - heartbeatTimeoutMs`, which may lie
-- before the epoch.
unfoldable pub is_silent : ℕ → ℕ → WorkerNode → Bool
is_silent now heartbeat_timeout_ms w =
    elem w.status (online ∷ busy ∷ []) && ltb (w.last_heartbeat_at + heartbeat_timeout_ms) now

abbrev pub marked_lost : ℕ → WorkerNode → WorkerNode
marked_lost now w = record w { status = lost; updated_at = now }

-- The ids of the rows that are marked, and the table.
unfoldable pub mark_lost_workers : ℕ → ℕ → Workers → List String × Workers
mark_lost_workers now heartbeat_timeout_ms [] = ([], [])
mark_lost_workers now heartbeat_timeout_ms (w ∷ workers) =
    let (ids, workers') = mark_lost_workers now heartbeat_timeout_ms workers in
    if is_silent now heartbeat_timeout_ms w
    then (w.id ∷ ids, marked_lost now w ∷ workers')
    else (ids, w ∷ workers')

-- `delta: 1 | -1`
pub data Delta : Type 0 where
  one_more one_less : Delta

-- `GREATEST(0, current_job_count + delta)`
abbrev pub moved : Delta → ℕ → ℕ
moved one_more n = n + 1
moved one_less n = n - 1

unfoldable pub increment_job_count : ℕ → String → Delta → Workers → Workers
increment_job_count now id delta [] = []
increment_job_count now id delta (w ∷ workers) =
    (if w.id == id
      then record w { current_job_count = moved delta w.current_job_count; updated_at = now }
      else w)
    ∷ increment_job_count now id delta workers

-- `current_job_count < max_concurrency`, with a status and a type of job that fit.
abbrev pub can_take : String → WorkerNode → Bool
can_take job_type w =
    elem w.status (online ∷ busy ∷ [])
    && elem job_type w.capabilities.job_types
    && ltb w.current_job_count w.max_concurrency

-- The order of the loads; the fractions are exact here, and no maximum is 0 among the rows ordered.
abbrev pub lighter : WorkerNode → WorkerNode → Bool
lighter a b =
    ltb (a.current_job_count * b.max_concurrency) (b.current_job_count * a.max_concurrency)

abbrev pub first_worker : Workers → Option WorkerNode
first_worker [] = none
first_worker (w ∷ workers) = some w

unfoldable pub find_best_worker : String → Workers → Option WorkerNode
find_best_worker job_type workers =
    first_worker (sort_by lighter (filter (can_take job_type) workers))
