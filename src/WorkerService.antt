-- ===== src/WorkerService.antt =====
-- src/services/WorkerService.ts, and the check of src/monitoring/HealthCheck.ts
-- A notification is the id and the host of the worker that was lost.
pub mod Health
mod Tests
use backend_task_orchestrati.Prelude.{
  ℕ, ◌+◌, Bool, String, Option, none, some, List, [], ◌∷◌, ◌++◌, length, filter, if◌then◌else◌,
}
use backend_task_orchestrati.Prelude.Eq.{◌==◌}
use backend_task_orchestrati.Models.Worker.{
  WorkerStatus, online, busy, offline, lost, worker_status_eq, WorkerNode, RegisterWorkerDto,
  WorkerHeartbeatDto,
}
use backend_task_orchestrati.WorkerRepository
use backend_task_orchestrati.WorkerRepository.{Workers, find_worker, find_all, mark_lost_workers}

abbrev pub register_worker :
    ℕ → String → RegisterWorkerDto → Workers → Option (WorkerNode × Workers)
register_worker = WorkerRepository.register

-- `none` stands for the error that the worker is not found.
abbrev pub get_worker : String → Workers → Option WorkerNode
get_worker = find_worker

-- A filter without a status lists every row.
abbrev pub list_workers : Option (List WorkerStatus) → Workers → Workers
list_workers none workers = workers
list_workers (some statuses) workers = find_all statuses workers

abbrev pub heartbeat : ℕ → WorkerHeartbeatDto → Workers → Workers
heartbeat = WorkerRepository.heartbeat

unfoldable pub notify_lost : List String → Workers → List (String × String)
notify_lost [] workers = []
notify_lost (id ∷ ids) workers =
    let rest = notify_lost ids workers in
    elim (find_worker id workers) [ none ↦ rest | some w ↦ (id, w.hostname) ∷ rest ]

-- The ids, the notifications and the table.
unfoldable pub detect_and_mark_lost_workers :
    ℕ → ℕ → Workers → List String × List (String × String) × Workers
detect_and_mark_lost_workers now heartbeat_timeout_ms workers =
    let (lost_ids, workers') = mark_lost_workers now heartbeat_timeout_ms workers in
    (lost_ids, notify_lost lost_ids workers', workers')

pub record WorkerMetrics : Type 0 where
  pub total : ℕ
  pub online_count : ℕ
  pub busy_count : ℕ
  pub offline_count : ℕ
  pub lost_count : ℕ
  pub total_capacity : ℕ
  pub used_capacity : ℕ

unfoldable pub count_in : WorkerStatus → Workers → ℕ
count_in status [] = 0
count_in status (w ∷ workers) = (if w.status == status then 1 else 0) + count_in status workers

unfoldable pub sum_by : (WorkerNode → ℕ) → Workers → ℕ
sum_by f [] = 0
sum_by f (w ∷ workers) = f w + sum_by f workers

unfoldable pub get_worker_metrics : Workers → WorkerMetrics
get_worker_metrics all = record {
  total = length all;
  online_count = count_in online all;
  busy_count = count_in busy all;
  offline_count = count_in offline all;
  lost_count = count_in lost all;
  total_capacity = sum_by (λ w. w.max_concurrency) all;
  used_capacity = sum_by (λ w. w.current_job_count) all;
}

-- `checkWorkers`, with the timeout of half a minute.
abbrev pub check_workers : ℕ → Workers → List String × List (String × String) × Workers
check_workers now workers = detect_and_mark_lost_workers now 30000 workers
