-- ===== src/WorkerProcess/Life.antt =====
-- src/workers/WorkerNode.ts: the registration of a worker process, its heartbeats and its shutdown, over
-- the table of workers. `getActiveCount` and the environment are inputs.
use backend_task_orchestrati.Prelude.{
  ℕ, ◌-◌, ◌≡◌, refl, false, String, Option, none, some, [], ◌∷◌, ltb, or_else, if◌then◌else◌, arith,
  Bool-cases, inl, inr,
}
use backend_task_orchestrati.Prelude.Eq.{◌==◌, string_eq, elem}
use backend_task_orchestrati.Models.Worker.{
  online, busy, draining, offline, worker_status_eq, RegisterWorkerDto, WorkerHeartbeatDto,
}
use backend_task_orchestrati.WorkerRepository.{Workers, update_status, is_silent, mark_lost_workers}

-- What the process reads of its machine and configuration.
pub record Machine : Type 0 where
  pub hostname : String
  pub ip_address : String
  pub pid : ℕ
  pub package_version : Option String
  pub concurrency : ℕ
  pub worker_region : Option String
  pub app_env : String

abbrev pub register_dto : Machine → RegisterWorkerDto
register_dto m = record {
  hostname = m.hostname;
  ip_address = m.ip_address;
  pid = m.pid;
  version = or_else m.package_version "1.0.0";
  capabilities = record {
    job_types =
        "HTTP_REQUEST" ∷ "SHELL_COMMAND" ∷ "DATA_PIPELINE" ∷ "EMAIL_NOTIFICATION"
        ∷ "REPORT_GENERATION" ∷ "FILE_PROCESSING" ∷ "DATABASE_CLEANUP" ∷ "WEBHOOK" ∷ "CUSTOM" ∷ [];
    max_concurrency = m.concurrency;
    gpu_enabled = false;
    region = some (or_else m.worker_region "us-east-1");
    labels = ("env", m.app_env) ∷ ("version", or_else m.package_version "1.0.0") ∷ [];
  };
}

-- The heartbeat of a worker with so many active jobs.
abbrev pub heartbeat_dto : ℕ → ℕ → String → ℕ → WorkerHeartbeatDto
heartbeat_dto now started_at worker_id active = record {
  worker_id = worker_id;
  status = if ltb 0 active then busy else online;
  current_job_count = active;
  stats = record {
    total_jobs_processed = none;
    total_jobs_succeeded = none;
    total_jobs_failed = none;
    total_jobs_timed_out = none;
    uptime_ms = some (now - started_at);
  };
  timestamp = now;
}

-- `close` runs between the two clocks.
unfoldable pub shutdown : ℕ → ℕ → String → Workers → Workers
shutdown now closed worker_id workers =
    update_status closed worker_id offline (update_status now worker_id draining workers)

-- After its shutdown no sweep for lost workers, at whatever time and timeout, reports a worker.
pub shutdown_not_lost :
    (now closed at timeout : ℕ) (id : String) (workers : Workers)
    → elem id (mark_lost_workers at timeout (shutdown now closed id workers)).0 ≡ false
unfolding shutdown update_status mark_lost_workers is_silent elem
shutdown_not_lost now closed at timeout id [] = refl
shutdown_not_lost now closed at timeout id (w ∷ workers) = elim (Bool-cases (w.id == id)) [
  | inl same ↦ rw (same, same) (shutdown_not_lost now closed at timeout id workers)
  | inr other ↦
      rw (other, other)
        (elim (Bool-cases (is_silent at timeout w)) [
          | inl silent ↦
              rw silent (ground (arith, other, shutdown_not_lost now closed at timeout id workers))
          | inr heard ↦ rw heard (shutdown_not_lost now closed at timeout id workers)
        ])
]
