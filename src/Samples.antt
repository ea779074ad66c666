-- ===== src/Samples.antt =====
-- Small jobs and workers, at which the tests of the modules run.
use backend_task_orchestrati.Prelude.{ℕ, String, none, some, List, [], ◌∷◌, false}
use backend_task_orchestrati.Models.Json.{str, end}
use backend_task_orchestrati.JobExecutor.{Process}
use backend_task_orchestrati.JobExecutor.Runs.{World, refused, finished}
use backend_task_orchestrati.Models.Job.{
  JobStatus, pending, running, medium, custom, exponential, completed, JobDependency, Job,
}
use backend_task_orchestrati.Models.Worker.{online, WorkerNode}

abbrev pub plain_job : String → Job
plain_job id = record {
  id = id;
  name = "report";
  description = none;
  type = custom;
  payload = end;
  status = pending;
  priority = medium;
  scheduled_at = none;
  cron_expression = none;
  timezone = some "UTC";
  next_run_at = none;
  last_run_at = none;
  worker_id = none;
  started_at = none;
  completed_at = none;
  timeout_ms = 300_000;
  retry_config = record {
    max_retries = 3;
    retry_delay = 5000;
    retry_backoff = exponential;
    retry_on = [];
  };
  retry_count = 0;
  max_retries = 3;
  dependencies = [];
  dependency_count = 0;
  resolved_dependency_count = 0;
  result = none;
  error_message = none;
  error_stack = none;
  exit_code = none;
  organization_id = "acme";
  created_by = "ann";
  tags = [];
  metadata = end;
  created_at = 0;
  updated_at = 0;
}

abbrev pub job_in : String → JobStatus → Job
job_in id status = record (plain_job id) { status = status }

-- A job that waits for others to complete.
abbrev pub after_all : String → List JobDependency → Job
after_all id dependencies = record (plain_job id) { dependencies = dependencies }

abbrev pub completion_of : String → JobDependency
completion_of id = record { job_id = id; require_status = completed ∷ [] }

abbrev pub stalled_job : String → ℕ → Job
stalled_job id at = record (plain_job id) {
  status = running;
  started_at = some at;
  worker_id = some "w";
}

abbrev pub plain_worker : String → ℕ → WorkerNode
plain_worker id load = record {
  id = id;
  hostname = "host";
  ip_address = "10.0.0.1";
  pid = 1;
  version = "1.0.0";
  status = online;
  capabilities = record {
    job_types = "CUSTOM" ∷ [];
    max_concurrency = 4;
    gpu_enabled = false;
    region = none;
    labels = [];
  };
  stats = record {
    total_jobs_processed = some 0;
    total_jobs_succeeded = some 0;
    total_jobs_failed = some 0;
    total_jobs_timed_out = some 0;
    uptime_ms = some 0;
  };
  current_job_count = load;
  max_concurrency = 4;
  last_heartbeat_at = 0;
  registered_at = 0;
  updated_at = 0;
}

abbrev pub plain_process : Process
plain_process = record {
  cwd = str "/";
  env = end;
  clock = record { now = 5; iso = "1970-01-01T00:00:00.005Z" };
  handlers = [];
}

-- No host answers, and a command prints nothing.
abbrev pub silent_world : World
silent_world = record {
  stack_of = λ message. none;
  answer_http = λ request. refused "connect ECONNREFUSED" none none;
  answer_shell = λ command. finished "" "";
}
