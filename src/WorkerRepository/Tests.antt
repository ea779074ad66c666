-- ===== src/WorkerRepository/Tests.antt =====
-- The theorems on workers at a small table.
use backend_task_orchestrati.Prelude.{[], ◌∷◌}
use backend_task_orchestrati.Prelude.Eq.{string_eq}
use backend_task_orchestrati.Models.Worker.{WorkerHeartbeatDto, busy}
use backend_task_orchestrati.Samples.{plain_worker}
use backend_task_orchestrati.WorkerRepository.{Workers}

abbrev two_workers : Workers
two_workers = plain_worker "a" 1 ∷ plain_worker "b" 2 ∷ []

abbrev from_a : WorkerHeartbeatDto
from_a = record {
  worker_id = "a";
  status = busy;
  current_job_count = 2;
  stats = (plain_worker "a" 1).stats;
  timestamp = 40;
}
