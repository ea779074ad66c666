-- ===== src/WorkerService/Tests.antt =====
-- The theorem on the check at two workers.
use backend_task_orchestrati.Prelude.{[], ◌∷◌}
use backend_task_orchestrati.Samples.{plain_worker}
use backend_task_orchestrati.WorkerRepository.{Workers}
use backend_task_orchestrati.WorkerService.{check_workers}
use backend_task_orchestrati.WorkerService.Health.{Checked, check_workers_correct}

abbrev two_workers : Workers
two_workers = plain_worker "v" 1 ∷ plain_worker "w" 0 ∷ []

check_workers_correct_example :
    Checked 40000 two_workers
      (check_workers 40000 two_workers).0
      (check_workers 40000 two_workers).2
check_workers_correct_example = check_workers_correct 40000 two_workers
