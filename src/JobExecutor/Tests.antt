-- ===== src/JobExecutor/Tests.antt =====
-- The theorems on the executor at small jobs.
use backend_task_orchestrati.Prelude.{◌≡◌, refl, some}
use backend_task_orchestrati.Models.Json.{str, arr, obj, Items, nil, cons, Fields, end, field}
use backend_task_orchestrati.Models.Job.{Job, JobType}
use backend_task_orchestrati.Samples.{plain_job, plain_process, silent_world}
use backend_task_orchestrati.JobExecutor.Values.{get}
use backend_task_orchestrati.JobExecutor.{dispatch, execution_first, execute}
use backend_task_orchestrati.JobExecutor.Safety.{
  IsReport, Always, IsAllowed, elapsed, dispatch_safe, execute_correct,
}

abbrev listing : Job
listing = record (plain_job "a") {
  type = JobType.shell_command;
  payload = field "command" (str "ls -l") end;
}

abbrev two_steps : Items
two_steps = cons (obj (field "name" (str "load") end)) (cons (obj end) nil)

abbrev pipeline : Fields
pipeline = field "steps" (arr two_steps) end

steps_found : get "steps" pipeline ≡ some (arr two_steps)
unfolding get
steps_found = refl

dispatch_safe_example : Always (IsAllowed listing) (dispatch plain_process listing)
dispatch_safe_example = dispatch_safe plain_process listing

execute_correct_example :
    IsReport (execute plain_process silent_world (execution_first 7) listing)
    × ((execute plain_process silent_world (execution_first 7) listing).duration_ms
        ≡ elapsed (execution_first 7))
execute_correct_example = execute_correct plain_process silent_world (execution_first 7) listing
