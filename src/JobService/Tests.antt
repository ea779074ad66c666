-- ===== src/JobService/Tests.antt =====
-- The theorems on the service at a small table.
use backend_task_orchestrati.Prelude.{◌≡◌, refl, true, false, some, [], ◌∷◌, ◌++◌, All, Perm}
use backend_task_orchestrati.Prelude.Eq.{string_eq, elem}
use backend_task_orchestrati.Models.Job.{
  Job, pending, running, completed, failed, cancelled, timed_out, status_eq,
}
use backend_task_orchestrati.Prelude.{String, Bool, none}
use backend_task_orchestrati.Models.Json.{end}
use backend_task_orchestrati.Models.Job.{custom, CreateJobDto}
use backend_task_orchestrati.Models.Filter.{JobFilter}
use backend_task_orchestrati.JobService.Reports.{get_job_stats}
use backend_task_orchestrati.JobService.Stats.{IsReportOf, get_job_stats_correct}
use backend_task_orchestrati.Samples.{job_in, completion_of}
use backend_task_orchestrati.JobRepository.{Jobs, find_by_id, update_where, update, apply_update}
use backend_task_orchestrati.JobService.{
  ok, err, conflict, get_job, cancel_job, retry_job, bulk_cancel,
}
use backend_task_orchestrati.JobService.Tenancy.{Untouched, single_tenancy}
use backend_task_orchestrati.JobService.Lifecycle.{Replaced, cancel_job_correct, retry_job_keeps}
use backend_task_orchestrati.JobService.Bulk.{IsCancelled, bulk_cancel_correct}

abbrev running_job : Job
running_job = record (job_in "a" running) { worker_id = some "w"; started_at = some 3 }

abbrev failed_job : Job
failed_job = record (job_in "b" failed) { error_message = some "lost" }

abbrev table : Jobs
table = running_job ∷ failed_job ∷ []

found_a : find_by_id "a" table ≡ some running_job
unfolding find_by_id
found_a = refl

found_b : find_by_id "b" table ≡ some failed_job
unfolding find_by_id
found_b = refl

b_ended : elem failed (failed ∷ cancelled ∷ timed_out ∷ []) ≡ true
unfolding elem
b_ended = refl

a_cancelled :
    (cancel_job 7 "a" "acme" table).0
    ≡ ok (record running_job { status = cancelled; completed_at = some 7; updated_at = 7 })
unfolding cancel_job get_job find_by_id elem update update_where apply_update
a_cancelled = refl

single_tenancy_example :
    Untouched "other" table (cancel_job 7 "a" "other" table).1
    × Untouched "other" table (retry_job 7 "a" "other" table).1
single_tenancy_example = single_tenancy 7 "a" "other" table

cancel_job_correct_example :
    (elem running (completed ∷ failed ∷ cancelled ∷ []) ≡ true
      → cancel_job 7 "a" "acme" table ≡ (err conflict, table))
    × (elem running (completed ∷ failed ∷ cancelled ∷ []) ≡ false
        → (job' : Job) × ((cancel_job 7 "a" "acme" table).0 ≡ ok job')
          × Replaced 7 "a" "acme" table running_job found_a refl job'
              (cancel_job 7 "a" "acme" table).1
          × (job'
              ≡ record running_job { status = cancelled; completed_at = some 7; updated_at = 7 }))
cancel_job_correct_example = cancel_job_correct 7 "a" "acme" table running_job found_a refl

retry_job_keeps_example :
    (job' : Job) × ((retry_job 7 "b" "acme" table).0 ≡ ok job')
    × Replaced 7 "b" "acme" table failed_job found_b refl job' (retry_job 7 "b" "acme" table).1
    × (job' ≡ record failed_job { status = pending; updated_at = 7 })
retry_job_keeps_example = retry_job_keeps 7 "b" "acme" table failed_job found_b refl b_ended

bulk_cancel_correct_example :
    Perm
      ((bulk_cancel 7 ("a" ∷ "b" ∷ []) "acme" table).0.cancelled_ids
        ++ (bulk_cancel 7 ("a" ∷ "b" ∷ []) "acme" table).0.skipped_ids)
      ("a" ∷ "b" ∷ [])
    × All
        (IsCancelled (bulk_cancel 7 ("a" ∷ "b" ∷ []) "acme" table).1)
        (bulk_cancel 7 ("a" ∷ "b" ∷ []) "acme" table).0.cancelled_ids
bulk_cancel_correct_example = bulk_cancel_correct 7 ("a" ∷ "b" ∷ []) "acme" table

abbrev after_a : CreateJobDto
after_a = record {
  name = "next";
  description = none;
  type = custom;
  payload = end;
  priority = none;
  scheduled_at = none;
  cron_expression = none;
  timezone = none;
  timeout_ms = none;
  retry_config = none;
  dependencies = some (completion_of "a" ∷ []);
  tags = none;
  metadata = none;
  organization_id = "o";
  created_by = "u";
}

abbrev never : String → String → Bool
never a b = false

abbrev unordered : JobFilter → Job → Job → Bool
unordered f a b = false

get_job_stats_correct_example : IsReportOf "o" table (get_job_stats never unordered "o" table)
get_job_stats_correct_example = get_job_stats_correct never unordered "o" table refl
