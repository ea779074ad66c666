-- ===== src/JobScheduler/Tests.antt =====
-- The theorems on the scheduler at small tables.
use backend_task_orchestrati.Prelude.{
  ◌≡◌, refl, Bool, false, not, String, some, [], ◌∷◌, map, filter, length,
}
use backend_task_orchestrati.Prelude.Eq.{◌==◌, string_eq, elem}
use backend_task_orchestrati.Prelude.Keys.{IsUnique}
use backend_task_orchestrati.Models.Job.{Job, completed}
use backend_task_orchestrati.Prelude.{◌⊎◌, true}
use backend_task_orchestrati.JobScheduler.Leadership.{
  Scheduler, refused, unreachable, idle, try_become_leader, start, stop, starts,
}
use backend_task_orchestrati.JobScheduler.Leads.{IsStandalone, IsStandalone-stays, restarted_leads}
use backend_task_orchestrati.Samples.{plain_job, stalled_job, after_all, completion_of}
use backend_task_orchestrati.JobQueue.{Request}
use backend_task_orchestrati.JobRepository.{Jobs, ids, find_by_id}
use backend_task_orchestrati.DependencyResolver.{Graph, new_node, on_job_state_change}
use backend_task_orchestrati.JobScheduler.{
  enqueue_request, schedule_ready_jobs, recover_stalled_jobs, on_job_completed,
}
use backend_task_orchestrati.JobScheduler.Ready.{
  goes, claimed_jobs, left_by_round, schedule_ready_correct,
}
use backend_task_orchestrati.JobScheduler.Recover.{Recovered, recover_correct}
use backend_task_orchestrati.JobScheduler.Complete.{Counted, on_job_completed_counts}

abbrev ready : Jobs
ready = plain_job "a" ∷ plain_job "b" ∷ []

abbrev none_locked : String → Bool
none_locked id = false

-- A queue that refuses one of the jobs.
abbrev accepts : Request → Bool
accepts r = not (r.job_data.job_id == "b")

ready-IsUnique : IsUnique (ids ready)
unfolding elem
ready-IsUnique = (refl, (refl, tt))

schedule_ready_correct_example :
    ((schedule_ready_jobs 10 none_locked 50 accepts ready).1
      ≡ map
          (enqueue_request 10)
          (filter (goes 10 accepts) (claimed_jobs 10 none_locked 50 accepts ready)))
    × ((id : String)
        → find_by_id id (schedule_ready_jobs 10 none_locked 50 accepts ready).0
          ≡ left_by_round 10 none_locked 50 accepts ready
              (find_by_id id (claimed_jobs 10 none_locked 50 accepts ready))
              (find_by_id id ready))
schedule_ready_correct_example =
    schedule_ready_correct 10 none_locked 50 accepts ready ready-IsUnique

abbrev stalled : Jobs
stalled = stalled_job "a" 0 ∷ record (stalled_job "b" 0) { retry_count = 3 } ∷ []

stalled-IsUnique : IsUnique (ids stalled)
unfolding elem
stalled-IsUnique = (refl, (refl, tt))

found_b : find_by_id "b" stalled ≡ some (record (stalled_job "b" 0) { retry_count = 3 })
unfolding find_by_id
found_b = refl

recover_correct_example :
    (job' : Job) × (find_by_id "b" (recover_stalled_jobs 500 120 stalled) ≡ some job')
    × Recovered 500 120 (record (stalled_job "b" 0) { retry_count = 3 }) job'
recover_correct_example =
    recover_correct 500 120 "b" stalled (record (stalled_job "b" 0) { retry_count = 3 })
      stalled-IsUnique found_b

-- Two jobs wait for the same one.
abbrev waiting : Jobs
waiting =
    record (after_all "b" (completion_of "a" ∷ [])) { dependency_count = 1 }
    ∷ record (after_all "c" (completion_of "a" ∷ [])) { dependency_count = 1 }
    ∷ []

abbrev graph : Graph
graph =
    ("a", record (new_node (plain_job "a")) { dependents = "b" ∷ "c" ∷ [] })
    ∷ ("b", new_node (after_all "b" (completion_of "a" ∷ [])))
    ∷ ("c", new_node (after_all "c" (completion_of "a" ∷ [])))
    ∷ []

found_c :
    find_by_id "c" waiting
    ≡ some (record (after_all "c" (completion_of "a" ∷ [])) { dependency_count = 1 })
unfolding find_by_id
found_c = refl

on_job_completed_counts_example :
    (job' : Job) × (find_by_id "c" (on_job_completed 9 "a" completed waiting graph).0 ≡ some job')
    × Counted "a"
        (length (on_job_state_change "a" completed graph).0)
        (record (after_all "c" (completion_of "a" ∷ [])) { dependency_count = 1 })
        job'
on_job_completed_counts_example =
    on_job_completed_counts 9 "a" "c" completed waiting graph
      (record (after_all "c" (completion_of "a" ∷ [])) { dependency_count = 1 }) found_c

-- The scheduler after a start that met an error, and after one that got the lock.
abbrev alone : Scheduler
alone = start 100 unreachable idle

alone-IsStandalone : IsStandalone 100 alone
unfolding start try_become_leader
alone-IsStandalone = (refl, refl, refl, refl, refl)

alone_leads : alone.is_leader ≡ true
unfolding start try_become_leader
alone_leads = refl

IsStandalone-stays_example :
    (start 100 refused alone ≡ stop 100 alone) ⊎ IsStandalone 100 (start 100 refused alone)
IsStandalone-stays_example =
    IsStandalone-stays 100 alone (start 100 refused alone) alone-IsStandalone (starts refused alone)

restarted_leads_example :
    ((start 100 refused (stop 100 alone)).is_leader ≡ true)
    × ((start 100 refused (stop 100 alone)).poll_timer ≡ true)
    × ((start 100 refused (stop 100 alone)).renewing ≡ false)
restarted_leads_example = restarted_leads 100 alone alone_leads
