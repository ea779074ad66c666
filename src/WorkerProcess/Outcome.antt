-- ===== src/WorkerProcess/Outcome.antt =====
-- What a worker makes of a job.
use mathlib.Core.Bool.{false≢true}
use backend_task_orchestrati.Prelude.{
  ℕ, ◌+◌, ◌<◌, ◌≤◌, ◌≡◌, refl, sym, subst, ap, ◌∙◌, Bool, true, false, ◌&&◌, leb, String, some,
  List, [], ◌∷◌, ◌++◌, map, arith, if◌then◌else◌, Bool-cases, Option-cases, inl, inr,
}
use backend_task_orchestrati.Prelude.Eq.{◌==◌, string_eq, elem, ==_refl}
use backend_task_orchestrati.Models.Job.{
  cancelled, running, completed, failed, retrying, pending, status_eq, JobStatus, Job, UpdateJobDto,
}
use backend_task_orchestrati.Models.ExecutionLog.{ExecutionLog, ExecutionStatus}
use backend_task_orchestrati.JobRepository.{Jobs, find_by_id, apply_update, update, assigned}
use backend_task_orchestrati.JobRepository.Batch.{find_by_id-update}
use backend_task_orchestrati.ExecutionRepository.{new_log, create}
use backend_task_orchestrati.DependencyResolver.{Graph}
use backend_task_orchestrati.JobScheduler.{on_job_completed}
use backend_task_orchestrati.JobScheduler.Complete.{on_job_completed_counts}
use backend_task_orchestrati.JobExecutor.Runs.{ExecutionResult}
use backend_task_orchestrati.WorkerProcess.{
  DlqEntry, Backend, to_running, success_update, retry_update, failure_update, dead_letter,
  retry_or_bury, handle_failure, is_timeout, settle, process_job,
}

and_false : (a b : Bool) → b ≡ false → (a && b) ≡ false
and_false a b h = ground arith

-- A completion leaves a row that is not pending.
find_by_id-on_job_completed :
    (now : ℕ) (job_id id : String) (status : JobStatus) (table : Jobs) (graph : Graph) (job : Job)
    → find_by_id id table ≡ some job
    → (job.status == pending) ≡ false
    → find_by_id id (on_job_completed now job_id status table graph).0 ≡ some job
find_by_id-on_job_completed now job_id id status table graph job found open_still =
    let (job', e, c) = on_job_completed_counts now job_id id status table graph job found in
    e ∙ ap (λ (j : Job). some j) (c.others (and_false _ _ open_still))

find_by_id_self :
    (now : ℕ) (id : String) (dto : UpdateJobDto) (table : Jobs) (job : Job)
    → find_by_id id table ≡ some job
    → find_by_id id (update now id dto table).1 ≡ some (apply_update now dto job)
find_by_id_self now id dto table job found =
    find_by_id-update now id id dto table ∙ rw (==_refl id, found)

-- The outcomes of an attempt, for the row as it is when the handler returns.
pub record Settled (job_id : String) (r : ExecutionResult) (at : ℕ) (job : Job)
    (dead : List DlqEntry) (after : Backend) : Type 0 where
  pub succeeded :
      r.success ≡ true
      → (find_by_id job_id after.jobs
          ≡ some (record job {
            status = completed;
            completed_at = some at;
            result = assigned r.result job.result;
            exit_code = assigned r.exit_code job.exit_code;
            updated_at = at;
          }))
        × (after.dead ≡ dead)
  pub retried :
      r.success ≡ false
      → job.retry_count < job.max_retries
      → (find_by_id job_id after.jobs
          ≡ some (record job {
            status = retrying;
            retry_count = job.retry_count + 1;
            updated_at = at;
          }))
        × (after.dead ≡ dead)
  pub buried :
      r.success ≡ false
      → job.max_retries ≤ job.retry_count
      → (find_by_id job_id after.jobs
          ≡ some (record job {
            status = failed;
            completed_at = some at;
            error_message = assigned r.error_message job.error_message;
            error_stack = assigned r.error_stack job.error_stack;
            exit_code = assigned r.exit_code job.exit_code;
            updated_at = at;
          }))
        × (after.dead ≡ dead ++ dead_letter at job_id job r ∷ [])

module _ (job_id : String) (r : ExecutionResult) (at : ℕ) (job : Job) where
  bury-retry :
      (b : Backend)
      → find_by_id job_id b.jobs ≡ some job
      → job.retry_count < job.max_retries
      → let after = retry_or_bury at job_id job r b in
        (find_by_id job_id after.jobs
          ≡ some (apply_update at (retry_update (job.retry_count + 1)) job))
        × (after.dead ≡ b.dead)
  unfolding retry_or_bury
  bury-retry b found more =
      let e : leb (job.retry_count + 1) job.max_retries ≡ true = ground arith in
      rw e (find_by_id_self at job_id _ b.jobs job found, refl)

  bury-last :
      (b : Backend)
      → find_by_id job_id b.jobs ≡ some job
      → job.max_retries ≤ job.retry_count
      → let after = retry_or_bury at job_id job r b in
        (find_by_id job_id after.jobs ≡ some (apply_update at (failure_update at r) job))
        × (after.dead ≡ b.dead ++ dead_letter at job_id job r ∷ [])
  unfolding retry_or_bury apply_update
  bury-last b found less =
      let e : leb (job.retry_count + 1) job.max_retries ≡ false = ground arith in
      rw e (
        find_by_id-on_job_completed at job_id job_id failed _ b.graph _
            (find_by_id_self at job_id (failure_update at r) b.jobs job found) refl,
        refl,
      )

  failure_step :
      (b : Backend) (log_id : String) (final_status : ExecutionStatus)
      → find_by_id job_id b.jobs ≡ some job
      → r.success ≡ false
      → Settled job_id r at job b.dead (handle_failure job_id log_id r at final_status b)
  unfolding handle_failure apply_update
  failure_step b log_id final_status found bad = record {
    succeeded = λ good. absurd (false≢true (sym bad ∙ good));
    retried = λ _ more. rw (handle_failure, found) (bury-retry _ found more);
    buried = λ _ less. rw (handle_failure, found) (bury-last _ found less);
  }

  success_step :
      (b : Backend) (log_id : String)
      → find_by_id job_id b.jobs ≡ some job
      → r.success ≡ true
      → Settled job_id r at job b.dead (settle job_id log_id r at b)
  unfolding settle apply_update
  success_step b log_id found good = record {
    succeeded = λ _. rw good (
      find_by_id-on_job_completed at job_id job_id completed _ b.graph _
          (find_by_id_self at job_id (success_update at r) b.jobs job found) refl,
      refl,
    );
    retried = λ bad. absurd (false≢true (sym bad ∙ good));
    buried = λ bad. absurd (false≢true (sym bad ∙ good));
  }

  settle_failed :
      (b : Backend) (log_id : String)
      → r.success ≡ false
      → settle job_id log_id r at b ≡ (
          if is_timeout r.error_code
          then handle_failure job_id log_id r at ExecutionStatus.timed_out b
          else handle_failure job_id log_id r at ExecutionStatus.failed b)
  unfolding settle
  settle_failed b log_id bad = rw bad

  settle-Settled :
      (b : Backend) (log_id : String)
      → find_by_id job_id b.jobs ≡ some job
      → Settled job_id r at job b.dead (settle job_id log_id r at b)
  settle-Settled b log_id found = elim (Bool-cases r.success) [
    | inl good ↦ success_step b log_id found good
    | inr bad ↦
        subst (Settled job_id r at job b.dead) (sym (settle_failed b log_id bad))
          (elim (Bool-cases (is_timeout r.error_code)) [
            | inl t ↦ rw t (failure_step b log_id ExecutionStatus.timed_out found bad)
            | inr f ↦ rw f (failure_step b log_id ExecutionStatus.failed found bad)
          ])
  ]

-- A stored job that was not cancelled is run, under a log id that is not in use: it ends completed
-- with its result if the handler succeeds. If it fails the job is to be retried, with one more retry
-- counted, while it has retries left; otherwise it ends failed, and one dead letter is added.
pub process_job_correct :
    (execute : Job → ExecutionResult) (now at : ℕ) (worker_id log_id job_id : String) (attempt : ℕ)
    → (b : Backend) (job : Job) → find_by_id job_id b.jobs ≡ some job
    → (job.status == cancelled) ≡ false
    → elem log_id (map (λ (l : ExecutionLog). l.id) b.logs) ≡ false
    → (after : Backend) × (process_job execute now at worker_id log_id job_id attempt b
        ≡ some after)
      × Settled job_id
          (execute job)
          at
          (record job {
            status = running;
            worker_id = some worker_id;
            started_at = some now;
            updated_at = now;
          })
          b.dead
          after
unfolding process_job create apply_update
process_job_correct execute now at worker_id log_id job_id attempt b job found open_still free =
    let log = new_log now log_id (record {
      job_id = job_id;
      worker_id = worker_id;
      attempt_number = attempt;
      status = ExecutionStatus.running;
      started_at = now;
    }) in
    let started = record b {
      logs = b.logs ++ log ∷ [];
      jobs = (update now job_id (to_running now worker_id) b.jobs).1;
    } in
    (
      settle job_id log_id (execute job) at started,
      rw (process_job, found, open_still, create, free),
      settle-Settled job_id (execute job) at (apply_update now (to_running now worker_id) job)
          started log_id (find_by_id_self now job_id (to_running now worker_id) b.jobs job found),
    )

-- A job that is not stored, or that was cancelled, is not run, and nothing changes.
pub process_job_skips :
    (execute : Job → ExecutionResult) (now at : ℕ) (worker_id log_id job_id : String) (attempt : ℕ)
    → (b : Backend) → ((job : Job) → find_by_id job_id b.jobs ≡ some job → job.status ≡ cancelled)
    → process_job execute now at worker_id log_id job_id attempt b ≡ some b
unfolding process_job
process_job_skips execute now at worker_id log_id job_id attempt b gone =
    elim (Option-cases (find_by_id job_id b.jobs)) [
      | inl absent ↦ rw (process_job, absent)
      | inr (job, found) ↦
          rw (process_job, found, (status_eq.equal_iff job.status cancelled).1 (gone job found))
    ]
