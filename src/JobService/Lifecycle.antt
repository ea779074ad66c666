-- ===== src/JobService/Lifecycle.antt =====
-- What cancelling and retrying make of a job.
use backend_task_orchestrati.Prelude.{
  ℕ, ◌≡◌, refl, ap, ◌∙◌, ◌≢◌, true, false, String, some, [], ◌∷◌, arith,
}
use backend_task_orchestrati.Prelude.Eq.{string_eq, elem, ==_refl}
use backend_task_orchestrati.Models.Job.{
  pending, completed, failed, cancelled, timed_out, status_eq, Job, UpdateJobDto,
}
use backend_task_orchestrati.JobRepository.{Jobs, find_by_id, apply_update, update}
use backend_task_orchestrati.JobRepository.Batch.{find_by_id-update}
use backend_task_orchestrati.JobService.{
  conflict, Result, ok, err, get_job, cancellation, cancel_job, reset, retry_job,
}
use backend_task_orchestrati.JobService.Tenancy.{get_job-ok}

get_job_found :
    (id organization_id : String) (table : Jobs) (job : Job)
    → find_by_id id table ≡ some job
    → job.organization_id ≡ organization_id
    → get_job id organization_id table ≡ ok job
unfolding get_job
get_job_found id organization_id table job found owned =
    ground (arith, string_eq.equal_iff job.organization_id organization_id)

-- An update of a row that is there returns it updated.
update_found :
    (now : ℕ) (id : String) (dto : UpdateJobDto) (table : Jobs) (job : Job)
    → find_by_id id table ≡ some job
    → update now id dto table ≡ (some (apply_update now dto job), (update now id dto table).1)
unfolding update
update_found now id dto table job found =
    let e : find_by_id id (update now id dto table).1 ≡ some (apply_update now dto job) =
      find_by_id-update now id id dto table ∙ rw (==_refl id, found) in
    rw e

module _ (now : ℕ) (id organization_id : String) (table : Jobs) (job : Job)
    (found : find_by_id id table ≡ some job) (owned : job.organization_id ≡ organization_id) where
  -- A job that has not ended is cancelled.
  pub cancel_job_open :
      elem job.status (completed ∷ failed ∷ cancelled ∷ []) ≡ false
      → cancel_job now id organization_id table
        ≡ (ok (apply_update now (cancellation now) job), (update now id (cancellation now) table).1)
  unfolding cancel_job
  cancel_job_open h = rw (
    get_job_found id organization_id table job found owned,
    cancel_job,
    h,
    update_found now id (cancellation now) table job found,
  )

  -- A job that has ended is left, and the call is refused.
  cancel_job_ended :
      elem job.status (completed ∷ failed ∷ cancelled ∷ []) ≡ true
      → cancel_job now id organization_id table ≡ (err conflict, table)
  unfolding cancel_job
  cancel_job_ended h = rw (get_job_found id organization_id table job found owned, cancel_job, h)

  retry_job_ended :
      elem job.status (failed ∷ cancelled ∷ timed_out ∷ []) ≡ true
      → retry_job now id organization_id table
        ≡ (ok (apply_update now reset job), (update now id reset table).1)
  unfolding retry_job
  retry_job_ended h = rw (
    get_job_found id organization_id table job found owned,
    retry_job,
    h,
    update_found now id reset table job found,
  )

  -- After a successful call the row is the returned job, and all other rows are as they were.
  pub record Replaced (job' : Job) (after : Jobs) : Type 0 where
    pub stored : find_by_id id after ≡ some job'
    pub others : (id' : String) → id ≢ id' → find_by_id id' after ≡ find_by_id id' table

  pub update-Replaced :
      (dto : UpdateJobDto) → Replaced (apply_update now dto job) (update now id dto table).1
  update-Replaced dto = record {
    stored = find_by_id-update now id id dto table ∙ rw (==_refl id, found);
    others = λ id' ne.
        find_by_id-update now id' id dto table ∙ ground (arith, string_eq.equal_iff id id');
  }

  -- Cancelling is refused for a job that completed, failed or was cancelled, and changes nothing;
  -- any other job of the organisation becomes cancelled, as of now, and stays as it is otherwise.
  pub cancel_job_correct :
      (elem job.status (completed ∷ failed ∷ cancelled ∷ []) ≡ true
        → cancel_job now id organization_id table ≡ (err conflict, table))
      × (elem job.status (completed ∷ failed ∷ cancelled ∷ []) ≡ false
          → (job' : Job) × ((cancel_job now id organization_id table).0 ≡ ok job')
            × Replaced job' (cancel_job now id organization_id table).1
            × (job' ≡ record job { status = cancelled; completed_at = some now; updated_at = now }))
  unfolding apply_update
  cancel_job_correct = (
    cancel_job_ended,
    λ h. (
      apply_update now (cancellation now) job,
      rw (cancel_job_open h),
      rw (cancel_job_open h) (update-Replaced (cancellation now)),
      refl,
    ),
  )

  -- A retry that is accepted makes the job pending again, and keeps its worker, its times, its
  -- error and its count of attempts.
  pub retry_job_keeps :
      elem job.status (failed ∷ cancelled ∷ timed_out ∷ []) ≡ true
      → (job' : Job) × ((retry_job now id organization_id table).0 ≡ ok job')
        × Replaced job' (retry_job now id organization_id table).1
        × (job' ≡ record job { status = pending; updated_at = now })
  unfolding apply_update
  retry_job_keeps h = (
    apply_update now reset job,
    rw (retry_job_ended h),
    rw (retry_job_ended h) (update-Replaced reset),
    refl,
  )

-- A successful cancellation found the job, in the organisation, and not ended.
pub cancel_job-ok :
    (now : ℕ) (id organization_id : String) (table : Jobs) (job' : Job)
    → (cancel_job now id organization_id table).0 ≡ ok job'
    → (job : Job) × (find_by_id id table ≡ some job)
      × (job.organization_id ≡ organization_id)
      × (elem job.status (completed ∷ failed ∷ cancelled ∷ []) ≡ false)
unfolding cancel_job
cancel_job-ok now id organization_id table job' h = go (get_job id organization_id table) refl
  where
    go :
        (r : Result Job)
        → get_job id organization_id table ≡ r
        → (job : Job) × (find_by_id id table ≡ some job)
          × (job.organization_id ≡ organization_id)
          × (elem job.status (completed ∷ failed ∷ cancelled ∷ []) ≡ false)
    go (err e) got = absurd (ground (arith, got))
    go (ok job) got =
        let (found, owned) = get_job-ok id organization_id table job got in
        (job, found, owned, ground (arith, got))

-- A job that was cancelled is not cancelled again, but can be retried, and is pending then.
pub cancel_then :
    (now later : ℕ) (id organization_id : String) (table : Jobs) (job' : Job)
    → (cancel_job now id organization_id table).0 ≡ ok job'
    → let after = (cancel_job now id organization_id table).1 in
      (cancel_job later id organization_id after ≡ (err conflict, after))
      × ((job : Job) × ((retry_job later id organization_id after).0 ≡ ok job)
          × (job.status ≡ pending))
unfolding elem apply_update
cancel_then now later id organization_id table job' h =
    let (job, found, owned, open_still) = cancel_job-ok now id organization_id table job' h in
    let step = cancel_job_open now id organization_id table job found owned open_still in
    let stored =
      (update-Replaced now id organization_id table job found owned (cancellation now)).stored in
    let done = apply_update now (cancellation now) job in
    let after = (update now id (cancellation now) table).1 in
    rw step (
      cancel_job_ended later id organization_id after done stored owned refl,
      (
        apply_update later reset done,
        ap (λ (r : Result Job × Jobs). r.0)
            (retry_job_ended later id organization_id after done stored owned refl),
        refl,
      ),
    )
