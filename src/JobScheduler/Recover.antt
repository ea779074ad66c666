-- ===== src/JobScheduler/Recover.antt =====
-- `recoverStalledJobs`.
use mathlib.Core.Option
use backend_task_orchestrati.Prelude.{
  ℕ, ◌≡◌, ◌∙◌, ◌<◌, ◌≤◌, true, false, ltb, String, some, arith, Bool-cases, Option-cases, inl, inr,
  if◌then◌else◌,
}
use backend_task_orchestrati.Prelude.Eq.{string_eq}
use backend_task_orchestrati.Prelude.Keys.{IsUnique, IsUnique-filter}
use backend_task_orchestrati.Models.Job.{pending, failed, status_eq, Job}
use backend_task_orchestrati.JobRepository.{
  Jobs, ids, find_by_id, apply_update, is_stalled, find_stalled_jobs,
}
use backend_task_orchestrati.JobRepository.Batch.{find_by_id-update_each, find_by_id-filter}
use backend_task_orchestrati.JobScheduler.{recovery, recover_stalled_jobs}

-- What becomes of a row.
abbrev pub swept : ℕ → ℕ → Job → Job
swept now age job = if is_stalled now age job then apply_update now (recovery now job) job else job

-- With distinct ids, every stalled row is updated once, and no other.
find_by_id-recover :
    (now age : ℕ) (id : String) (table : Jobs)
    → IsUnique (ids table)
    → find_by_id id (recover_stalled_jobs now age table)
      ≡ Option.map (swept now age) (find_by_id id table)
unfolding recover_stalled_jobs find_stalled_jobs
find_by_id-recover now age id table unique =
    find_by_id-update_each now (recovery now) id (find_stalled_jobs now age table) table
      (IsUnique-filter (λ (j : Job). j.id) (is_stalled now age) table unique)
    ∙ rw (find_by_id-filter (is_stalled now age) id table unique)
        (elim (Option-cases (find_by_id id table)) [
          | inl absent ↦ rw absent
          | inr (j, found) ↦
              rw found (elim (Bool-cases (is_stalled now age j)) [ inl h ↦ rw h | inr h ↦ rw h ])
        ])

-- How a row of the table compares with the row it was.
pub record Recovered (now age : ℕ) (old new : Job) : Type 0 where
  pub untouched : is_stalled now age old ≡ false → new ≡ old
  pub requeued :
      is_stalled now age old ≡ true
      → old.retry_count < old.max_retries
      → new ≡ record old { status = pending; updated_at = now }
  pub given_up :
      is_stalled now age old ≡ true
      → old.max_retries ≤ old.retry_count
      → new ≡ record old {
        status = failed;
        error_message = some "Job stalled: worker did not complete within timeout";
        completed_at = some now;
        updated_at = now;
      }
  pub settled : is_stalled now age new ≡ false

swept_stalled :
    (now age : ℕ) (job : Job)
    → is_stalled now age job ≡ true
    → swept now age job ≡ apply_update now (recovery now job) job
swept_stalled now age job h = rw h

requeue :
    (now : ℕ) (job : Job)
    → job.retry_count < job.max_retries
    → apply_update now (recovery now job) job ≡ record job { status = pending; updated_at = now }
unfolding recovery apply_update
requeue now job more = let e : ltb job.retry_count job.max_retries ≡ true = ground arith in rw e

give_up :
    (now : ℕ) (job : Job)
    → job.max_retries ≤ job.retry_count
    → apply_update now (recovery now job) job ≡ record job {
      status = failed;
      error_message = some "Job stalled: worker did not complete within timeout";
      completed_at = some now;
      updated_at = now;
    }
unfolding recovery apply_update
give_up now job less = let e : ltb job.retry_count job.max_retries ≡ false = ground arith in rw e

-- A recovered job does not run.
recovery-settled :
    (now age : ℕ) (job : Job) → is_stalled now age (apply_update now (recovery now job) job) ≡ false
unfolding recovery apply_update is_stalled
recovery-settled now age job = elim (Bool-cases (ltb job.retry_count job.max_retries)) [
  | inl e ↦ rw e
  | inr e ↦ rw e
]

swept-Recovered : (now age : ℕ) (job : Job) → Recovered now age job (swept now age job)
swept-Recovered now age job = record {
  untouched = λ h. rw h;
  requeued = λ h more. swept_stalled now age job h ∙ requeue now job more;
  given_up = λ h less. swept_stalled now age job h ∙ give_up now job less;
  settled = elim (Bool-cases (is_stalled now age job)) [
    | inl h ↦ rw (swept_stalled now age job h) (recovery-settled now age job)
    | inr h ↦ rw h h
  ];
}

-- With distinct ids, a sweep for stalled jobs makes each stalled job pending if it has retries left,
-- its count of retries as it was, and failed otherwise; it leaves all other jobs, and no job is
-- stalled after it.
pub recover_correct :
    (now age : ℕ) (id : String) (table : Jobs) (job : Job)
    → IsUnique (ids table)
    → find_by_id id table ≡ some job
    → (job' : Job) × (find_by_id id (recover_stalled_jobs now age table) ≡ some job')
      × Recovered now age job job'
recover_correct now age id table job unique found = (
  swept now age job,
  find_by_id-recover now age id table unique ∙ rw found,
  swept-Recovered now age job,
)
