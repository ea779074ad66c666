-- ===== src/JobService/Tenancy.antt =====
-- Calls for one organisation, seen from another.
use mathlib.Core.Option.{some-injective}
use backend_task_orchestrati.Prelude.{
  ℕ, ◌≡◌, refl, sym, ap, ◌∙◌, ◌≢◌, String, Option, none, some, List, [], ◌∷◌, arith, Bool-cases,
  Option-cases, inl, inr,
}
use backend_task_orchestrati.Prelude.Eq.{◌==◌, string_eq, elem}
use backend_task_orchestrati.Models.Job.{
  completed, failed, cancelled, timed_out, status_eq, Job, UpdateJobDto,
}
use backend_task_orchestrati.JobRepository.{Jobs, find_by_id, update}
use backend_task_orchestrati.JobRepository.Batch.{find_by_id-update}
use backend_task_orchestrati.JobService.{
  Result, ok, err, get_job, cancellation, cancel_job, reset, retry_job, BulkResult,
  bulk_cancel_loop, bulk_cancel, updated_or,
}

-- The job of another organisation is found as it was.
abbrev pub Untouched : String → Jobs → Jobs → Type 0
Untouched organization_id before after =
    (id : String) (j : Job)
    → find_by_id id before ≡ some j
    → j.organization_id ≢ organization_id
    → find_by_id id after ≡ some j

-- `getJob` hands out only jobs of the caller's organisation.
pub get_job-ok :
    (id organization_id : String) (table : Jobs) (job : Job)
    → get_job id organization_id table ≡ ok job
    → (find_by_id id table ≡ some job) × (job.organization_id ≡ organization_id)
unfolding get_job
get_job-ok id organization_id table job h = elim (Option-cases (find_by_id id table)) [
  | inl absent ↦ absurd (ground arith)
  | inr (found_job, found) ↦
      ground (arith, found, string_eq.equal_iff found_job.organization_id organization_id)
]

update-Untouched :
    (now : ℕ) (id organization_id : String) (dto : UpdateJobDto) (table : Jobs) (job : Job)
    → find_by_id id table ≡ some job
    → job.organization_id ≡ organization_id
    → Untouched organization_id table (update now id dto table).1
update-Untouched now id organization_id dto table job found owned id' j found' other =
    find_by_id-update now id' id dto table ∙ elim (Bool-cases (id == id')) [
      | inl same ↦
          let e : id ≡ id' = (string_eq.equal_iff id id').0 same in
          let clash : some job ≡ some j = sym found ∙ rw (sym e) at found' in
          absurd
            (other (ap (λ (k : Job). k.organization_id) (sym (some-injective job j clash)) ∙ owned))
      | inr differs ↦ rw differs found'
    ]

-- What a call leaves: the table as it was, or one row of the caller's organisation updated.
pub data Touch (now : ℕ) (id organization_id : String) (dto : UpdateJobDto) (before after : Jobs)
    : Type 0 where
  nothing : after ≡ before → Touch now id organization_id dto before after
  one_row :
      (job : Job)
      → find_by_id id before ≡ some job
      → job.organization_id ≡ organization_id
      → after ≡ (update now id dto before).1
      → Touch now id organization_id dto before after

Touch-Untouched :
    (now : ℕ) (id organization_id : String) (dto : UpdateJobDto) (before after : Jobs)
    → Touch now id organization_id dto before after
    → Untouched organization_id before after
Touch-Untouched now id organization_id dto before after (nothing e) id' j found other = rw e found
Touch-Untouched now id organization_id dto before after (one_row job found owned e) id' j found'
      other =
    rw e (update-Untouched now id organization_id dto before job found owned id' j found' other)

updated_or-table : (r : Option Job × Jobs) → (updated_or r).1 ≡ r.1
updated_or-table (none, table) = refl
updated_or-table (some job, table) = refl

pub cancel_job-Touch :
    (now : ℕ) (id organization_id : String) (table : Jobs)
    → Touch now id organization_id
        (cancellation now)
        table
        (cancel_job now id organization_id table).1
unfolding cancel_job
cancel_job-Touch now id organization_id table = go (get_job id organization_id table) refl
  where
    go :
        (r : Result Job)
        → get_job id organization_id table ≡ r
        → Touch now id organization_id
            (cancellation now)
            table
            (cancel_job now id organization_id table).1
    go (err e) got = nothing (rw (got, cancel_job))
    go (ok job) got =
        let (found, owned) = get_job-ok id organization_id table job got in
        elim (Bool-cases (elem job.status (completed ∷ failed ∷ cancelled ∷ []))) [
          | inl final ↦ nothing (rw (got, cancel_job, final))
          | inr open_still ↦
              one_row job found owned (rw (got, cancel_job, open_still) (updated_or-table _))
        ]

retry_job-Touch :
    (now : ℕ) (id organization_id : String) (table : Jobs)
    → Touch now id organization_id reset table (retry_job now id organization_id table).1
unfolding retry_job
retry_job-Touch now id organization_id table = go (get_job id organization_id table) refl
  where
    go :
        (r : Result Job)
        → get_job id organization_id table ≡ r
        → Touch now id organization_id reset table (retry_job now id organization_id table).1
    go (err e) got = nothing (rw (got, retry_job))
    go (ok job) got =
        let (found, owned) = get_job-ok id organization_id table job got in
        elim (Bool-cases (elem job.status (failed ∷ cancelled ∷ timed_out ∷ []))) [
          | inr unfit ↦ nothing (rw (got, retry_job, unfit))
          | inl fit ↦ one_row job found owned (rw (got, retry_job, fit) (updated_or-table _))
        ]

-- Neither cancelling nor retrying changes a job of another organisation.
pub single_tenancy :
    (now : ℕ) (id organization_id : String) (table : Jobs)
    → Untouched organization_id table (cancel_job now id organization_id table).1
      × Untouched organization_id table (retry_job now id organization_id table).1
single_tenancy now id organization_id table = (
  Touch-Untouched now id organization_id _ table _ (cancel_job-Touch now id organization_id table),
  Touch-Untouched now id organization_id _ table _ (retry_job-Touch now id organization_id table),
)

bulk_loop-Untouched :
    (now : ℕ) (chosen : List String) (organization_id : String) (result : BulkResult) (table : Jobs)
    → Untouched organization_id table (bulk_cancel_loop now chosen organization_id result table).1
unfolding bulk_cancel_loop
bulk_loop-Untouched now [] organization_id result table = λ id j found other. found
bulk_loop-Untouched now (id ∷ rest) organization_id result table = λ id' j found other.
    bulk_loop-Untouched now rest organization_id _ _ id' j
      ((single_tenancy now id organization_id table).0 id' j found other) other

-- However the ids of a bulk call are chosen, no job of another organisation changes.
pub bulk_tenancy :
    (now : ℕ) (chosen : List String) (organization_id : String) (table : Jobs)
    → Untouched organization_id table (bulk_cancel now chosen organization_id table).1
unfolding bulk_cancel
bulk_tenancy now chosen organization_id table =
    bulk_loop-Untouched now chosen organization_id _ table
