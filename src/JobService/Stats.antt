-- ===== src/JobService/Stats.antt =====
-- src/services/JobService.ts: what `getJobStats` counts.
use backend_task_orchestrati.Prelude.{
  ℕ, suc, ◌+◌, ◌≡◌, refl, ap, ◌∙◌, Bool, true, false, ◌&&◌, String, some, [], ◌∷◌, length, filter,
  length-perm, arith, if◌then◌else◌,
}
use backend_task_orchestrati.Prelude.Eq.{◌==◌, string_eq, elem}
use backend_task_orchestrati.Prelude.Sort.{sort_by-perm}
use backend_task_orchestrati.Models.Job.{
  JobStatus, pending, queued, running, completed, failed, retrying, cancelled, timed_out, skipped,
  status_eq, Job,
}
use backend_task_orchestrati.Models.Filter.{one, JobFilter}
use backend_task_orchestrati.JobRepository.{Jobs}
use backend_task_orchestrati.JobRepository.Query.{find_many, matches, no_filter}
use backend_task_orchestrati.JobService.Reports.{total_in, JobStats, get_job_stats}

abbrev pub is_of : String → Job → Bool
is_of organization_id j = j.organization_id == organization_id

-- The rows of the organisation in a status.
abbrev pub rows_in : String → JobStatus → Jobs → ℕ
rows_in organization_id s table =
    length (filter (λ (j : Job). (j.status == s) && is_of organization_id j) table)

length-filter-cons :
    (p : Job → Bool) (j : Job) (table : Jobs)
    → length (filter p (j ∷ table))
      ≡ (if p j then suc (length (filter p table)) else length (filter p table))
unfolding filter
length-filter-cons p j table = ground arith

filter-agree :
    (p q : Job → Bool) (table : Jobs) → ((j : Job) → p j ≡ q j) → filter p table ≡ filter q table
unfolding filter
filter-agree p q [] h = refl
filter-agree p q (j ∷ table) h = rw (h j, filter-agree p q table h) refl

matches_status :
    (ilike : String → String → Bool) (organization_id : String) (s : JobStatus) (j : Job)
    → (organization_id == "") ≡ false
    → matches ilike
        (record no_filter {
          organization_id = some organization_id;
          status = some (one s);
          limit = some 1;
        })
        j
      ≡ ((j.status == s) && is_of organization_id j)
unfolding matches elem
matches_status ilike organization_id s j named =
    ground (arith, named, status_eq.equal_iff j.status s, status_eq.equal_iff s j.status)

total_in-rows_in :
    (ilike : String → String → Bool) (ties : JobFilter → Job → Job → Bool)
    (organization_id : String) (s : JobStatus) (table : Jobs)
    → (organization_id == "") ≡ false
    → total_in ilike ties organization_id s table ≡ rows_in organization_id s table
unfolding total_in find_many
total_in-rows_in ilike ties organization_id s table named =
    length-perm (sort_by-perm _ (filter (matches ilike _) table))
    ∙ ap length (filter-agree _ _ table (λ j. matches_status ilike organization_id s j named))

-- One row more in its status is one row more in all.
step :
    (s : JobStatus) (b : Bool) (n₀ n₁ n₂ n₃ n₄ n₅ n₆ n₇ n₈ total : ℕ)
    → n₀ + n₁ + n₂ + n₃ + n₄ + n₅ + n₆ + (n₇ + n₈) ≡ total
    → (if (s == pending) && b then suc n₀ else n₀)
        + (if (s == queued) && b then suc n₁ else n₁)
        + (if (s == running) && b then suc n₂ else n₂)
        + (if (s == completed) && b then suc n₃ else n₃)
        + (if (s == failed) && b then suc n₄ else n₄)
        + (if (s == retrying) && b then suc n₅ else n₅)
        + (if (s == cancelled) && b then suc n₆ else n₆)
        + ((if (s == timed_out) && b then suc n₇ else n₇)
            + (if (s == skipped) && b then suc n₈ else n₈))
      ≡ (if b then suc total else total)
step s false n₀ n₁ n₂ n₃ n₄ n₅ n₆ n₇ n₈ total h = ground (arith, h)
step pending true n₀ n₁ n₂ n₃ n₄ n₅ n₆ n₇ n₈ total h = omega (arith, h)
step queued true n₀ n₁ n₂ n₃ n₄ n₅ n₆ n₇ n₈ total h = omega (arith, h)
step running true n₀ n₁ n₂ n₃ n₄ n₅ n₆ n₇ n₈ total h = omega (arith, h)
step completed true n₀ n₁ n₂ n₃ n₄ n₅ n₆ n₇ n₈ total h = omega (arith, h)
step failed true n₀ n₁ n₂ n₃ n₄ n₅ n₆ n₇ n₈ total h = omega (arith, h)
step retrying true n₀ n₁ n₂ n₃ n₄ n₅ n₆ n₇ n₈ total h = omega (arith, h)
step cancelled true n₀ n₁ n₂ n₃ n₄ n₅ n₆ n₇ n₈ total h = omega (arith, h)
step timed_out true n₀ n₁ n₂ n₃ n₄ n₅ n₆ n₇ n₈ total h = omega (arith, h)
step skipped true n₀ n₁ n₂ n₃ n₄ n₅ n₆ n₇ n₈ total h = omega (arith, h)

rows_total :
    (org : String) (table : Jobs)
    → rows_in org pending table
        + rows_in org queued table
        + rows_in org running table
        + rows_in org completed table
        + rows_in org failed table
        + rows_in org retrying table
        + rows_in org cancelled table
        + (rows_in org timed_out table + rows_in org skipped table)
      ≡ length (filter (is_of org) table)
unfolding filter
rows_total org [] = refl
rows_total org (j ∷ table) =
    simp length-filter-cons (step j.status (is_of org j) _ _ _ _ _ _ _ _ _ _ (rows_total org table))

abbrev pub IsReportOf : String → Jobs → JobStats → Type 0
IsReportOf org table stats =
    (stats.total + (rows_in org timed_out table + rows_in org skipped table)
      ≡ length (filter (is_of org) table))
    × (stats.by_status ≡ (record {
      pending_total = rows_in org pending table;
      queued_total = rows_in org queued table;
      running_total = rows_in org running table;
      completed_total = rows_in org completed table;
      failed_total = rows_in org failed table;
      retrying_total = rows_in org retrying table;
      cancelled_total = rows_in org cancelled table;
    }))

-- For an organisation with a name, the total of the report with the jobs that timed out or were
-- skipped is the number of its jobs, and each count by status is the number of its jobs in that
-- status.
pub get_job_stats_correct :
    (ilike : String → String → Bool) (ties : JobFilter → Job → Job → Bool) (org : String)
    (table : Jobs)
    → (org == "") ≡ false
    → IsReportOf org table (get_job_stats ilike ties org table)
unfolding get_job_stats
get_job_stats_correct ilike ties org table named =
    let count = λ (s : JobStatus). total_in-rows_in ilike ties org s table named in
    (
      rw
          (
            count pending,
            count queued,
            count running,
            count completed,
            count failed,
            count retrying,
            count cancelled,
          )
          (rows_total org table),
      rw
          (
            count pending,
            count queued,
            count running,
            count completed,
            count failed,
            count retrying,
            count cancelled,
          )
          refl,
    )
