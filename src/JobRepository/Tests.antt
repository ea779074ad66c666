-- ===== src/JobRepository/Tests.antt =====
-- A claim at a small table, and the theorems there.
use backend_task_orchestrati.Prelude.{
  ◌≡◌, refl, Bool, false, String, some, [], ◌∷◌, All, filter, is_some, inl, inr, arith,
}
use backend_task_orchestrati.Prelude.Eq.{string_eq, elem}
use backend_task_orchestrati.Prelude.Keys.{IsUnique, has_key}
use backend_task_orchestrati.Prelude.Sort.{insert_by, sort_by}
use backend_task_orchestrati.Models.Job.{Job, running, critical, low}
use backend_task_orchestrati.JobRepository.Query.{no_filter, matches}
use backend_task_orchestrati.Models.Filter.{JobFilter}
use backend_task_orchestrati.JobRepository.Pages.{NoTies, Paged, pages_correct}
use backend_task_orchestrati.Samples.{plain_job, job_in}
use backend_task_orchestrati.JobRepository.{
  Jobs, ids, is_runnable, claims_before, candidates, mark_queued, update_where, claim_pending_jobs,
}
use backend_task_orchestrati.JobRepository.Claim.{
  Claimed, claim_correct, claimed, after, claim_disjoint,
}

-- One job is low, one runs, one is critical and one is to run later.
abbrev table : Jobs
table =
    record (plain_job "a") { priority = low }
    ∷ job_in "b" running
    ∷ record (plain_job "c") { priority = critical }
    ∷ record (plain_job "d") { scheduled_at = some 50 }
    ∷ plain_job "e"
    ∷ []

abbrev none_locked : String → Bool
none_locked id = false

claims_two : ids (claim_pending_jobs 10 none_locked 2 table).0 ≡ "c" ∷ "e" ∷ []
unfolding claim_pending_jobs candidates sort_by insert_by claims_before is_runnable update_where
    mark_queued elem filter
claims_two = refl

table-IsUnique : IsUnique (ids table)
unfolding elem
table-IsUnique = (refl, (refl, (refl, (refl, (refl, tt)))))

claim_correct_example : Claimed 10 none_locked 2 table (claim_pending_jobs 10 none_locked 2 table)
claim_correct_example = claim_correct 10 none_locked 2 table table-IsUnique

claim_disjoint_example :
    All
      (λ (j : Job). has_key (λ (k : Job). k.id) (claimed 10 none_locked 2 table) j ≡ false)
      (claimed 60 none_locked 2 (after 10 none_locked 2 table))
claim_disjoint_example = claim_disjoint 10 60 none_locked none_locked 2 2 table table-IsUnique

abbrev no_text : String → String → Bool
no_text pattern text = false

-- The database orders rows that tie as it likes on each page.
abbrev by_page : JobFilter → Job → Job → Bool
by_page f a b = is_some f.page

abbrev dated : Jobs
dated =
    record (plain_job "a") { created_at = 4 }
    ∷ record (plain_job "b") { created_at = 9 }
    ∷ record (plain_job "c") { created_at = 6 }
    ∷ []

dated-NoTies : NoTies no_filter (filter (matches no_text no_filter) dated)
unfolding filter matches
dated-NoTies = ((inl refl, (inl refl, tt)), ((inr refl, tt), (tt, tt)))

pages_correct_example : Paged no_text by_page no_filter 2 dated
pages_correct_example = pages_correct no_text by_page no_filter 2 dated (omega arith) dated-NoTies
