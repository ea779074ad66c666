-- ===== src/JobService/Bulk.antt =====
-- What a bulk cancellation reports, and what it leaves.
use mathlib.Core.List.Perm
use mathlib.Core.List.{perm_middle, perm_append_singleton, append-nil, append_assoc}
use backend_task_orchestrati.Prelude.{
  ℕ, ◌≡◌, refl, sym, ◌∙◌, String, some, List, [], ◌∷◌, ◌++◌, Perm, All, All_map, All_snoc,
  Bool-cases, inl, inr,
}
use backend_task_orchestrati.Prelude.Eq.{◌==◌, string_eq}
use backend_task_orchestrati.Models.Job.{cancelled, Job}
use backend_task_orchestrati.JobRepository.{Jobs, find_by_id, apply_update, update}
use backend_task_orchestrati.JobRepository.Batch.{find_by_id-update}
use backend_task_orchestrati.JobService.{
  Result, ok, err, cancellation, cancel_job, BulkResult, sorted_into, bulk_cancel_loop, bulk_cancel,
}
use backend_task_orchestrati.JobService.Tenancy.{nothing, one_row, cancel_job-Touch}
use backend_task_orchestrati.JobService.Lifecycle.{cancel_job-ok, cancel_job_open, update-Replaced}

abbrev pub IsCancelled : Jobs → String → Type 0
IsCancelled table id = (j : Job) × (find_by_id id table ≡ some j) × (j.status ≡ cancelled)

module _ (now : ℕ) (organization_id : String) where
  update-IsCancelled :
      (id key : String) (table : Jobs)
      → IsCancelled table id
      → IsCancelled (update now key (cancellation now) table).1 id
  unfolding apply_update
  update-IsCancelled id key table (j, found, is) =
      let e = find_by_id-update now id key (cancellation now) table in
      elim (Bool-cases (key == id)) [
        | inl same ↦ (apply_update now (cancellation now) j, e ∙ rw (same, found), refl)
        | inr differs ↦ (j, e ∙ rw (differs, found), is)
      ]

  -- A job that is cancelled stays so.
  cancel_job-IsCancelled :
      (id key : String) (table : Jobs)
      → IsCancelled table id
      → IsCancelled (cancel_job now key organization_id table).1 id
  cancel_job-IsCancelled id key table is = elim (cancel_job-Touch now key organization_id table) [
    | nothing e ↦ rw e is
    | one_row job found owned e ↦ rw e (update-IsCancelled id key table is)
  ]

  -- What a call reports as cancelled is so.
  cancel_job_done :
      (key : String) (table : Jobs) (job : Job)
      → (cancel_job now key organization_id table).0 ≡ ok job
      → IsCancelled (cancel_job now key organization_id table).1 key
  unfolding apply_update
  cancel_job_done key table job h =
      let (old, found, owned, open_still) = cancel_job-ok now key organization_id table job h in
      let done = apply_update now (cancellation now) old in
      rw (cancel_job_open now key organization_id table old found owned open_still) (
        done,
        (update-Replaced now key organization_id table old found owned (cancellation now)).stored,
        refl,
      )

  abbrev Reported : BulkResult → Jobs → List String → Type 0
  Reported r table seen =
      Perm (r.cancelled_ids ++ r.skipped_ids) seen × All (IsCancelled table) r.cancelled_ids

  sorted_into-Reported :
      (key : String) (table : Jobs) (r : BulkResult) (seen : List String)
      → Reported r table seen
      → Reported
          (sorted_into key (cancel_job now key organization_id table).0 r)
          (cancel_job now key organization_id table).1
          (key ∷ seen)
  sorted_into-Reported key table r seen (perm, done) =
      go (cancel_job now key organization_id table).0 refl
    where
      kept : All (IsCancelled (cancel_job now key organization_id table).1) r.cancelled_ids
      kept =
          All_map {P = IsCancelled table} r.cancelled_ids done
            (λ id. cancel_job-IsCancelled id key table)

      go :
          (o : Result Job)
          → (cancel_job now key organization_id table).0 ≡ o
          → Reported (sorted_into key o r) (cancel_job now key organization_id table).1 (key ∷ seen)
      go (err e) h = (
        rw (sym (append_assoc r.cancelled_ids r.skipped_ids (key ∷ []))) (
            Perm.trans (perm_append_singleton key (r.cancelled_ids ++ r.skipped_ids))
              (Perm.cons key perm)),
        kept,
      )
      go (ok job) h = (
        rw (append_assoc r.cancelled_ids (key ∷ []) r.skipped_ids)
            (Perm.trans (perm_middle r.cancelled_ids r.skipped_ids) (Perm.cons key perm)),
        All_snoc _ r.cancelled_ids key kept (cancel_job_done key table job h),
      )

  loop-Reported :
      (chosen : List String) (r : BulkResult) (table : Jobs) (seen : List String)
      → Reported r table seen
      → let (r', table') = bulk_cancel_loop now chosen organization_id r table in
        Perm (r'.cancelled_ids ++ r'.skipped_ids) (seen ++ chosen)
        × All (IsCancelled table') r'.cancelled_ids
  unfolding bulk_cancel_loop
  loop-Reported [] r table seen (perm, done) = (rw (append-nil seen) perm, done)
  loop-Reported (id ∷ chosen) r table seen reported =
      let (perm, done) =
        loop-Reported chosen _ _ (id ∷ seen) (sorted_into-Reported id table r seen reported) in
      (Perm.trans perm (Perm.symm (perm_middle seen chosen)), done)

-- A bulk cancellation reports each id that it was given once, as cancelled or as skipped, and every
-- id that it reports as cancelled is that of a job which is cancelled in the end.
pub bulk_cancel_correct :
    (now : ℕ) (chosen : List String) (organization_id : String) (table : Jobs)
    → let (r, after) = bulk_cancel now chosen organization_id table in
      Perm (r.cancelled_ids ++ r.skipped_ids) chosen × All (IsCancelled after) r.cancelled_ids
unfolding bulk_cancel
bulk_cancel_correct now chosen organization_id table =
    loop-Reported now organization_id chosen _ table [] (Perm.refl [], tt)
