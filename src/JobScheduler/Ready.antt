-- ===== src/JobScheduler/Ready.antt =====
-- `scheduleReadyJobs`.
use mathlib.Core.Option
use mathlib.Core.List.{append-nil, append_assoc}
use backend_task_orchestrati.Prelude.{
  ℕ, ◌≡◌, refl, ap, ◌∙◌, Bool, true, false, not, ltb, String, Option, none, some, List, [], ◌∷◌,
  ◌++◌, map, filter, ◌>>=◌, All, All_map, map-All, arith, Bool-cases, Option-cases, inl, inr,
  if◌then◌else◌, take,
}
use backend_task_orchestrati.Prelude.Eq.{nat_eq, string_eq, elem}
use backend_task_orchestrati.Prelude.Keys.{IsUnique, IsUnique-filter}
use backend_task_orchestrati.Models.Job.{pending, status_eq, Job}
use backend_task_orchestrati.JobQueue.{Request}
use backend_task_orchestrati.JobRepository.{
  Jobs, ids, find_by_id, apply_update, update_each, is_runnable, mark_queued, candidates,
  claim_pending_jobs,
}
use backend_task_orchestrati.JobRepository.Batch.{find_by_id-update_each, find_by_id-filter}
use backend_task_orchestrati.JobRepository.Claim.{
  taken, claim_correct, claimed-map, ids-after, find_by_id-after,
}
use backend_task_orchestrati.JobScheduler.{
  enqueue_request, back_to_pending, schedule_one, schedule_all, schedule_ready_jobs,
}

module _ (now : ℕ) (accepts : Request → Bool) where
  abbrev pub goes : Job → Bool
  goes job = accepts (enqueue_request now job)

  -- The jobs whose counts agree are sent if the queue accepts them, and returned otherwise.
  schedule_all_met :
      (jobs table : Jobs) (sent : List Request)
      → All (λ j. ltb j.resolved_dependency_count j.dependency_count ≡ false) jobs
      → schedule_all now accepts jobs table sent ≡ (
        update_each now (λ j. back_to_pending) (filter (λ j. not (goes j)) jobs) table,
        sent ++ map (enqueue_request now) (filter goes jobs),
      )
  unfolding schedule_all schedule_one update_each filter
  schedule_all_met [] table sent h = rw (append-nil sent)
  schedule_all_met (job ∷ jobs) table sent h = elim (Bool-cases (goes job)) [
    | inl e ↦
        rw (h.0, e)
          (schedule_all_met jobs table (sent ++ enqueue_request now job ∷ []) h.1
            ∙ rw (
                append_assoc sent (enqueue_request now job ∷ [])
                  (map (enqueue_request now) (filter goes jobs))))
    | inr e ↦ rw (h.0, e) (schedule_all_met jobs _ sent h.1)
  ]

-- Changing what a test picks, and then picking it, finds a row that was changed.
picked :
    (p : Job → Bool) (change : Job → Job)
    → ((j : Job) → p (change j) ≡ p j)
    → (row : Option Job)
    → Option.map (λ j. if p j then change j else j) row
      ≡ elim (Option.map (λ j. if p j then change j else j) row >>= λ j.
          if p j then some j else none) [ none ↦ row | some job ↦ some job ]
picked p change keeps none = refl
picked p change keeps (some j) = elim (Bool-cases (p j)) [
  | inl h ↦ rw (h, keeps j, h)
  | inr h ↦ rw (h, h)
]

runnable-met :
    (now : ℕ) (j : Job)
    → is_runnable now j ≡ true
    → ltb j.resolved_dependency_count j.dependency_count ≡ false
unfolding is_runnable
runnable-met now j h = ground arith

module _ (now : ℕ) (locked : String → Bool) (batch_size : ℕ) (accepts : Request → Bool)
    (table : Jobs) where
  abbrev pub claimed_jobs : Jobs
  claimed_jobs = (claim_pending_jobs now locked batch_size table).0

  -- What a round leaves of the row with an id, where `row` is the claimed job with the id.
  abbrev pub left_by_round : Option Job → Option Job → Option Job
  left_by_round none old = old
  left_by_round (some job) old =
      some (if goes now accepts job then job else record job { status = pending; updated_at = now })

  abbrev after_claim : Jobs
  after_claim = (claim_pending_jobs now locked batch_size table).1

  abbrev refused : Jobs
  refused = filter (λ j. not (goes now accepts j)) claimed_jobs

  claimed-met :
      IsUnique (ids table)
      → All (λ j. ltb j.resolved_dependency_count j.dependency_count ≡ false) claimed_jobs
  unfolding mark_queued
  claimed-met unique = rw (claimed-map now locked batch_size table) (
      map-All _ (mark_queued now) (taken now locked batch_size table) (
        All_map _ (claim_correct now locked batch_size table unique).runnable
          (λ j h. runnable-met now j h.0)))

  after_claim-IsUnique : IsUnique (ids table) → IsUnique (ids after_claim)
  after_claim-IsUnique unique = rw (ids-after now locked batch_size table) unique

  claimed-IsUnique : IsUnique (ids table) → IsUnique (ids claimed_jobs)
  unfolding claim_pending_jobs
  claimed-IsUnique unique =
      IsUnique-filter (λ (j : Job). j.id) _ after_claim (after_claim-IsUnique unique)

  -- A claimed job is the row that the claim left; a row of which no job was claimed is as it was.
  find_by_id-claim :
      (id : String)
      → IsUnique (ids table)
      → find_by_id id after_claim
        ≡ elim (find_by_id id claimed_jobs) [ none ↦ find_by_id id table | some job ↦ some job ]
  unfolding claim_pending_jobs mark_queued
  find_by_id-claim id unique =
      let chosen = ids (take batch_size (candidates now locked table)) in
      let e =
        find_by_id-filter (λ j. elem j.id chosen) id after_claim (after_claim-IsUnique unique) in
      let f = find_by_id-after now locked batch_size table id in
      rw (e, f) (picked (λ j. elem j.id chosen) (mark_queued now) (λ j. refl) (find_by_id id table))

  refused_rows :
      (id : String)
      → IsUnique (ids table)
      → find_by_id id (update_each now (λ j. back_to_pending) refused after_claim)
        ≡ left_by_round (find_by_id id claimed_jobs) (find_by_id id table)
  unfolding apply_update
  refused_rows id unique =
      find_by_id-update_each now (λ j. back_to_pending) id refused after_claim
        (IsUnique-filter (λ (j : Job). j.id) _ claimed_jobs (claimed-IsUnique unique))
      ∙ rw
          (
            find_by_id-filter (λ j. not (goes now accepts j)) id claimed_jobs
                (claimed-IsUnique unique),
            find_by_id-claim id unique,
          )
          (elim (Option-cases (find_by_id id claimed_jobs)) [
            | inl e ↦ rw e
            | inr (job, e) ↦
                rw e (elim (Bool-cases (goes now accepts job)) [ inl g ↦ rw g | inr g ↦ rw g ])
          ])

  -- With distinct ids, a round of scheduling sends one request for each claimed job, as far as the
  -- queue accepts it, in the order of the claim. A claimed job whose request was accepted stays
  -- queued, one whose request was refused is pending again, and all other rows are as they were.
  pub schedule_ready_correct :
      IsUnique (ids table)
      → ((schedule_ready_jobs now locked batch_size accepts table).1
          ≡ map (enqueue_request now) (filter (goes now accepts) claimed_jobs))
        × ((id : String)
            → find_by_id id (schedule_ready_jobs now locked batch_size accepts table).0
              ≡ left_by_round (find_by_id id claimed_jobs) (find_by_id id table))
  unfolding schedule_ready_jobs
  schedule_ready_correct unique =
      let round = schedule_all_met now accepts claimed_jobs after_claim [] (claimed-met unique) in
      (
        ap (λ (r : Jobs × List Request). r.1) round,
        λ id. ap (λ (r : Jobs × List Request). find_by_id id r.0) round ∙ refused_rows id unique,
      )
