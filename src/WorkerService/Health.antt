-- ===== src/WorkerService/Health.antt =====
-- src/monitoring/HealthCheck.ts over src/services/WorkerService.ts: what a check leaves.
use backend_task_orchestrati.Prelude.{
  ℕ, suc, ◌+◌, ◌≤◌, ◌≡◌, refl, true, String, List, [], ◌∷◌, length, arith, Bool-cases, inl, inr,
  All,
}
use backend_task_orchestrati.Prelude.Eq.{elem}
use backend_task_orchestrati.Models.Worker.{
  online, busy, draining, offline, lost, worker_status_eq, WorkerNode, WorkerStatus,
}
use backend_task_orchestrati.WorkerRepository.{Workers, is_silent, marked_lost, mark_lost_workers}
use backend_task_orchestrati.WorkerService.{
  count_in, sum_by, get_worker_metrics, detect_and_mark_lost_workers, check_workers,
}

-- A worker at work sent a heartbeat in time.
abbrev pub IsHeard : ℕ → ℕ → WorkerNode → Type 0
IsHeard now timeout w =
    elem w.status (online ∷ busy ∷ []) ≡ true → now ≤ w.last_heartbeat_at + timeout

mark_lost-IsHeard :
    (now timeout : ℕ) (workers : Workers)
    → All (IsHeard now timeout) (mark_lost_workers now timeout workers).1
unfolding mark_lost_workers is_silent elem
mark_lost-IsHeard now timeout [] = tt
mark_lost-IsHeard now timeout (w ∷ workers) = elim (Bool-cases (is_silent now timeout w)) [
  | inl silent ↦ rw silent (λ h. absurd (ground (arith, h)), mark_lost-IsHeard now timeout workers)
  | inr heard ↦ rw heard (λ h. ground (arith, h, heard), mark_lost-IsHeard now timeout workers)
]

-- The counts of a table before and after so many of its workers at work are marked lost.
abbrev Moved : ℕ → Workers → Workers → Type 0
Moved n before after =
    (count_in lost after ≡ count_in lost before + n)
    × (count_in online after + count_in busy after + n
        ≡ count_in online before + count_in busy before)
    × (count_in offline after ≡ count_in offline before)
    × (length after ≡ length before)
    × (sum_by (λ w. w.max_concurrency) after ≡ sum_by (λ w. w.max_concurrency) before)

Moved-silent :
    (now n : ℕ) (s : WorkerStatus) (w : WorkerNode) (before after : Workers)
    → w.status ≡ s
    → elem s (online ∷ busy ∷ []) ≡ true
    → Moved n before after
    → Moved (suc n) (w ∷ before) (marked_lost now w ∷ after)
unfolding count_in sum_by elem
Moved-silent now n online w before after is h m = rw is (
  omega (arith, m.0),
  omega (arith, m.1),
  omega (arith, m.2),
  omega (arith, m.3),
  omega (arith, m.4),
)
Moved-silent now n busy w before after is h m = rw is (
  omega (arith, m.0),
  omega (arith, m.1),
  omega (arith, m.2),
  omega (arith, m.3),
  omega (arith, m.4),
)
Moved-silent now n draining w before after is h m = absurd (ground (arith, h))
Moved-silent now n offline w before after is h m = absurd (ground (arith, h))
Moved-silent now n lost w before after is h m = absurd (ground (arith, h))

mark_lost-Moved :
    (now timeout : ℕ) (workers : Workers)
    → Moved
        (length (mark_lost_workers now timeout workers).0)
        workers
        (mark_lost_workers now timeout workers).1
unfolding mark_lost_workers is_silent count_in sum_by
mark_lost-Moved now timeout [] = (refl, refl, refl, refl, refl)
mark_lost-Moved now timeout (w ∷ workers) = elim (Bool-cases (is_silent now timeout w)) [
  | inl silent ↦ rw silent (
      Moved-silent now _ w.status w workers _ refl (ground (arith, silent))
        (mark_lost-Moved now timeout workers))
  | inr heard ↦
      let m = mark_lost-Moved now timeout workers in
      rw heard (
        omega (arith, m.0),
        omega (arith, m.1),
        omega (arith, m.2),
        omega (arith, m.3),
        omega (arith, m.4),
      )
]

-- What a check of the workers leaves.
pub record Checked (now : ℕ) (before : Workers) (lost_ids : List String) (after : Workers)
    : Type 0 where
  -- A worker that is online or busy then sent a heartbeat in the last half minute.
  pub heard : All (IsHeard now 30000) after
  -- The metrics count the reported workers as lost, and no longer as online or busy.
  pub lost_more :
      (get_worker_metrics after).lost_count
      ≡ (get_worker_metrics before).lost_count + length lost_ids
  pub at_work_less :
      (get_worker_metrics after).online_count
        + (get_worker_metrics after).busy_count
        + length lost_ids
      ≡ (get_worker_metrics before).online_count + (get_worker_metrics before).busy_count
  pub others :
      ((get_worker_metrics after).offline_count ≡ (get_worker_metrics before).offline_count)
      × ((get_worker_metrics after).total ≡ (get_worker_metrics before).total)
      × ((get_worker_metrics after).total_capacity ≡ (get_worker_metrics before).total_capacity)

-- After a check each worker that is online or busy sent a heartbeat in the last half minute; the
-- metrics count as many workers more as lost as the check reports, and as many less as online or busy,
-- with as many offline, as many in all and the same capacity.
pub check_workers_correct :
    (now : ℕ) (workers : Workers)
    → Checked now workers (check_workers now workers).0 (check_workers now workers).2
unfolding detect_and_mark_lost_workers get_worker_metrics
check_workers_correct now workers =
    let m = mark_lost-Moved now 30000 workers in
    record {
      heard = mark_lost-IsHeard now 30000 workers;
      lost_more = m.0;
      at_work_less = m.1;
      others = (m.2, m.3, m.4);
    }
