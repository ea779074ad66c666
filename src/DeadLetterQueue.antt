-- ===== src/DeadLetterQueue.antt =====
-- src/queue/DeadLetterQueue.ts, with `manualRetry` and the replays of src/services/RetryService.ts.
-- BullMQ is a parameter: the dead letters are a store with its calls (DeadLetterQueue/Store), and the
-- main queue takes or refuses a payload. An error of `getJob` is the same to the callers as a missing
-- entry; one of the listing ends the replay of all before anything changes.
pub mod Store
pub mod Replay
mod Tests
use Prim.Native.String.{◌++◌ as join}
use backend_task_orchestrati.Prelude.{
  ℕ, suc, ◌+◌, Bool, true, false, String, Option, none, some, List, [], ◌∷◌, ◌++◌, length,
  if◌then◌else◌,
}
use backend_task_orchestrati.Models.Json.{Fields}
use backend_task_orchestrati.Models.Job.{JobType, pending, UpdateJobDto}
use backend_task_orchestrati.JobQueue.{QueueJobPayload}
use backend_task_orchestrati.JobRepository.{Jobs, find_by_id, no_update, update}
use backend_task_orchestrati.WorkerProcess.{DlqEntry}
use backend_task_orchestrati.DeadLetterQueue.Store.{DlqStore}

-- `add`: the entry under the id `dlq_…`.
abbrev pub add_request : DlqEntry → String × DlqEntry
add_request entry = (join "dlq_" entry.original_job_id, entry)

-- What is added to the main queue.
abbrev pub replay_payload : DlqEntry → QueueJobPayload
replay_payload entry = record {
  job_id = entry.original_job_id;
  type = entry.type;
  payload = entry.payload;
  organization_id = entry.organization_id;
  attempt_number = entry.total_attempts + 1;
}

-- The store of the queue, and the payloads that were added to the main queue so far.
pub record Replays (S : Type 0) : Type 0 where
  pub store : S
  pub added : List QueueJobPayload

module _ {S : Type 0} (queue : DlqStore S) (adds : String → Bool) where
  -- Whether the replay returns, or throws. `adds` is whether the main queue takes the job of an entry.
  unfoldable pub replay_job : String → Replays S → Bool × Replays S
  replay_job id r = elim (queue.get_job id r.store) [
    | none ↦ (false, r)
    | some entry ↦
        if adds id
        then (let (fine, store') = queue.remove id r.store in
            (fine, record { store = store'; added = r.added ++ replay_payload entry ∷ [] }))
        else (false, r)
  ]

  unfoldable pub replay_loop : List (String × DlqEntry) → ℕ → Replays S → ℕ × Replays S
  replay_loop [] replayed r = (replayed, r)
  replay_loop (e ∷ entries) replayed r =
      let (fine, r') = replay_job e.0 r in
      replay_loop entries (if fine then replayed + 1 else replayed) r'

  -- The number of jobs replayed, with what is left and what was added.
  unfoldable pub replay_all_dlq : S → ℕ × Replays S
  replay_all_dlq store =
      replay_loop (queue.get_jobs 0 100 store) 0 (record { store = store; added = [] })

-- The error, or the table; the fields that are `undefined` are left.
unfoldable pub manual_retry : ℕ → String → Jobs → Option Jobs
manual_retry now job_id table = elim (find_by_id job_id table) [
  | none ↦ none
  | some job ↦
      some
        (update now job_id
          (record no_update { status = some pending; retry_count = some job.retry_count }) table).1
]
