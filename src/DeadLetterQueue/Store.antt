-- ===== src/DeadLetterQueue/Store.antt =====
-- The calls that src/queue/DeadLetterQueue.ts makes of its queue, as BullMQ documents them.
use backend_task_orchestrati.Prelude.{
  ℕ, ◌≡◌, ◌≢◌, Bool, true, false, String, Option, none, some, List, map, All,
}
use backend_task_orchestrati.Prelude.Eq.{string_eq}
use backend_task_orchestrati.Prelude.Keys.{IsUnique}
use backend_task_orchestrati.WorkerProcess.{DlqEntry}

-- `get_jobs` is `getJobs` of the jobs that failed, completed or wait, from one index to another. `remove`
-- tells whether the call returns or throws.
pub record DlqStore (S : Type 0) : Type 0 where
  pub get_jobs : ℕ → ℕ → S → List (String × DlqEntry)
  pub get_job : String → S → Option DlqEntry
  pub remove : String → S → Bool × S
  -- A job that is listed is found under its id, and is listed once.
  pub get_jobs-get_job :
      (first last : ℕ) (s : S) → All (λ e. get_job e.0 s ≡ some e.1) (get_jobs first last s)
  pub get_jobs-IsUnique :
      (first last : ℕ) (s : S) → IsUnique (map (λ e. e.0) (get_jobs first last s))
  pub remove_done :
      (id : String) (s : S) → (remove id s).0 ≡ true → get_job id (remove id s).1 ≡ none
  pub remove_thrown :
      (id : String) (s : S) → (remove id s).0 ≡ false → get_job id (remove id s).1 ≡ get_job id s
  pub remove_other :
      (id other : String) (s : S) → id ≢ other → get_job other (remove id s).1 ≡ get_job other s
