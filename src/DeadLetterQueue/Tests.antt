-- ===== src/DeadLetterQueue/Tests.antt =====
-- The theorem on the replays at a store of two entries, of which one cannot be removed.
use backend_task_orchestrati.Prelude.{
  ◌≡◌, ◌≢◌, refl, Bool, true, false, String, Option, none, some, List, [], ◌∷◌, map, All,
  if◌then◌else◌, arith,
}
use backend_task_orchestrati.Prelude.Eq.{◌==◌, string_eq, elem}
use backend_task_orchestrati.Prelude.Keys.{IsUnique}
use backend_task_orchestrati.Models.Json.{end}
use backend_task_orchestrati.Models.Job.{custom}
use backend_task_orchestrati.WorkerProcess.{DlqEntry}
use backend_task_orchestrati.DeadLetterQueue.{replay_all_dlq}
use backend_task_orchestrati.DeadLetterQueue.Store.{DlqStore}
use backend_task_orchestrati.DeadLetterQueue.Replay.{ReplayedAll, replay_all_dlq_correct}

abbrev dead : String → DlqEntry
dead id = record {
  original_job_id = id;
  type = custom;
  payload = end;
  organization_id = "o";
  failure_reason = "refused";
  failure_stack = none;
  total_attempts = 4;
  first_failed_at = 1;
  last_failed_at = 9;
}

-- The state is whether the first entry is there; the second is locked.
abbrev list_both : Bool → List (String × DlqEntry)
list_both true = ("a", dead "a") ∷ ("b", dead "b") ∷ []
list_both false = ("b", dead "b") ∷ []

abbrev find : String → Bool → Option DlqEntry
find id there =
    if id == "a"
    then (if there then some (dead "a") else none)
    else if id == "b"
    then some (dead "b")
    else none

abbrev drop_first : String → Bool → Bool × Bool
drop_first id there = if id == "a" then (true, false) else (false, there)

list_both-find : (there : Bool) → All (λ e. find e.0 there ≡ some e.1) (list_both there)
list_both-find true = (refl, (refl, tt))
list_both-find false = (refl, tt)

list_both-IsUnique : (there : Bool) → IsUnique (map (λ e. e.0) (list_both there))
unfolding elem
list_both-IsUnique true = (refl, (refl, tt))
list_both-IsUnique false = (refl, tt)

drop_first_done :
    (id : String) (there : Bool)
    → (drop_first id there).0 ≡ true
    → find id (drop_first id there).1 ≡ none
drop_first_done id there h = ground arith

drop_first_thrown :
    (id : String) (there : Bool)
    → (drop_first id there).0 ≡ false
    → find id (drop_first id there).1 ≡ find id there
drop_first_thrown id there h = ground arith

drop_first_other :
    (id other : String) (there : Bool)
    → id ≢ other
    → find other (drop_first id there).1 ≡ find other there
drop_first_other id other there h =
    ground (arith, string_eq.equal_iff id "a", string_eq.equal_iff other "a", h)

abbrev two_entries : DlqStore Bool
two_entries = record {
  get_jobs = λ first last s. list_both s;
  get_job = find;
  remove = drop_first;
  get_jobs-get_job = λ first last s. list_both-find s;
  get_jobs-IsUnique = λ first last s. list_both-IsUnique s;
  remove_done = drop_first_done;
  remove_thrown = drop_first_thrown;
  remove_other = drop_first_other;
}

abbrev takes_all : String → Bool
takes_all id = true

replay_all_dlq_correct_example :
    ReplayedAll two_entries takes_all true (replay_all_dlq two_entries takes_all true)
replay_all_dlq_correct_example = replay_all_dlq_correct two_entries takes_all true
