-- ===== src/JobScheduler/Complete.antt =====
-- `onJobCompleted`, and what it makes of the counts of resolved dependencies.
use mathlib.Core.Option
use mathlib.Core.Bool.{false≢true}
use backend_task_orchestrati.Prelude.{
  ℕ, suc, ◌+◌, ◌≡◌, refl, sym, subst, ◌∙◌, Bool, true, false, ◌&&◌, String, some, List, [], ◌∷◌,
  arith, length, if◌then◌else◌, Bool-cases, inl, inr,
}
use backend_task_orchestrati.Prelude.Eq.{◌==◌}
use backend_task_orchestrati.Models.Job.{JobStatus, pending, status_eq, Job}
use backend_task_orchestrati.JobRepository.{Jobs, find_by_id, depends_on, resolve_dependency}
use backend_task_orchestrati.JobRepository.Rows.{find_by_id-update_where}
use backend_task_orchestrati.DependencyResolver.{Graph, on_job_state_change}
use backend_task_orchestrati.JobScheduler.{resolve_each, on_job_completed}

-- A job that waits for `job_id`.
abbrev pub awaits : String → Job → Bool
awaits job_id j = depends_on job_id j.dependencies && j.status == pending

-- A row after `times` further completions of `job_id` were counted.
pub record Counted (job_id : String) (times : ℕ) (old new : Job) : Type 0 where
  pub waiting :
      awaits job_id old ≡ true
      → new.resolved_dependency_count ≡ old.resolved_dependency_count + times
  pub others : awaits job_id old ≡ false → new ≡ old
  pub same_job : new.id ≡ old.id
  pub same_status : new.status ≡ old.status
  pub same_dependencies : new.dependencies ≡ old.dependencies
  pub same_total : new.dependency_count ≡ old.dependency_count

abbrev raised : ℕ → Job → Job
raised now j = record j {
  resolved_dependency_count = j.resolved_dependency_count + 1;
  updated_at = now;
}

abbrev bumped : ℕ → String → Job → Job
bumped now job_id j = if awaits job_id j then raised now j else j

find_by_id-resolve :
    (now : ℕ) (job_id id : String) (table : Jobs)
    → find_by_id id (resolve_dependency now job_id table)
      ≡ Option.map (bumped now job_id) (find_by_id id table)
unfolding resolve_dependency
find_by_id-resolve now job_id id table = find_by_id-update_where _ _ (λ j. refl) id table

bumped-Counted :
    (now : ℕ) (job_id : String) (times : ℕ) (old new : Job)
    → Counted job_id times (bumped now job_id old) new
    → Counted job_id (suc times) old new
bumped-Counted now job_id times old new c = elim (Bool-cases (awaits job_id old)) [
  | inl t ↦
      let c' : Counted job_id times (raised now old) new =
        subst (λ (b : Bool). Counted job_id times (if b then raised now old else old) new) t c in
      record {
        waiting = λ _. c'.waiting t ∙ count old.resolved_dependency_count;
        others = λ f. absurd (false≢true (sym f ∙ t));
        same_job = c'.same_job;
        same_status = c'.same_status;
        same_dependencies = c'.same_dependencies;
        same_total = c'.same_total;
      }
  | inr f ↦
      let c' : Counted job_id times old new =
        subst (λ (b : Bool). Counted job_id times (if b then raised now old else old) new) f c in
      record {
        waiting = λ t. absurd (false≢true (sym f ∙ t));
        others = c'.others;
        same_job = c'.same_job;
        same_status = c'.same_status;
        same_dependencies = c'.same_dependencies;
        same_total = c'.same_total;
      }
]
  where
    count : (n : ℕ) → n + 1 + times ≡ n + suc times
    count n = omega arith

resolve_each-Counted :
    (now : ℕ) (job_id id : String) (unblocked : List String) (table : Jobs) (job : Job)
    → find_by_id id table ≡ some job
    → (job' : Job) × (find_by_id id (resolve_each now job_id unblocked table) ≡ some job')
      × Counted job_id (length unblocked) job job'
unfolding resolve_each
resolve_each-Counted now job_id id [] table job found = (
  job,
  found,
  record {
    waiting = λ h. ground arith;
    others = λ h. refl;
    same_job = refl;
    same_status = refl;
    same_dependencies = refl;
    same_total = refl;
  },
)
resolve_each-Counted now job_id id (u ∷ unblocked) table job found =
    let (job', e, c) =
      resolve_each-Counted now job_id id unblocked (resolve_dependency now job_id table)
        (bumped now job_id job) (find_by_id-resolve now job_id id table ∙ rw found) in
    (job', e, bumped-Counted now job_id (length unblocked) job job' c)

-- A completion raises the count of resolved dependencies of each pending job that waits for the
-- completed one by the number of jobs which the graph unblocked, and changes nothing else of a
-- stored job but the time of its update.
pub on_job_completed_counts :
    (now : ℕ) (job_id id : String) (status : JobStatus) (table : Jobs) (graph : Graph) (job : Job)
    → find_by_id id table ≡ some job
    → (job' : Job) × (find_by_id id (on_job_completed now job_id status table graph).0 ≡ some job')
      × Counted job_id (length (on_job_state_change job_id status graph).0) job job'
unfolding on_job_completed
on_job_completed_counts now job_id id status table graph job found =
    resolve_each-Counted now job_id id (on_job_state_change job_id status graph).0 table job found
