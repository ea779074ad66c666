-- ===== src/JobRepository/Batch.antt =====
-- A loop that updates one row after the other, each by its id.
use mathlib.Core.Option
use backend_task_orchestrati.Prelude.{
  ℕ, ◌≡◌, refl, ◌∙◌, Bool, String, Option, none, some, [], ◌∷◌, filter, if◌then◌else◌, ◌>>=◌, arith,
  Bool-cases, Option-cases, inl, inr,
}
use backend_task_orchestrati.Prelude.Eq.{◌==◌, string_eq}
use backend_task_orchestrati.Prelude.Keys.{IsUnique}
use backend_task_orchestrati.Models.Job.{Job, UpdateJobDto}
use backend_task_orchestrati.JobRepository.{
  Jobs, ids, find_by_id, apply_update, update, update_each,
}
use backend_task_orchestrati.JobRepository.Rows.{find_by_id-update_where, find_by_id_absent}

-- Under distinct ids a lookup among the picked rows finds the row if the test holds of it.
pub find_by_id-filter :
    (p : Job → Bool) (id : String) (table : Jobs)
    → IsUnique (ids table)
    → find_by_id id (filter p table) ≡ (find_by_id id table >>= λ j. if p j then some j else none)
unfolding find_by_id filter
find_by_id-filter p id [] u = refl
find_by_id-filter p id (j ∷ table) u = ground (
  arith,
  string_eq.equal_iff j.id id,
  find_by_id_absent j.id table u.0,
  find_by_id-filter p id table u.1,
)

pub find_by_id-id :
    (id : String) (table : Jobs) (j : Job) → find_by_id id table ≡ some j → j.id ≡ id
unfolding find_by_id
find_by_id-id id [] j e = absurd (ground arith)
find_by_id-id id (k ∷ table) j e =
    ground (arith, string_eq.equal_iff k.id id, find_by_id-id id table j)

-- What an update leaves at each id.
pub find_by_id-update :
    (now : ℕ) (id key : String) (dto : UpdateJobDto) (table : Jobs)
    → find_by_id id (update now key dto table).1 ≡ (
        if key == id
        then Option.map (apply_update now dto) (find_by_id id table)
        else find_by_id id table)
unfolding update apply_update
find_by_id-update now id key dto table =
    find_by_id-update_where (λ j. j.id == key) (apply_update now dto) (λ j. refl) id table
    ∙ elim (Option-cases (find_by_id id table)) [
      | inl absent ↦ rw absent (ground arith)
      | inr (j, found) ↦ rw found (
          ground (
            arith,
            find_by_id-id id table j found,
            string_eq.equal_iff j.id key,
            string_eq.equal_iff key id,
          ))
    ]

-- The row of the table after the picked row with its id, if any, was updated.
abbrev pub updated_by : ℕ → (Job → UpdateJobDto) → Option Job → Option Job → Option Job
updated_by now dto none row = row
updated_by now dto (some job) row = Option.map (apply_update now (dto job)) row

-- Each picked row is updated once, and the others are left.
pub find_by_id-update_each :
    (now : ℕ) (dto : Job → UpdateJobDto) (id : String) (jobs table : Jobs)
    → IsUnique (ids jobs)
    → find_by_id id (update_each now dto jobs table)
      ≡ updated_by now dto (find_by_id id jobs) (find_by_id id table)
unfolding update_each find_by_id
find_by_id-update_each now dto id [] table u = refl
find_by_id-update_each now dto id (job ∷ jobs) table u =
    let table' = (update now job.id (dto job) table).1 in
    find_by_id-update_each now dto id jobs table' u.1
    ∙ rw (find_by_id-update now id job.id (dto job) table) (elim (Bool-cases (job.id == id)) [
      | inl here ↦
          let same : job.id ≡ id = (string_eq.equal_iff job.id id).0 here in
          let absent : find_by_id id jobs ≡ none = find_by_id_absent id jobs (rw same at u.0) in
          rw (here, absent)
      | inr other ↦ rw other
    ])
