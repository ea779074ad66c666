-- ===== src/JobRepository/Rows.antt =====
-- What a lookup sees after a statement.
use backend_task_orchestrati.Prelude.{
  ◌≡◌, refl, ap, Bool, false, String, none, [], ◌∷◌, map, filter, if◌then◌else◌, arith, Bool-cases,
  inl, inr,
}
use backend_task_orchestrati.Prelude.Eq.{string_eq, elem}
use backend_task_orchestrati.Models.Job.{Job}
use mathlib.Core.Option
use backend_task_orchestrati.JobRepository.{Jobs, ids, find_by_id, update_where}

module _ (test : Job → Bool) (change : Job → Job) (keeps : (j : Job) → (change j).id ≡ j.id) where
  pub ids-update_where : (table : Jobs) → ids (update_where test change table) ≡ ids table
  unfolding update_where
  ids-update_where [] = refl
  ids-update_where (j ∷ table) = ground (arith, keeps j, ids-update_where table)

  -- A row is found changed if it passes the test, and as it was otherwise.
  pub find_by_id-update_where :
      (id : String) (table : Jobs)
      → find_by_id id (update_where test change table)
        ≡ Option.map (λ j. if test j then change j else j) (find_by_id id table)
  unfolding find_by_id update_where
  find_by_id-update_where id [] = refl
  find_by_id-update_where id (j ∷ table) = ground (arith, keeps j, find_by_id-update_where id table)

  -- The rows that are changed, picked by a test that the change keeps.
  pub filter-update_where :
      ((j : Job) → test (change j) ≡ test j)
      → (table : Jobs)
      → filter test (update_where test change table) ≡ map change (filter test table)
  unfolding filter update_where
  filter-update_where same [] = refl
  filter-update_where same (j ∷ table) = elim (Bool-cases (test j)) [
    | inl t ↦ rw (t, same j, t) (ap (◌∷◌ (change j)) (filter-update_where same table))
    | inr f ↦ rw (f, f) (filter-update_where same table)
  ]

pub find_by_id_absent :
    (id : String) (table : Jobs) → elem id (ids table) ≡ false → find_by_id id table ≡ none
unfolding find_by_id elem
find_by_id_absent id [] h = refl
find_by_id_absent id (j ∷ table) h = ground (arith, find_by_id_absent id table)
