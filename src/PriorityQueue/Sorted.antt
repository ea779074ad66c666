-- ===== src/PriorityQueue/Sorted.antt =====
-- `toArray`.
use backend_task_orchestrati.Prelude.{Perm}
use backend_task_orchestrati.Prelude.Sort.{
  sort_by-perm, sort_by-IsSortedBy, IsSortedBy, StrictOrder,
}
use backend_task_orchestrati.PriorityQueue.{PriorityQueue, to_array}
use backend_task_orchestrati.PriorityQueue.Order.{before, before_asym, not_before_trans}

module _ {T : Type 0} where
  before-StrictOrder : StrictOrder (before {T = T})
  before-StrictOrder = record { asym = before_asym; not_trans = not_before_trans }

  -- The array holds exactly the queue's items, and no item goes before one in front of it.
  pub to_array_correct :
      (q : PriorityQueue T) → IsSortedBy before (to_array q) × Perm (to_array q) q.heap
  unfolding to_array
  to_array_correct q =
      (sort_by-IsSortedBy before before-StrictOrder q.heap, sort_by-perm before q.heap)
