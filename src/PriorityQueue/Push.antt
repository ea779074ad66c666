-- ===== src/PriorityQueue/Push.antt =====
-- `push`.
use mathlib.Core.List.Perm
use backend_task_orchestrati.Prelude.{
  ◌-◌, ◌≡◌, List, [], ◌∷◌, ◌++◌, some, Perm, arith, length, length-append, concat-perm,
}
use backend_task_orchestrati.Prelude.Arrays.{get_or-append}
use backend_task_orchestrati.PriorityQueue.{PriorityItem, PriorityQueue, push}
use backend_task_orchestrati.PriorityQueue.Invariant.{parent, IsHeap, IsHeapAt-IsHeap}
use backend_task_orchestrati.PriorityQueue.Up.{UpInv, bubble_up_lem}

module _ {T : Type 0} where
  append-UpInv :
      (a : List (PriorityItem T)) (item : PriorityItem T)
      → IsHeap a
      → UpInv item (a ++ item ∷ []) (length (a ++ item ∷ []) - 1)
  append-UpInv a item heap =
      let size = length-append a (item ∷ []) in
      record {
        inside = omega (arith, size);
        edges = λ c p q ne. ground (
          arith,
          size,
          heap item c,
          get_or-append a (item ∷ []) c item,
          get_or-append a (item ∷ []) (parent c) item,
        );
        bridged = λ c p q e f. absurd (omega (arith, size));
      }

  -- Pushing onto a heap ends, in a heap of exactly the old items and the new one.
  pub push_correct :
      (q : PriorityQueue T) (item : PriorityItem T)
      → IsHeap q.heap
      → (q' : PriorityQueue T) × (push q item ≡ some q')
        × IsHeap q'.heap
        × Perm q'.heap (item ∷ q.heap)
  unfolding push
  push_correct q item heap =
      let a = q.heap ++ item ∷ [] in
      let start = append-UpInv q.heap item heap in
      let (b, runs, ordered, perm) =
        bubble_up_lem item (length a) a (length a - 1) (omega (arith, start.inside)) start in
      (
        record { heap = b },
        rw runs,
        IsHeapAt-IsHeap item b ordered,
        Perm.trans perm (concat-perm q.heap item),
      )
