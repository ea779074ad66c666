-- ===== src/PriorityQueue/Tests.antt =====
-- Runs of the queue at small inputs, and the theorems at inputs that meet their hypotheses.
use backend_task_orchestrati.Prelude.{
  Option, ℕ, zero, suc, ◌≡◌, refl, List, [], ◌∷◌, some, arith, get_or, ◌>>=◌,
}
use backend_task_orchestrati.Prelude.Arrays.{swap}
use backend_task_orchestrati.Prelude.Sort.{insert_by, sort_by}
use backend_task_orchestrati.PriorityQueue.{
  PriorityItem, PriorityQueue, compare_fn, is_less_at, bubble_up, smaller_of, sink_down, is_empty,
  push, replace_root, pop, to_array,
}
use backend_task_orchestrati.PriorityQueue.Invariant.{IsHeap, IsHeapAt}
use backend_task_orchestrati.PriorityQueue.Refines.{
  Operation, pushes, pops, perform_all, SpecRun, queue_refines,
}
use backend_task_orchestrati.PriorityQueue.Pop.{Popped, pop_correct}

abbrev item : ℕ → ℕ → ℕ → PriorityItem ℕ
item score at id = record { score = score; scheduled_at = at; created_at = id; payload = id }

abbrev queue : List (PriorityItem ℕ) → PriorityQueue ℕ
queue items = record { heap = items }

abbrev three : PriorityQueue ℕ
three = queue (item 1 5 1 ∷ item 3 0 2 ∷ item 1 7 3 ∷ [])

push-three :
    (push three (item 1 5 0) >>= λ q. pop q)
    ≡ some (some (item 1 5 0), queue (item 1 5 1 ∷ item 3 0 2 ∷ item 1 7 3 ∷ []))
unfolding push pop is_empty replace_root bubble_up sink_down smaller_of is_less_at swap compare_fn
push-three = refl

to_array-three : to_array three ≡ item 1 5 1 ∷ item 1 7 3 ∷ item 3 0 2 ∷ []
unfolding to_array sort_by insert_by compare_fn
to_array-three = refl

three-IsHeapAt : (d : PriorityItem ℕ) → IsHeapAt d three.heap
unfolding get_or compare_fn
three-IsHeapAt d zero p q = absurd (omega arith)
three-IsHeapAt d (suc zero) p q = refl
three-IsHeapAt d (suc (suc zero)) p q = refl
three-IsHeapAt d (suc (suc (suc c))) p q = absurd (omega arith)

three-IsHeap : IsHeap three.heap
three-IsHeap d = three-IsHeapAt d

pop_correct_example :
    (top : PriorityItem ℕ) × (q' : PriorityQueue ℕ) × (pop three ≡ some (some top, q'))
    × Popped three top q'
pop_correct_example = pop_correct three three-IsHeap (omega arith)

abbrev push_then_pop : List (Operation ℕ)
push_then_pop = pushes (item 1 5 0) ∷ pops ∷ []

queue_refines_example :
    (outs : List (Option (PriorityItem ℕ))) × (q' : PriorityQueue ℕ) × (perform_all push_then_pop
        three
      ≡ some (outs, q'))
    × IsHeap q'.heap
    × SpecRun three.heap push_then_pop outs q'.heap
queue_refines_example = queue_refines push_then_pop three three-IsHeap
