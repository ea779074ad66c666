-- ===== src/PriorityQueue/Refines.antt =====
-- src/scheduler/PriorityQueue.ts: runs of the queue against a bag of items.
use backend_task_orchestrati.Prelude.{
  ◌≡◌, refl, false, Option, none, some, List, [], ◌∷◌, Perm, All, arith, ◌>>=◌,
}
use backend_task_orchestrati.PriorityQueue.{PriorityItem, PriorityQueue, push, pop}
use backend_task_orchestrati.PriorityQueue.Order.{before}
use backend_task_orchestrati.PriorityQueue.Invariant.{IsHeap}
use backend_task_orchestrati.PriorityQueue.Push.{push_correct}
use backend_task_orchestrati.PriorityQueue.Pop.{pop_correct, pop-empty}

pub data Operation (T : Type 0) : Type 0 where
  pushes : PriorityItem T → Operation T
  pops : Operation T

module _ {T : Type 0} where
  -- What an operation gives: `pop` an item or nothing, `push` nothing.
  abbrev pub perform :
      Operation T → PriorityQueue T → Option (Option (PriorityItem T) × PriorityQueue T)
  perform (pushes item) q = push q item >>= λ q'. some (none, q')
  perform pops q = pop q

  unfoldable pub perform_all :
      List (Operation T)
      → PriorityQueue T
      → Option (List (Option (PriorityItem T)) × PriorityQueue T)
  perform_all [] q = some ([], q)
  perform_all (op ∷ ops) q =
      perform op q >>= λ r. perform_all ops r.1 >>= λ rest. some (r.0 ∷ rest.0, rest.1)

  -- The specification: a bag, of which a pop takes an item that no other goes before.
  pub data Spec (bag : List (PriorityItem T))
      : Operation T → Option (PriorityItem T) → List (PriorityItem T) → Type 0 where
    pushed :
        {bag' : List (PriorityItem T)} (item : PriorityItem T)
        → Perm bag' (item ∷ bag)
        → Spec bag (pushes item) none bag'
    popped :
        {bag' : List (PriorityItem T)} (top : PriorityItem T)
        → Perm (top ∷ bag') bag
        → All (λ x. before x top ≡ false) bag
        → Spec bag pops (some top) bag'
    nothing : {bag' : List (PriorityItem T)} → bag ≡ [] → bag' ≡ [] → Spec bag pops none bag'

  pub data SpecRun
      : List (PriorityItem T)
        → List (Operation T)
        → List (Option (PriorityItem T))
        → List (PriorityItem T)
        → Type 0 where
    ended : {bag : List (PriorityItem T)} → SpecRun bag [] [] bag
    went :
        {bag bag' bag'' : List (PriorityItem T)} {op : Operation T} {ops : List (Operation T)}
        {out : Option (PriorityItem T)} {outs : List (Option (PriorityItem T))}
        → Spec bag op out bag'
        → SpecRun bag' ops outs bag''
        → SpecRun bag (op ∷ ops) (out ∷ outs) bag''

  perform-Spec :
      (op : Operation T) (q : PriorityQueue T)
      → IsHeap q.heap
      → (out : Option (PriorityItem T)) × (q' : PriorityQueue T) × (perform op q ≡ some (out, q'))
        × IsHeap q'.heap
        × Spec q.heap op out q'.heap
  perform-Spec (pushes item) q heap =
      let (q', runs, heap', same) = push_correct q item heap in
      (none, q', rw runs refl, heap', pushed item same)
  perform-Spec pops q heap = go q.heap refl
    where
      go :
          (items : List (PriorityItem T))
          → q.heap ≡ items
          → (out : Option (PriorityItem T)) × (q' : PriorityQueue T) × (perform pops q
              ≡ some (out, q'))
            × IsHeap q'.heap
            × Spec q.heap pops out q'.heap
      go [] e = (none, q, pop-empty q e, heap, nothing e e)
      go (x ∷ items) e =
          let (top, q', runs, result) = pop_correct q heap (rw e (omega arith)) in
          (some top, q', runs, result.heap, popped top result.others result.first)

  -- On a queue that is a heap, any run of pushes and pops succeeds, with a heap, and gives what the
  -- specification gives on the bag of its items: each pop an item of those then there that no other goes
  -- before, and nothing exactly where there is none.
  pub queue_refines :
      (ops : List (Operation T)) (q : PriorityQueue T)
      → IsHeap q.heap
      → (outs : List (Option (PriorityItem T))) × (q' : PriorityQueue T) × (perform_all ops q
          ≡ some (outs, q'))
        × IsHeap q'.heap
        × SpecRun q.heap ops outs q'.heap
  unfolding perform_all
  queue_refines [] q heap = ([], q, refl, heap, ended)
  queue_refines (op ∷ ops) q heap =
      let (out, q', ran, heap', spec) = perform-Spec op q heap in
      let (outs, q'', ran', heap'', spec') = queue_refines ops q' heap' in
      (out ∷ outs, q'', rw (ran, ran') refl, heap'', went spec spec')
