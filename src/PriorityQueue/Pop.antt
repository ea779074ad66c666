-- ===== src/PriorityQueue/Pop.antt =====
-- `pop` and `peek`.
use mathlib.Core.List.Perm
use native.Mathlib.Decide.{ℕ_discrete}
use backend_task_orchestrati.Prelude.{
  ℕ, suc, ◌-◌, ◌<◌, ◌≡◌, subst, false, List, [], ◌∷◌, ◌++◌, none, some, Perm, arith, length,
  get_elem?, get_or, set, take, length-set, length-perm, concat-perm, lt→ltb, All, All-get_or,
}
use backend_task_orchestrati.Prelude.Arrays.{
  get_elem?-get_or, get_or-set, get_or-take, set-perm, take-append-get_or,
}
use backend_task_orchestrati.PriorityQueue.{
  PriorityItem, PriorityQueue, is_empty, replace_root, pop, peek,
}
use backend_task_orchestrati.PriorityQueue.Order.{before}
use backend_task_orchestrati.PriorityQueue.Invariant.{
  parent, IsHeap, IsHeapAt, IsHeapAt-IsHeap, root_first,
}
use backend_task_orchestrati.PriorityQueue.Down.{DownInv, sink_down_lem}

module _ {T : Type 0} where
  -- Popping an empty queue returns nothing and changes nothing.
  pub pop-empty : (q : PriorityQueue T) → q.heap ≡ [] → pop q ≡ some (none, q)
  unfolding pop is_empty
  pop-empty q h = rw (h, is_empty)

  module _ (d : PriorityItem T) (a : List (PriorityItem T)) (n : ℕ) (size : length a ≡ suc n)
      (heap : IsHeapAt d a) where
    rest : List (PriorityItem T)
    rest = take n a

    last : PriorityItem T
    last = get_or a n d

    split : rest ++ last ∷ [] ≡ a
    unfolding rest last
    split = take-append-get_or n a d size

    split-perm : Perm (last ∷ rest) a
    split-perm = subst (Perm (last ∷ rest)) split (Perm.symm (concat-perm rest last))

    length-rest : length rest ≡ n
    length-rest = omega (arith, length-perm split-perm)

    module _ (pos : 0 < n) where
      rooted-DownInv : DownInv d (set rest 0 last) 0
      unfolding rest
      rooted-DownInv =
          let size' = length-set rest 0 last in
          record {
            inside = omega (arith, size', length-rest);
            edges = λ c p q ne. ground (
              arith,
              size',
              length-rest,
              heap c,
              get_or-take n a c d,
              get_or-take n a (parent c) d,
              get_or-set rest 0 c last d,
              get_or-set rest 0 (parent c) last d,
            );
            bridged = λ c p q e f. absurd (omega arith);
          }

      rooted-perm : Perm (get_or a 0 d ∷ set rest 0 last) a
      unfolding rest
      rooted-perm =
          let top : get_or rest 0 d ≡ get_or a 0 d = get_or-take n a 0 d pos in
          Perm.trans (rw top at (set-perm rest 0 last d (omega (arith, length-rest)))) split-perm

    replace_root_lem :
        (b : List (PriorityItem T)) × (replace_root rest last ≡ some b)
        × IsHeapAt d b
        × Perm (get_or a 0 d ∷ b) a
    unfolding replace_root
    replace_root_lem = elim (ℕ_discrete n 0) [
      | yes zero_left ↦
          let first : get_or a 0 d ≡ last = unfold last in rw zero_left in
          (
            rest,
            ground (arith, length-rest),
            λ c p q. absurd (omega (arith, length-rest)),
            rw first split-perm,
          )
      | no more ↦
          let pos : 0 < n = omega arith in
          let (b, runs, heap', perm) =
            sink_down_lem d (length rest) (set rest 0 last) 0
              (omega (arith, length-set rest 0 last)) (rooted-DownInv pos) in
          (
            b,
            rw (lt→ltb 0 (length rest) (omega (arith, length-rest))) runs,
            heap',
            Perm.trans (Perm.cons _ perm) (rooted-perm pos),
          )
    ]

  -- What `pop` returns from a heap: the item that `peek` shows, which nothing in the queue goes
  -- before, and a heap of exactly the other items.
  pub record Popped (q : PriorityQueue T) (top : PriorityItem T) (q' : PriorityQueue T)
      : Type 0 where
    pub peeked : peek q ≡ some top
    pub first : All (λ x. before x top ≡ false) q.heap
    pub heap : IsHeap q'.heap
    pub others : Perm (top ∷ q'.heap) q.heap

  pop_step :
      (a b : List (PriorityItem T)) (top last : PriorityItem T)
      → 0 < length a
      → get_elem? a 0 ≡ some top
      → get_elem? a (length a - 1) ≡ some last
      → replace_root (take (length a - 1) a) last ≡ some b
      → pop (record { heap = a }) ≡ some (some top, record { heap = b })
  unfolding pop is_empty
  pop_step a b top last pos e f g = ground arith

  pop_nonempty :
      (a : List (PriorityItem T))
      → IsHeap a
      → 0 < length a
      → (top : PriorityItem T) × (q' : PriorityQueue T) × (pop (record { heap = a })
          ≡ some (some top, q'))
        × Popped (record { heap = a }) top q'
  unfolding peek rest last
  pop_nonempty [] heap pos = absurd (omega arith)
  pop_nonempty (d ∷ l) heap pos =
      let a = d ∷ l in
      let n = length a - 1 in
      let size : length a ≡ suc n = omega arith in
      let (b, runs, ordered, perm) = replace_root_lem d a n size (heap d) in
      (
        get_or a 0 d,
        record { heap = b },
        pop_step a b _ _ pos (get_elem?-get_or a 0 d pos) (get_elem?-get_or a n d (omega arith))
            runs,
        record {
          peeked = get_elem?-get_or a 0 d pos;
          first =
              All-get_or (λ x. before x (get_or a 0 d) ≡ false) d a
                (λ i p. root_first d a i (heap d) p);
          heap = IsHeapAt-IsHeap d b ordered;
          others = perm;
        },
      )

  -- On a heap that is not empty, `pop` ends and removes the item that goes first.
  pub pop_correct :
      (q : PriorityQueue T)
      → IsHeap q.heap
      → 0 < length q.heap
      → (top : PriorityItem T) × (q' : PriorityQueue T) × (pop q ≡ some (some top, q'))
        × Popped q top q'
  pop_correct q heap pos = pop_nonempty q.heap heap pos
