-- ===== src/PriorityQueue/Up.antt =====
-- The loop of `bubbleUp`.
use mathlib.Core.List.Perm
use backend_task_orchestrati.Prelude.{
  ℕ, zero, suc, ◌<◌, ◌≡◌, refl, ◌≢◌, inl, inr, true, false, List, some, Perm, arith, length, get_or,
  Bool-cases, lt→ltb,
}
use backend_task_orchestrati.Prelude.Arrays.{
  swap, get_elem?-get_or, length-swap, get_or-swap, swap-perm,
}
use backend_task_orchestrati.PriorityQueue.{PriorityItem, is_less_at, bubble_up}
use backend_task_orchestrati.PriorityQueue.Order.{before, before_asym, not_before_trans}
use backend_task_orchestrati.PriorityQueue.Invariant.{parent, IsHeapAt, IsBridged}

module _ {T : Type 0} (d : PriorityItem T) where
  pub is_less_at_lem :
      (a : List (PriorityItem T)) (i j : ℕ)
      → i < length a
      → j < length a
      → is_less_at a i j ≡ some (before (get_or a i d) (get_or a j d))
  unfolding is_less_at
  is_less_at_lem a i j hi hj = rw (get_elem?-get_or a i d hi, get_elem?-get_or a j d hj)

  -- Only the edge from `i` to its parent may be out of order.
  pub record UpInv (a : List (PriorityItem T)) (i : ℕ) : Type 0 where
    pub inside : i < length a
    pub edges :
        (c : ℕ)
        → 0 < c
        → c < length a
        → c ≢ i
        → before (get_or a c d) (get_or a (parent c) d) ≡ false
    pub bridged : IsBridged d a i

  module _ (a : List (PriorityItem T)) (i : ℕ) (inv : UpInv a i) (pos : 0 < i)
      (less : before (get_or a i d) (get_or a (parent i) d) ≡ true) where
    rise-UpInv : UpInv (swap a i (parent i)) (parent i)
    rise-UpInv =
        let at = get_or-swap a i (parent i) d inv.inside (omega (arith, inv.inside)) in
        let size = length-swap a i (parent i) d inv.inside (omega (arith, inv.inside)) in
        record {
          inside = omega (arith, size, inv.inside);
          edges = λ c p q ne. ground (
            arith,
            size,
            at c,
            at (parent c),
            inv.edges c,
            inv.bridged c,
            before_asym (get_or a i d) (get_or a (parent i) d),
            not_before_trans (get_or a i d) (get_or a (parent i) d) (get_or a c d),
          );
          bridged = λ c p q e f. ground (
            arith,
            size,
            at c,
            at (parent (parent i)),
            inv.edges c,
            inv.edges (parent i),
            inv.inside,
            not_before_trans (get_or a (parent (parent i)) d) (get_or a (parent i) d)
                (get_or a c d),
          );
        }

  -- The loop ends, in a heap of the same items.
  pub bubble_up_lem :
      (fuel : ℕ) (a : List (PriorityItem T)) (i : ℕ)
      → i < fuel
      → UpInv a i
      → (b : List (PriorityItem T)) × (bubble_up fuel a i ≡ some b) × IsHeapAt d b × Perm b a
  unfolding bubble_up
  bubble_up_lem zero a i f inv = absurd (omega arith)
  bubble_up_lem (suc fuel) a zero f inv =
      (a, refl, λ c p q. inv.edges c p q (omega arith), Perm.refl a)
  bubble_up_lem (suc fuel) a (suc k) f inv =
      let i = suc k in
      let inside : parent i < length a = omega (arith, inv.inside) in
      let positive = lt→ltb 0 i (omega arith) in
      let tested = is_less_at_lem a i (parent i) inv.inside inside in
      elim (Bool-cases (before (get_or a i d) (get_or a (parent i) d))) [
        | inl less ↦
            let (b, runs, heap, perm) =
              bubble_up_lem fuel (swap a i (parent i)) (parent i) (omega arith)
                (rise-UpInv a i inv (omega arith) less) in
            (
              b,
              rw (positive, tested, less) runs,
              heap,
              Perm.trans perm (swap-perm a i (parent i) d inv.inside inside),
            )
        | inr stop ↦
            (a, rw (positive, tested, stop), λ c p q. ground (arith, inv.edges c), Perm.refl a)
      ]
