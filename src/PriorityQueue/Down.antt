-- ===== src/PriorityQueue/Down.antt =====
-- The loop of `sinkDown`.
use mathlib.Core.List.Perm
use native.Mathlib.Decide.{ℕ_discrete}
use backend_task_orchestrati.Prelude.{
  ℕ, zero, suc, ◌+◌, ◌*◌, ◌≤◌, ◌<◌, ◌≡◌, ◌≢◌, ◌⊎◌, inl, inr, false, List, some, Perm, arith, ltb,
  if◌then◌else◌, length, get_or,
}
use backend_task_orchestrati.Prelude.Eq.{==_ne}
use backend_task_orchestrati.Prelude.Arrays.{swap, length-swap, get_or-swap, swap-perm}
use backend_task_orchestrati.PriorityQueue.{PriorityItem, smaller_of, sink_down}
use backend_task_orchestrati.PriorityQueue.Order.{
  before, before_irrefl, before_asym, not_before_trans,
}
use backend_task_orchestrati.PriorityQueue.Invariant.{parent, IsHeapAt, IsBridged}
use backend_task_orchestrati.PriorityQueue.Up.{is_less_at_lem}

module _ {T : Type 0} (d : PriorityItem T) where
  -- Only the edges from `i` to its children may be out of order.
  pub record DownInv (a : List (PriorityItem T)) (i : ℕ) : Type 0 where
    pub inside : i < length a
    pub edges :
        (c : ℕ)
        → 0 < c
        → c < length a
        → parent c ≢ i
        → before (get_or a c d) (get_or a (parent c) d) ≡ false
    pub bridged : IsBridged d a i

  abbrev pick : List (PriorityItem T) → ℕ → ℕ → ℕ
  pick a c s =
      if ltb c (length a) then (if before (get_or a c d) (get_or a s d) then c else s) else s

  smaller_of_lem :
      (a : List (PriorityItem T)) (c s : ℕ) → s < length a → smaller_of a c s ≡ some (pick a c s)
  unfolding smaller_of
  smaller_of_lem a c s h = ground (arith, is_less_at_lem d a c s)

  abbrev smallest : List (PriorityItem T) → ℕ → ℕ
  smallest a i = pick a (2 * i + 2) (pick a (2 * i + 1) i)

  -- `m` holds the first of the entries at `i` and at its children.
  record IsSmallest (a : List (PriorityItem T)) (i m : ℕ) : Type 0 where
    inside : m < length a
    place : (m ≡ i) ⊎ (i < m) × (parent m ≡ i)
    self : before (get_or a i d) (get_or a m d) ≡ false
    children :
        (c : ℕ) → 0 < c → c < length a → parent c ≡ i → before (get_or a c d) (get_or a m d) ≡ false

  module _ (a : List (PriorityItem T)) (i : ℕ) where
    l : PriorityItem T
    l = get_or a (2 * i + 1) d

    r : PriorityItem T
    r = get_or a (2 * i + 2) d

    t : PriorityItem T
    t = get_or a i d

    left_ge :
        2 * i + 1 < length a → before (get_or a (2 * i + 1) d) (get_or a (smallest a i) d) ≡ false
    unfolding l r t
    left_ge h = ground (
      arith,
      before_irrefl l,
      before_asym r l,
      before_asym r t,
      before_asym l t,
      not_before_trans r t l,
    )

    right_ge :
        2 * i + 2 < length a → before (get_or a (2 * i + 2) d) (get_or a (smallest a i) d) ≡ false
    unfolding l r t
    right_ge h = ground (arith, before_irrefl r)

    child_place : (c : ℕ) → 0 < c → parent c ≡ i → (c ≡ 2 * i + 1) ⊎ (c ≡ 2 * i + 2)
    child_place c p e = grind arith

    smallest-IsSmallest : i < length a → IsSmallest a i (smallest a i)
    unfolding l r t
    smallest-IsSmallest h = record {
      inside = ground arith;
      place = ground arith;
      self = ground (
        arith,
        before_irrefl t,
        before_asym l t,
        before_asym r t,
        before_asym r l,
        not_before_trans r l t,
      );
      children = λ c p q e. elim (child_place c p e) [
        | inl left ↦ rw left (left_ge (omega arith))
        | inr right ↦ rw right (right_ge (omega arith))
      ];
    }

  module _ (a : List (PriorityItem T)) (i m : ℕ) (inv : DownInv a i) (s : IsSmallest a i m) where
    sink-DownInv : m ≢ i → DownInv (swap a i m) m
    sink-DownInv moved =
        let at = get_or-swap a i m d inv.inside s.inside in
        let size = length-swap a i m d inv.inside s.inside in
        record {
          inside = omega (arith, size, s.inside);
          edges = λ c p q ne. ground (
            arith,
            size,
            at c,
            at (parent c),
            s.place,
            s.self,
            s.children c,
            inv.edges c,
            inv.bridged m,
          );
          bridged = λ c p q e f. ground (arith, size, at c, at (parent m), s.place, inv.edges c);
        }

    stop-IsHeapAt : m ≡ i → IsHeapAt d a
    stop-IsHeapAt e c p q = elim (ℕ_discrete (parent c) i) [
      | yes same ↦ rw (same, ← e) (s.children c p q same)
      | no other ↦ inv.edges c p q other
    ]

  -- The loop ends, in a heap of the same items.
  pub sink_down_lem :
      (fuel : ℕ) (a : List (PriorityItem T)) (i : ℕ)
      → length a ≤ i + fuel
      → DownInv a i
      → (b : List (PriorityItem T)) × (sink_down fuel a i ≡ some b) × IsHeapAt d b × Perm b a
  unfolding sink_down
  sink_down_lem zero a i f inv = absurd (omega (arith, inv.inside))
  sink_down_lem (suc fuel) a i f inv =
      let m = smallest a i in
      let s = smallest-IsSmallest a i inv.inside in
      let first = smaller_of_lem a (2 * i + 1) i inv.inside in
      let second =
        smaller_of_lem a (2 * i + 2) (pick a (2 * i + 1) i) (ground (arith, inv.inside)) in
      elim (ℕ_discrete m i) [
        | yes same ↦ (
          a,
          rw (first, second) (ground (arith, same)),
          stop-IsHeapAt a i m inv s same,
          Perm.refl a,
        )
        | no moved ↦
            let (b, runs, heap, perm) =
              sink_down_lem fuel (swap a i m) m
                (ground (arith, length-swap a i m d inv.inside s.inside, s.place))
                (sink-DownInv a i m inv s moved) in
            (
              b,
              rw (first, second, ==_ne m i moved) runs,
              heap,
              Perm.trans perm (swap-perm a i m d inv.inside s.inside),
            )
      ]
