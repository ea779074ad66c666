-- ===== src/PriorityQueue/Invariant.antt =====
-- The heap order of the array.
use backend_task_orchestrati.Prelude.{
  ℕ, zero, suc, ◌-◌, ◌/◌, ◌<◌, ◌≡◌, refl, false, List, [], ◌∷◌, arith, length, get_or,
}
use backend_task_orchestrati.PriorityQueue.{PriorityItem}
use backend_task_orchestrati.PriorityQueue.Order.{before, not_before_trans, before_irrefl}

abbrev pub parent : ℕ → ℕ
parent c = (c - 1) / 2

module _ {T : Type 0} where
  -- No entry but the root goes before its parent. `d` is read out of range, where nothing is said.
  abbrev pub IsHeapAt : PriorityItem T → List (PriorityItem T) → Type 0
  IsHeapAt d a =
      (c : ℕ) → 0 < c → c < length a → before (get_or a c d) (get_or a (parent c) d) ≡ false

  abbrev pub IsHeap : List (PriorityItem T) → Type 0
  IsHeap a = (d : PriorityItem T) → IsHeapAt d a

  -- The edges past `i`, from its parent to its children, are in order.
  abbrev pub IsBridged : PriorityItem T → List (PriorityItem T) → ℕ → Type 0
  IsBridged d a i =
      (c : ℕ)
      → 0 < c
      → c < length a
      → parent c ≡ i
      → 0 < i
      → before (get_or a c d) (get_or a (parent i) d) ≡ false

  get_or_default :
      (a : List (PriorityItem T)) (i : ℕ) (d e : PriorityItem T)
      → i < length a
      → get_or a i d ≡ get_or a i e
  unfolding get_or
  get_or_default [] i d e h = absurd (omega arith)
  get_or_default (x ∷ a) zero d e h = refl
  get_or_default (x ∷ a) (suc i) d e h = get_or_default a i d e (omega arith)

  pub IsHeapAt-IsHeap : (d : PriorityItem T) (a : List (PriorityItem T)) → IsHeapAt d a → IsHeap a
  IsHeapAt-IsHeap d a h e c pos inside =
      rw (get_or_default a c e d inside, get_or_default a (parent c) e d (omega arith))
        (h c pos inside)

  root_first_within :
      (fuel : ℕ) (d : PriorityItem T) (a : List (PriorityItem T)) (i : ℕ)
      → IsHeapAt d a
      → i < fuel
      → i < length a
      → before (get_or a i d) (get_or a 0 d) ≡ false
  root_first_within zero d a i h f p = absurd (omega arith)
  root_first_within (suc fuel) d a zero h f p = before_irrefl (get_or a 0 d)
  root_first_within (suc fuel) d a (suc i) h f p =
      not_before_trans (get_or a 0 d) (get_or a (parent (suc i)) d) (get_or a (suc i) d)
        (root_first_within fuel d a (parent (suc i)) h (omega arith) (omega arith))
        (h (suc i) (omega arith) p)

  -- Nothing in a heap goes before its root.
  pub root_first :
      (d : PriorityItem T) (a : List (PriorityItem T)) (i : ℕ)
      → IsHeapAt d a
      → i < length a
      → before (get_or a i d) (get_or a 0 d) ≡ false
  root_first d a i h p = root_first_within (suc i) d a i h (omega arith) p
