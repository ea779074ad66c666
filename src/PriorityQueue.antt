-- ===== src/PriorityQueue.antt =====
-- src/scheduler/PriorityQueue.ts: a binary min-heap kept in an array.
-- A score or a time is a natural number. `none` stands for what the two loops may run into in the
-- model and not in the program: an index out of range, or the end of the fuel.
pub mod Order
pub mod Invariant
pub mod Up
pub mod Down
pub mod Push
pub mod Pop
pub mod Sorted
pub mod Refines
mod Tests
use backend_task_orchestrati.Prelude.{
  ℕ, zero, suc, ◌+◌, ◌-◌, ◌*◌, ◌/◌, ◌≡◌, Bool, true, not, ◌&&◌, List, [], ◌∷◌, ◌++◌, Option, none,
  some, ltb, if◌then◌else◌, ◌>>=◌, length, get_elem?, set, take,
}
use backend_task_orchestrati.Prelude.Eq.{◌==◌, nat_eq}
use backend_task_orchestrati.Prelude.Int.{ℤ, sub_ℕ, is_negative}
use backend_task_orchestrati.Prelude.Arrays.{swap}
use backend_task_orchestrati.Prelude.Sort.{sort_by}

pub record PriorityItem (T : Type 0) : Type 0 where
  pub score : ℕ
  pub scheduled_at : ℕ
  pub created_at : ℕ
  pub payload : T

pub record PriorityQueue (T : Type 0) : Type 0 where
  pub heap : List (PriorityItem T)

module _ {T : Type 0} where
  unfoldable pub compare_fn : PriorityItem T → PriorityItem T → ℤ
  compare_fn a b =
      if not (a.score == b.score)
      then sub_ℕ a.score b.score
      else if not (a.scheduled_at == b.scheduled_at)
      then sub_ℕ a.scheduled_at b.scheduled_at
      else sub_ℕ a.created_at b.created_at

  -- `this.compareFn(this.heap[i], this.heap[j]) < 0`
  unfoldable pub is_less_at : List (PriorityItem T) → ℕ → ℕ → Option Bool
  is_less_at heap i j = do
    a ← get_elem? heap i
    b ← get_elem? heap j
    some (is_negative (compare_fn a b))

  unfoldable pub bubble_up : ℕ → List (PriorityItem T) → ℕ → Option (List (PriorityItem T))
  bubble_up zero heap idx = none
  bubble_up (suc fuel) heap idx =
      let parent_idx = (idx - 1) / 2 in
      let risen = bubble_up fuel (swap heap idx parent_idx) parent_idx in
      let stepped = is_less_at heap idx parent_idx >>= λ less. if less then risen else some heap in
      if ltb 0 idx then stepped else some heap

  -- `if (child < n && compareFn(heap[child], heap[smallest]) < 0) smallest = child`
  unfoldable pub smaller_of : List (PriorityItem T) → ℕ → ℕ → Option ℕ
  smaller_of heap child smallest =
      if ltb child (length heap)
      then (is_less_at heap child smallest >>= λ less. some (if less then child else smallest))
      else some smallest

  unfoldable pub sink_down : ℕ → List (PriorityItem T) → ℕ → Option (List (PriorityItem T))
  sink_down zero heap idx = none
  sink_down (suc fuel) heap idx = smaller_of heap (2 * idx + 1) idx >>= λ smallest_left.
      smaller_of heap (2 * idx + 2) smallest_left >>= λ smallest.
      let sunk = sink_down fuel (swap heap idx smallest) smallest in
      if not (smallest == idx) then sunk else some heap

  pub size : PriorityQueue T → ℕ
  size q = length q.heap

  unfoldable pub is_empty : PriorityQueue T → Bool
  is_empty q = length q.heap == 0

  unfoldable pub push : PriorityQueue T → PriorityItem T → Option (PriorityQueue T)
  push q item =
      let grown = q.heap ++ item ∷ [] in
      bubble_up (length grown) grown (length grown - 1) >>= λ heap. some (record { heap = heap })

  -- What `pop` does after `this.heap.pop()` has returned `last` and left `rest`.
  unfoldable pub replace_root :
      List (PriorityItem T) → PriorityItem T → Option (List (PriorityItem T))
  replace_root rest last =
      let rooted = set rest 0 last in
      if ltb 0 (length rest) then sink_down (length rest) rooted 0 else some rest

  unfoldable pub pop : PriorityQueue T → Option (Option (PriorityItem T) × PriorityQueue T)
  pop q = if is_empty q then some (none, q) else do
    top ← get_elem? q.heap 0
    last ← get_elem? q.heap (length q.heap - 1)
    heap ← replace_root (take (length q.heap - 1) q.heap) last
    some (some top, record { heap = heap })

  unfoldable pub peek : PriorityQueue T → Option (PriorityItem T)
  peek q = get_elem? q.heap 0

  unfoldable pub clear : PriorityQueue T → PriorityQueue T
  clear q = record { heap = [] }

  unfoldable pub to_array : PriorityQueue T → List (PriorityItem T)
  to_array q = sort_by (λ a b. is_negative (compare_fn a b)) q.heap
