-- ===== src/LoadBalancer/Rotation.antt =====
-- Successive calls of `roundRobin` on one pool.
use native.Mathlib.Nat.{mod-mod, mod-add-mod}
use backend_task_orchestrati.Prelude.{
  ℕ, zero, suc, ◌+◌, ◌%◌, ◌≡◌, sym, ap, ◌∙◌, List, arith, get_elem?, length,
}
use backend_task_orchestrati.Models.Worker.{WorkerNode}
use backend_task_orchestrati.LoadBalancer.{LoadBalancer, round_robin}

-- The balancer after `k` calls.
pub after_rounds : ℕ → LoadBalancer → List WorkerNode → LoadBalancer
after_rounds zero lb workers = lb
after_rounds (suc k) lb workers = (round_robin (after_rounds k lb workers) workers).1

after_rounds-index :
    (k : ℕ) (lb : LoadBalancer) (workers : List WorkerNode)
    → (after_rounds k lb workers).rr_index % length workers ≡ (lb.rr_index + k) % length workers
unfolding after_rounds round_robin
after_rounds-index zero lb workers = ap (λ (n : ℕ). n % length workers) (omega arith)
after_rounds-index (suc k) lb workers =
    let n = length workers in
    let x = (after_rounds k lb workers).rr_index in
    let a = lb.rr_index in
    mod-mod (x + 1) n
    ∙ sym (mod-add-mod x n 1)
    ∙ ap (λ (t : ℕ). (t + 1) % n) (after_rounds-index k lb workers)
    ∙ mod-add-mod (a + k) n 1
    ∙ ap (λ (t : ℕ). t % n) (omega arith)

-- The k-th call returns the worker k places on from the first call's, round the pool.
pub round_robin_rotates :
    (k : ℕ) (lb : LoadBalancer) (workers : List WorkerNode)
    → (round_robin (after_rounds k lb workers) workers).0
      ≡ get_elem? workers ((lb.rr_index + k) % length workers)
unfolding round_robin
round_robin_rotates k lb workers = rw (after_rounds-index k lb workers)
