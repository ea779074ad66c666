-- ===== src/LoadBalancer/Tests.antt =====
-- The theorems on the choice of a worker at small inputs.
use backend_task_orchestrati.Prelude.{ℕ, zero, suc, ◌<◌, ◌≡◌, refl, some, List, [], ◌∷◌, arith}
use backend_task_orchestrati.Models.Worker.{WorkerNode}
use backend_task_orchestrati.Samples.{plain_job, plain_worker}
use backend_task_orchestrati.LoadBalancer.{
  LoadBalancer, random_strategy, least_loaded, least_loaded_from, is_less_loaded, select_worker,
}
use backend_task_orchestrati.LoadBalancer.Select.{Selected, select_worker_correct}

abbrev three_workers : List WorkerNode
three_workers = plain_worker "a" 3 ∷ plain_worker "b" 1 ∷ plain_worker "c" 4 ∷ []

abbrev balancer : LoadBalancer
balancer = record { rr_index = 2; strategy = random_strategy }

least_of_three : least_loaded three_workers ≡ some (plain_worker "b" 1)
unfolding least_loaded least_loaded_from is_less_loaded
least_of_three = refl

abbrev last : ℕ → ℕ
last zero = 0
last (suc n) = n

last-lt : (n : ℕ) → 0 < n → last n < n
last-lt zero h = absurd (omega arith)
last-lt (suc n) h = omega arith

select_worker_correct_example :
    Selected last balancer
      (plain_job "j")
      three_workers
      (select_worker last balancer (plain_job "j") three_workers).0
select_worker_correct_example =
    select_worker_correct last balancer (plain_job "j") three_workers last-lt
