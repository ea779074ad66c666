-- ===== src/WorkerPool/Tests.antt =====
-- The pool with its default configuration.
use backend_task_orchestrati.Prelude.{ℕ, ◌≤◌, List, [], ◌∷◌, arith}
use backend_task_orchestrati.WorkerPool.{default_pool_config}
use backend_task_orchestrati.WorkerPool.Scale.{scaled, auto_scale_bounds}

abbrev depths : List ℕ
depths = 500 ∷ 50 ∷ 3 ∷ []

auto_scale_bounds_example :
    (1 ≤ scaled default_pool_config depths 1) × (scaled default_pool_config depths 1 ≤ 10)
auto_scale_bounds_example =
    auto_scale_bounds default_pool_config depths 1 (omega arith) (omega arith)
