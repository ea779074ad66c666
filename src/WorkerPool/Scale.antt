-- ===== src/WorkerPool/Scale.antt =====
-- The bounds of the pool, and where it does not grow.
use native.Mathlib.Nat.{div-lt_iff_lt-mul}
use backend_task_orchestrati.Prelude.{ℕ, ◌+◌, ◌-◌, ◌*◌, ◌<◌, ◌≤◌, ◌≡◌, List, [], ◌∷◌, arith}
use backend_task_orchestrati.Prelude.Eq.{nat_eq}
use backend_task_orchestrati.WorkerPool.{WorkerPoolConfig, divisor, ceil_div, to_add, auto_scale}

to_add_bound :
    (cfg : WorkerPoolConfig) (depth current : ℕ)
    → to_add cfg depth current ≤ cfg.max_workers - current
unfolding to_add
to_add_bound cfg depth current = ground arith

auto_scale_step :
    (cfg : WorkerPoolConfig) (depth current : ℕ)
    → cfg.min_workers ≤ current
    → current ≤ cfg.max_workers
    → (cfg.min_workers ≤ auto_scale cfg depth current)
      × (auto_scale cfg depth current ≤ cfg.max_workers)
unfolding auto_scale
auto_scale_step cfg depth current low high = ground (arith, to_add_bound cfg depth current)

-- The pool after checks at a sequence of depths.
unfoldable pub scaled : WorkerPoolConfig → List ℕ → ℕ → ℕ
scaled cfg [] current = current
scaled cfg (depth ∷ depths) current = scaled cfg depths (auto_scale cfg depth current)

-- Started within its bounds, the pool stays within them, whatever the depths of the queue are.
pub auto_scale_bounds :
    (cfg : WorkerPoolConfig) (depths : List ℕ) (current : ℕ)
    → cfg.min_workers ≤ current
    → current ≤ cfg.max_workers
    → (cfg.min_workers ≤ scaled cfg depths current) × (scaled cfg depths current ≤ cfg.max_workers)
unfolding scaled
auto_scale_bounds cfg [] current low high = (low, high)
auto_scale_bounds cfg (depth ∷ depths) current low high =
    let (low', high') = auto_scale_step cfg depth current low high in
    auto_scale_bounds cfg depths (auto_scale cfg depth current) low' high'

ceil_div_bound : (a b c : ℕ) → 0 < b → a ≤ c * b → ceil_div a b ≤ c
unfolding ceil_div
ceil_div_bound a b c h k =
    let step : a + (b - 1) < (c + 1) * b = grind arith in
    omega (arith, (div-lt_iff_lt-mul {k = b} {x = a + (b - 1)} {y = c + 1} h).1 step)

-- A pool over its threshold does not grow while the depth is at most the threshold times the square
-- of its size.
pub auto_scale_stalls :
    (cfg : WorkerPoolConfig) (depth current : ℕ)
    → 0 < current
    → 0 < cfg.scale_up_threshold
    → current < cfg.max_workers
    → cfg.scale_up_threshold * current < depth
    → depth ≤ current * (current * cfg.scale_up_threshold)
    → auto_scale cfg depth current ≡ current
unfolding auto_scale to_add
auto_scale_stalls cfg depth current some_worker some_threshold room over few =
    let size : divisor current ≡ current = omega arith in
    let positive : 0 < current * cfg.scale_up_threshold = grind arith in
    let few_more = ceil_div_bound depth (current * cfg.scale_up_threshold) current positive few in
    rw size (ground (arith, few_more))
