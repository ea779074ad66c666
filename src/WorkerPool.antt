-- ===== src/WorkerPool.antt =====
-- src/workers/WorkerPool.ts: how many workers the pool has. A worker is a process of its own.
pub mod Scale
mod Tests
use backend_task_orchestrati.Prelude.{
  ℕ, ◌+◌, ◌-◌, ◌*◌, ◌/◌, min, max, Bool, true, false, ◌&&◌, ltb, if◌then◌else◌,
}
use backend_task_orchestrati.Prelude.Eq.{◌==◌, nat_eq}

pub record WorkerPoolConfig : Type 0 where
  pub min_workers : ℕ
  pub max_workers : ℕ
  pub scale_check_interval_ms : ℕ
  pub scale_up_threshold : ℕ
  pub scale_down_threshold : ℕ

abbrev pub default_pool_config : WorkerPoolConfig
default_pool_config = record {
  min_workers = 1;
  max_workers = 10;
  scale_check_interval_ms = 15_000;
  scale_up_threshold = 20;
  scale_down_threshold = 5;
}

-- `Math.ceil(a / b)`, for `b` above 0.
unfoldable pub ceil_div : ℕ → ℕ → ℕ
ceil_div a b = (a + (b - 1)) / b

-- The number of jobs per worker is the quotient of `depth` by this.
abbrev pub divisor : ℕ → ℕ
divisor current = max current 1

-- `Math.min(Math.ceil(jobsPerWorker / threshold) - current, maxWorkers - current)`, or 0 where that is
-- negative, since the loop adds no worker then. A quotient by a threshold of 0 is infinite.
unfoldable pub to_add : WorkerPoolConfig → ℕ → ℕ → ℕ
to_add cfg depth current =
    if cfg.scale_up_threshold == 0
    then cfg.max_workers - current
    else min (ceil_div depth (divisor current * cfg.scale_up_threshold) - current)
        (cfg.max_workers - current)

-- The size of the pool after a check, at a depth of the queue.
unfoldable pub auto_scale : WorkerPoolConfig → ℕ → ℕ → ℕ
auto_scale cfg depth current =
    if ltb (cfg.scale_up_threshold * divisor current) depth && ltb current cfg.max_workers
    then current + to_add cfg depth current
    else if ltb depth (cfg.scale_down_threshold * divisor current) && ltb cfg.min_workers current
    then current - (current - cfg.min_workers)
    else current
