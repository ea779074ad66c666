-- ===== src/LoadBalancer.antt =====
-- src/scheduler/LoadBalancer.ts
-- Two loads, quotients of small integers, are compared by cross multiplication. What
-- `Math.floor(Math.random() * n)` returns is the parameter `draw`.
pub mod Least
pub mod Select
pub mod Rotation
mod Tests
use backend_task_orchestrati.Prelude.{
  ℕ, zero, suc, ◌+◌, ◌*◌, ◌%◌, max, Bool, true, false, not, ◌&&◌, ◌||◌, String, Option, none, some,
  List, [], ◌∷◌, ltb, leb, if◌then◌else◌, length, get_elem?, filter,
}
use backend_task_orchestrati.Prelude.Eq.{◌==◌, nat_eq, string_eq, elem}
use backend_task_orchestrati.Prelude.Maps.{lookup}
use backend_task_orchestrati.Models.Json.{Json, null, bool, num, str, arr, obj, Fields, end, field}
use backend_task_orchestrati.Models.Job.{
  Job, JobType, http_request, shell_command, data_pipeline, email_notification, report_generation,
  file_processing, database_cleanup, webhook, custom,
}
use backend_task_orchestrati.Models.Worker.{
  WorkerNode, WorkerStatus, online, busy, worker_status_eq,
}

pub data LoadBalancingStrategy : Type 0 where
  least_loaded_strategy round_robin_strategy affinity_strategy random_strategy :
      LoadBalancingStrategy

pub record LoadBalancer : Type 0 where
  pub rr_index : ℕ
  pub strategy : LoadBalancingStrategy

-- The text of a `JobType`.
abbrev pub type_name : JobType → String
type_name http_request = "HTTP_REQUEST"
type_name shell_command = "SHELL_COMMAND"
type_name data_pipeline = "DATA_PIPELINE"
type_name email_notification = "EMAIL_NOTIFICATION"
type_name report_generation = "REPORT_GENERATION"
type_name file_processing = "FILE_PROCESSING"
type_name database_cleanup = "DATABASE_CLEANUP"
type_name webhook = "WEBHOOK"
type_name custom = "CUSTOM"

unfoldable pub is_eligible : Job → WorkerNode → Bool
is_eligible job w =
    if not (elem w.status (online ∷ busy ∷ []))
    then false
    else if leb w.max_concurrency w.current_job_count
    then false
    else if not (elem (type_name job.type) w.capabilities.job_types)
        && not (elem "CUSTOM" w.capabilities.job_types)
    then false
    else true

unfoldable pub filter_eligible : Job → List WorkerNode → List WorkerNode
filter_eligible job workers = filter (is_eligible job) workers

-- `loadB < loadA`, the loads of `b` and of `a`.
unfoldable pub is_less_loaded : WorkerNode → WorkerNode → Bool
is_less_loaded b a =
    ltb (b.current_job_count * max a.max_concurrency 1)
      (a.current_job_count * max b.max_concurrency 1)

unfoldable pub least_loaded_from : WorkerNode → List WorkerNode → WorkerNode
least_loaded_from best [] = best
least_loaded_from best (w ∷ rest) =
    least_loaded_from (if is_less_loaded w best then w else best) rest

-- `none` stands for the TypeError of `reduce` on an empty array.
unfoldable pub least_loaded : List WorkerNode → Option WorkerNode
least_loaded [] = none
least_loaded (w ∷ rest) = some (least_loaded_from w rest)

unfoldable pub round_robin : LoadBalancer → List WorkerNode → Option WorkerNode × LoadBalancer
round_robin lb workers =
    let idx = lb.rr_index % length workers in
    (get_elem? workers idx, record lb { rr_index = (lb.rr_index + 1) % length workers })

unfoldable pub get_field : String → Fields → Option Json
get_field k end = none
get_field k (field j v rest) = if j == k then some v else get_field k rest

-- `!(preferredRegion && w.capabilities.region !== preferredRegion)`
unfoldable pub region_matches : Option Json → Option String → Bool
region_matches (some (bool true)) region = false
region_matches (some (num (suc n))) region = false
region_matches (some (str s)) region = s == "" || elim region [ none ↦ false | some r ↦ r == s ]
region_matches (some (arr items)) region = false
region_matches (some (obj fields)) region = false
region_matches hint region = true

abbrev is_text : Json → Option String → Bool
is_text (str s) (some t) = s == t
is_text v t = false

unfoldable pub labels_match : Fields → List (String × String) → Bool
labels_match end labels = true
labels_match (field k v rest) labels =
    if is_text v (lookup k labels) then labels_match rest labels else false

-- The labels are an object, as the cast says; any other value asks for none.
unfoldable pub required_labels : Option Json → Fields
required_labels (some (obj fields)) = fields
required_labels hint = end

unfoldable pub matches_affinity : Job → WorkerNode → Bool
matches_affinity job w =
    if not (region_matches (get_field "region" job.metadata) w.capabilities.region)
    then false
    else labels_match (required_labels (get_field "requiredLabels" job.metadata))
        w.capabilities.labels

unfoldable pub affinity : Job → List WorkerNode → Option WorkerNode
affinity job workers =
    let affinity_match = filter (matches_affinity job) workers in
    if ltb 0 (length affinity_match) then least_loaded affinity_match else least_loaded workers

-- The `switch` of `selectWorker`.
unfoldable pub dispatch :
    (draw : ℕ → ℕ)
    → LoadBalancer
    → LoadBalancingStrategy
    → Job
    → List WorkerNode
    → Option WorkerNode × LoadBalancer
dispatch draw lb least_loaded_strategy job eligible = (least_loaded eligible, lb)
dispatch draw lb round_robin_strategy job eligible = round_robin lb eligible
dispatch draw lb affinity_strategy job eligible = (affinity job eligible, lb)
dispatch draw lb random_strategy job eligible = (get_elem? eligible (draw (length eligible)), lb)

unfoldable pub select_worker :
    (draw : ℕ → ℕ) → LoadBalancer → Job → List WorkerNode → Option WorkerNode × LoadBalancer
select_worker draw lb job workers =
    let eligible = filter_eligible job workers in
    if length eligible == 0 then (none, lb) else dispatch draw lb lb.strategy job eligible

unfoldable pub sum_of : (WorkerNode → ℕ) → List WorkerNode → ℕ
sum_of f [] = 0
sum_of f (w ∷ rest) = f w + sum_of f rest

-- `utilizationPercent` is the quotient of the two capacities, and is left out.
pub record PoolStats : Type 0 where
  pub total_capacity : ℕ
  pub used_capacity : ℕ
  pub eligible_workers : ℕ

unfoldable pub get_stats : List WorkerNode → PoolStats
get_stats workers =
    let online_workers = filter (λ w. elem w.status (online ∷ busy ∷ [])) workers in
    record {
      total_capacity = sum_of (λ w. w.max_concurrency) online_workers;
      used_capacity = sum_of (λ w. w.current_job_count) online_workers;
      eligible_workers = length online_workers;
    }
