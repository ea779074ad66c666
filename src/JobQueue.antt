-- ===== src/JobQueue.antt =====
-- src/queue/JobQueue.ts: what `add` and `addBulk` hand to BullMQ. The queue itself is BullMQ's.
use Prim.Native.String.{◌++◌}
use backend_task_orchestrati.Prelude.{ℕ, String, Option, none, List, map, or_else}
use backend_task_orchestrati.Models.Json.{Fields}
use backend_task_orchestrati.Models.Job.{JobType, JobPriority, medium}
use backend_task_orchestrati.Retry.{to_bull_priority}

pub record QueueJobPayload : Type 0 where
  pub job_id : String
  pub type : JobType
  pub payload : Fields
  pub organization_id : String
  pub attempt_number : ℕ

pub record AddOptions : Type 0 where
  pub priority : Option JobPriority
  pub delay_ms : Option ℕ
  pub job_id : Option String

-- The arguments of BullMQ's `Queue.add`: the name, the data and the `JobsOptions`.
pub record Request : Type 0 where
  pub name : JobType
  pub job_data : QueueJobPayload
  pub priority : ℕ
  pub delay : ℕ
  pub job_id : Option String

unfoldable pub request : QueueJobPayload → AddOptions → Request
request payload options = record {
  name = payload.type;
  job_data = payload;
  priority = to_bull_priority (or_else options.priority medium);
  delay = or_else options.delay_ms 0;
  job_id = options.job_id;
}

-- `addBulk` sets no job id.
unfoldable pub bulk_requests : List (QueueJobPayload × AddOptions) → List Request
bulk_requests jobs =
    map (λ (payload, options). request payload (record options { job_id = none })) jobs

-- `job_${id}`
unfoldable pub bull_job_id : String → String
bull_job_id id = "job_" ++ id
