-- ===== src/CronScheduler.antt =====
-- src/scheduler/CronScheduler.ts over the table of schedules.
-- `next_run` is `getNextCronRun` at the clock of the tick, with `none` where cron-parser throws;
-- `accepts` is whether `onTrigger` returns for a job, or throws. The statements of a tick read one
-- clock, `now`, whose text is `iso`.
pub mod Once
mod Tests
use Prim.Native.String.{◌++◌ as join}
use backend_task_orchestrati.Prelude.{
  ℕ, ◌+◌, Bool, true, false, not, ◌&&◌, String, Option, none, some, List, [], ◌∷◌, ◌++◌, leb,
  if◌then◌else◌, or_else, filter,
}
use backend_task_orchestrati.Prelude.Eq.{◌==◌, string_eq}
use backend_task_orchestrati.Models.Json.{str, end, field}
use backend_task_orchestrati.Models.Job.{CreateJobDto}
use backend_task_orchestrati.Models.Schedule.{JobTemplate, Schedule}

-- `pollInterval` is the period of the interval that runs, if one does.
pub record Cron : Type 0 where
  pub is_running : Bool
  pub poll_interval : Option ℕ

unfoldable pub start : ℕ → Cron → Cron
start poll_interval_ms c =
    if c.is_running then c else record { is_running = true; poll_interval = some poll_interval_ms }

unfoldable pub stop : Cron → Cron
stop c = record { is_running = false; poll_interval = none }

abbrev pub Schedules : Type 0
Schedules = List Schedule

abbrev pub triggers_by : ℕ → Option ℕ → Bool
triggers_by now none = false
triggers_by now (some at) = leb at now

abbrev pub is_due : ℕ → Schedule → Bool
is_due now s = s.is_active && triggers_by now s.next_trigger_at

-- `locked` are the rows that other transactions hold.
unfoldable pub fetch_due_schedules : ℕ → (locked : String → Bool) → Schedules → Schedules
fetch_due_schedules now locked table = filter (λ s. is_due now s && not (locked s.id)) table

abbrev pub advanced : ℕ → ℕ → Schedule → Schedule
advanced now next s = record s {
  last_triggered_at = some now;
  next_trigger_at = some next;
  total_triggered_count = s.total_triggered_count + 1;
  updated_at = now;
}

unfoldable pub update_schedule : String → (Schedule → Schedule) → Schedules → Schedules
update_schedule id change [] = []
update_schedule id change (s ∷ table) =
    (if s.id == id then change s else s) ∷ update_schedule id change table

abbrev pub job_dto : String → Schedule → CreateJobDto
job_dto iso s = record {
  name = join s.name (join " [cron:" (join iso "]"));
  description = s.description;
  type = s.job_template.type;
  payload = s.job_template.payload;
  priority = some s.job_template.priority;
  scheduled_at = none;
  cron_expression = none;
  timezone = none;
  timeout_ms = some s.job_template.timeout_ms;
  retry_config = some s.job_template.retry_config;
  dependencies = none;
  tags = some (or_else s.job_template.tags [] ++ "cron" ∷ join "schedule:" s.id ∷ []);
  metadata = some (field "scheduleId" (str s.id) (field "triggeredAt" (str iso) end));
  organization_id = s.organization_id;
  created_by = s.created_by;
}

-- A tick so far: the table, the calls of `onTrigger` by their schedules, and whether an error ended it.
pub record Tick : Type 0 where
  pub table : Schedules
  pub triggered : List Schedule
  pub failed : Bool

module _ (now : ℕ) (iso : String) (next_run : String → String → Option ℕ)
    (accepts : CreateJobDto → Bool) where
  unfoldable pub trigger_schedule : Schedule → Tick → Tick
  trigger_schedule s t = elim (next_run s.cron_expression s.timezone) [
    | none ↦ record t { failed = true }
    | some next ↦ record {
      table = update_schedule s.id (advanced now next) t.table;
      triggered = t.triggered ++ s ∷ [];
      failed = not (accepts (job_dto iso s));
    }
  ]

  unfoldable pub trigger_all : List Schedule → Tick → Tick
  trigger_all [] t = t
  trigger_all (s ∷ due) t =
      let t' = trigger_schedule s t in
      let rest = trigger_all due t' in if t'.failed then t' else rest

  unfoldable pub tick : (locked : String → Bool) → Schedules → Tick
  tick locked table =
      trigger_all (fetch_due_schedules now locked table)
        (record { table = table; triggered = []; failed = false })
