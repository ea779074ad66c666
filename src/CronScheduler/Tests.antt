-- ===== src/CronScheduler/Tests.antt =====
-- The theorem on the ticks at two schedules.
use mathlib.Core.Option.{some-injective}
use backend_task_orchestrati.Prelude.{
  ℕ, ◌<◌, ◌≡◌, subst, Bool, true, false, String, Option, none, some, [], ◌∷◌, arith,
}
use backend_task_orchestrati.Models.Json.{end}
use backend_task_orchestrati.Models.Job.{CreateJobDto, custom, medium}
use backend_task_orchestrati.Models.Schedule.{Schedule}
use backend_task_orchestrati.CronScheduler.{Schedules, fetch_due_schedules, tick}
use backend_task_orchestrati.CronScheduler.Once.{Ticked, tick_correct}

abbrev schedule_at : String → ℕ → Schedule
schedule_at id at = record {
  id = id;
  name = "nightly";
  description = none;
  cron_expression = "0 3 * * *";
  timezone = "UTC";
  job_template = record {
    type = custom;
    payload = end;
    priority = medium;
    timeout_ms = 1000;
    retry_config = record {
      max_retries = none;
      retry_delay = none;
      retry_backoff = none;
      retry_on = none;
    };
    tags = none;
  };
  is_active = true;
  last_triggered_at = none;
  next_trigger_at = some at;
  total_triggered_count = 0;
  organization_id = "o";
  created_by = "u";
  created_at = 0;
  updated_at = 0;
}

abbrev two_schedules : Schedules
two_schedules = schedule_at "a" 40 ∷ schedule_at "b" 90 ∷ []

abbrev at_100 : String → String → Option ℕ
at_100 expression timezone = some 100

at_100-later :
    (expression timezone : String) (next : ℕ) → at_100 expression timezone ≡ some next → 50 < next
at_100-later expression timezone next e =
    subst (λ n. 50 < n) (some-injective 100 next e) (omega arith)

abbrev accepts_all : CreateJobDto → Bool
accepts_all dto = true

abbrev nothing_locked : String → Bool
nothing_locked id = false

tick_correct_example :
    Ticked 50
      (fetch_due_schedules 50 nothing_locked two_schedules)
      two_schedules
      (tick 50 "now" at_100 accepts_all nothing_locked two_schedules)
    × ((tick 50 "now" at_100 accepts_all nothing_locked two_schedules).failed ≡ false
        → fetch_due_schedules 50 nothing_locked
            (tick 50 "now" at_100 accepts_all nothing_locked two_schedules).table
          ≡ [])
tick_correct_example =
    tick_correct 50 "now" at_100 accepts_all nothing_locked two_schedules at_100-later
