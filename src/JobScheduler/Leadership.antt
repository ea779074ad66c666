-- ===== src/JobScheduler/Leadership.antt =====
-- src/scheduler/JobScheduler.ts: `start`, `stop`, the attempt to lead, the renewal of the lock and the
-- timer of the polls, as a machine. What the lock answers is an input. The scheduler of cron is a part
-- of the state.
use backend_task_orchestrati.Prelude.{ℕ, ◌+◌, ◌-◌, ◌<◌, ◌≡◌, Bool, true, false, none, if◌then◌else◌}
use backend_task_orchestrati.CronScheduler
use backend_task_orchestrati.CronScheduler.{Cron}

pub record Scheduler : Type 0 where
  pub is_running : Bool
  pub is_leader : Bool
  pub cron : Cron
  -- Whether the interval that `lockRenewalInterval` names runs, and how many run that it named before.
  pub renewing : Bool
  pub left_over : ℕ
  -- The callbacks that sleep before they try to lead again.
  pub asleep : ℕ
  pub poll_timer : Bool

-- What `tryAcquire` gives: the lock, a refusal, or an error.
pub data Attempt : Type 0 where
  acquired refused unreachable : Attempt

-- What `renew` gives.
pub data Renewal : Type 0 where
  renewed not_renewed unreachable_renewal : Renewal

abbrev pub idle : Scheduler
idle = record {
  is_running = false;
  is_leader = false;
  cron = record { is_running = false; poll_interval = none };
  renewing = false;
  left_over = 0;
  asleep = 0;
  poll_timer = false;
}

-- `setInterval`, where the handle of an interval that still runs is lost.
abbrev pub start_lock_renewal : Scheduler → Scheduler
start_lock_renewal s = record s {
  renewing = true;
  left_over = if s.renewing then s.left_over + 1 else s.left_over;
}

module _ (poll_interval_ms : ℕ) where
  unfoldable pub try_become_leader : Attempt → Scheduler → Scheduler
  try_become_leader acquired s =
      start_lock_renewal
        (record s { is_leader = true; cron = CronScheduler.start poll_interval_ms s.cron })
  try_become_leader refused s = s
  try_become_leader unreachable s = record s {
    is_leader = true;
    cron = CronScheduler.start poll_interval_ms s.cron;
  }

  abbrev pub schedule_poll : Scheduler → Scheduler
  schedule_poll s = if s.is_running then record s { poll_timer = true } else s

  unfoldable pub start : Attempt → Scheduler → Scheduler
  start attempt s =
      if s.is_running
      then s
      else schedule_poll (try_become_leader attempt (record s { is_running = true }))

  unfoldable pub stop : Scheduler → Scheduler
  stop s = record s {
    is_running = false;
    poll_timer = false;
    renewing = false;
    cron = CronScheduler.stop s.cron;
  }

  -- The callback of an interval, up to where it sleeps.
  unfoldable pub on_renewal : Renewal → Scheduler → Scheduler
  on_renewal renewed s = s
  on_renewal not_renewed s = record s {
    is_leader = false;
    cron = CronScheduler.stop s.cron;
    renewing = false;
    asleep = s.asleep + 1;
  }
  on_renewal unreachable_renewal s = s

  -- A callback that slept goes on.
  unfoldable pub wake : Attempt → Scheduler → Scheduler
  wake attempt s = try_become_leader attempt (record s { asleep = s.asleep - 1 })

  -- The callback of the timer: whether it polls, and the state.
  unfoldable pub on_poll : Scheduler → Bool × Scheduler
  on_poll s = (s.is_leader, schedule_poll (record s { poll_timer = false }))

  pub data Step : Scheduler → Scheduler → Type 0 where
    starts : (attempt : Attempt) (s : Scheduler) → Step s (start attempt s)
    stops : (s : Scheduler) → Step s (stop s)
    renews : (answer : Renewal) (s : Scheduler) → s.renewing ≡ true → Step s (on_renewal answer s)
    renews_left_over :
        (answer : Renewal) (s : Scheduler) → 0 < s.left_over → Step s (on_renewal answer s)
    wakes : (attempt : Attempt) (s : Scheduler) → 0 < s.asleep → Step s (wake attempt s)
    polls : (s : Scheduler) → s.poll_timer ≡ true → Step s (on_poll s).1

  pub data Steps (s : Scheduler) : Scheduler → Type 0 where
    none_yet : Steps s s
    one_more : {t u : Scheduler} → Steps s t → Step t u → Steps s u
