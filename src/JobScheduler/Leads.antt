-- ===== src/JobScheduler/Leads.antt =====
-- src/scheduler/JobScheduler.ts: who leads, and who leads without the lock.
use backend_task_orchestrati.Prelude.{ℕ, ◌≡◌, refl, true, false, arith, Bool-cases, ◌⊎◌, inl, inr}
use backend_task_orchestrati.CronScheduler
use backend_task_orchestrati.CronScheduler.{Cron}
use backend_task_orchestrati.JobScheduler.Leadership.{
  Scheduler, Attempt, acquired, refused, unreachable, Renewal, renewed, not_renewed,
  unreachable_renewal, idle, try_become_leader, start, stop, on_renewal, wake, on_poll, Step,
  starts, stops, renews, renews_left_over, wakes, polls, Steps, none_yet, one_more,
}

module _ (interval : ℕ) where
  -- Only a leader runs cron or renews.
  abbrev pub IsOrderly : Scheduler → Type 0
  IsOrderly s =
      (s.cron.is_running ≡ true → s.is_leader ≡ true) × (s.renewing ≡ true → s.is_leader ≡ true)

  try-IsOrderly :
      (attempt : Attempt) (s : Scheduler)
      → IsOrderly s
      → IsOrderly (try_become_leader interval attempt s)
  unfolding try_become_leader
  try-IsOrderly acquired s h = (λ e. refl, λ e. refl)
  try-IsOrderly refused s h = h
  try-IsOrderly unreachable s h = (λ e. refl, λ e. refl)

  start-IsOrderly :
      (attempt : Attempt) (s : Scheduler) → IsOrderly s → IsOrderly (start interval attempt s)
  unfolding start
  start-IsOrderly attempt s h = elim (Bool-cases s.is_running) [
    | inl running ↦ rw running h
    | inr still ↦
        let led = try-IsOrderly attempt (record s { is_running = true }) h in
        elim (Bool-cases
          (try_become_leader interval attempt (record s { is_running = true })).is_running) [
            | inl on ↦ rw (still, on) led
            | inr off ↦ rw (still, off) led
          ]
  ]

  renewal-IsOrderly :
      (answer : Renewal) (s : Scheduler) → IsOrderly s → IsOrderly (on_renewal interval answer s)
  unfolding on_renewal CronScheduler.stop
  renewal-IsOrderly renewed s h = h
  renewal-IsOrderly not_renewed s h =
      (λ e. absurd (ground (arith, e)), λ e. absurd (ground (arith, e)))
  renewal-IsOrderly unreachable_renewal s h = h

  IsOrderly-Step : (s t : Scheduler) → Step interval s t → IsOrderly s → IsOrderly t
  unfolding stop wake on_poll CronScheduler.stop
  IsOrderly-Step s t (starts attempt s') h = start-IsOrderly attempt s h
  IsOrderly-Step s t (stops s') h =
      (λ e. absurd (ground (arith, e)), λ e. absurd (ground (arith, e)))
  IsOrderly-Step s t (renews answer s' on) h = renewal-IsOrderly answer s h
  IsOrderly-Step s t (renews_left_over answer s' some_left) h = renewal-IsOrderly answer s h
  IsOrderly-Step s t (wakes attempt s' some_asleep) h = try-IsOrderly attempt _ h
  IsOrderly-Step s t (polls s' on) h = elim (Bool-cases s.is_running) [
    | inl running ↦ rw running h
    | inr still ↦ rw still h
  ]

  -- In every state that the scheduler reaches, if it runs cron or renews the lock, it is the leader.
  pub leader-IsOrderly : (s : Scheduler) → Steps interval idle s → IsOrderly s
  leader-IsOrderly s none_yet = (λ e. absurd (ground (arith, e)), λ e. absurd (ground (arith, e)))
  leader-IsOrderly s (one_more {t} before last) =
      IsOrderly-Step t s last (leader-IsOrderly t before)

  -- It runs and leads, and nothing renews a lock.
  abbrev pub IsStandalone : Scheduler → Type 0
  IsStandalone s =
      (s.is_running ≡ true)
      × (s.is_leader ≡ true)
      × (s.renewing ≡ false)
      × (s.left_over ≡ 0)
      × (s.asleep ≡ 0)

  -- A scheduler that runs and leads while nothing renews a lock, as one does whose first attempt to
  -- lead met an error, does so after every step but a stop.
  pub IsStandalone-stays :
      (s t : Scheduler)
      → IsStandalone s
      → Step interval s t
      → (t ≡ stop interval s) ⊎ IsStandalone t
  unfolding start on_poll
  IsStandalone-stays s t h (starts attempt s') = inr (rw h.0 (refl, h.1, h.2, h.3, h.4))
  IsStandalone-stays s t h (stops s') = inl refl
  IsStandalone-stays s t h (renews answer s' on) = absurd (ground (arith, on, h.2))
  IsStandalone-stays s t h (renews_left_over answer s' some_left) =
      absurd (ground (arith, some_left, h.3))
  IsStandalone-stays s t h (wakes attempt s' some_asleep) =
      absurd (ground (arith, some_asleep, h.4))
  IsStandalone-stays s t h (polls s' on) = inr (rw h.0 (refl, h.1, h.2, h.3, h.4))

  -- A leader that is stopped, and started again while the lock is refused to it, leads and polls,
  -- though its interval does not renew a lock.
  pub restarted_leads :
      (s : Scheduler)
      → s.is_leader ≡ true
      → ((start interval refused (stop interval s)).is_leader ≡ true)
        × ((start interval refused (stop interval s)).poll_timer ≡ true)
        × ((start interval refused (stop interval s)).renewing ≡ false)
  unfolding start stop try_become_leader
  restarted_leads s leads = (leads, refl, refl)
