-- ===== src/LeaderElection/Tests.antt =====
-- The theorems on an election that has started.
use backend_task_orchestrati.Prelude.{◌≡◌, refl, true}
use backend_task_orchestrati.LeaderElection.{
  Election, leader, granted, initial, campaign, campaign_answer, start, stop,
}
use backend_task_orchestrati.LeaderElection.Renewal.{
  Reachable, at_start, then_step, starts, campaign_ends, leader_renews,
}

elected : Reachable (campaign_answer granted (start initial))
elected = then_step (then_step at_start starts) (campaign_ends granted)

elected_runs : (campaign_answer granted (start initial)).is_running ≡ true
unfolding campaign_answer start campaign
elected_runs = refl

elected_leads : (campaign_answer granted (start initial)).role ≡ leader
unfolding campaign_answer
elected_leads = refl

leader_renews_example : (campaign_answer granted (start initial)).renewing ≡ true
leader_renews_example =
    leader_renews (campaign_answer granted (start initial)) elected elected_runs elected_leads

abbrev running_election : Election
running_election = record initial { is_running = true }

-- Stopped while its campaign waits for the lock, and then granted it, the election leads.
leads_after_stop : (campaign_answer granted (stop (campaign running_election))).role ≡ leader
unfolding campaign_answer
leads_after_stop = refl
