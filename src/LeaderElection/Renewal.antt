-- ===== src/LeaderElection/Renewal.antt =====
-- What a leader does, in every order of the calls and the answers.
use backend_task_orchestrati.Prelude.{◌≡◌, refl, true, false, arith}
use backend_task_orchestrati.LeaderElection.{
  leader, Election, Answer, granted, refused, failed, initial, campaign, campaign_answer, start,
  stop, stop_answer, renewal_answer,
}

-- One step of the election.
pub data Step : Election → Election → Type 0 where
  starts : {e : Election} → Step e (start e)
  stops : {e : Election} → Step e (stop e)
  stop_ends : {e : Election} (a : Answer) → Step e (stop_answer a e)
  campaigns : {e : Election} → Step e (campaign e)
  campaign_ends : {e : Election} (a : Answer) → Step e (campaign_answer a e)
  renewal_ends : {e : Election} (a : Answer) → Step e (renewal_answer a e)

-- The states that steps lead to from the start.
pub data Reachable : Election → Type 0 where
  at_start : Reachable initial
  then_step : {e e' : Election} → Reachable e → Step e e' → Reachable e'

abbrev IsRenewed : Election → Type 0
IsRenewed e = e.is_running ≡ true → e.role ≡ leader → e.renewing ≡ true

-- A campaign that runs makes a candidate, and one that is stopped stays so.
campaign-IsRenewed : (e : Election) → IsRenewed (campaign e)
unfolding campaign
campaign-IsRenewed e = λ runs is. absurd (ground (arith, runs, is))

Step-IsRenewed : {e e' : Election} → Step e e' → IsRenewed e → IsRenewed e'
unfolding campaign_answer stop stop_answer renewal_answer start
Step-IsRenewed {e} starts h = campaign-IsRenewed (record e { is_running = true })
Step-IsRenewed stops h = λ runs is. absurd (ground (arith, runs))
Step-IsRenewed (stop_ends granted) h = λ runs is. absurd (ground (arith, is))
Step-IsRenewed (stop_ends refused) h = λ runs is. absurd (ground (arith, is))
Step-IsRenewed (stop_ends failed) h = h
Step-IsRenewed {e} campaigns h = campaign-IsRenewed e
Step-IsRenewed (campaign_ends granted) h = λ runs is. refl
Step-IsRenewed (campaign_ends refused) h = λ runs is. absurd (ground (arith, is))
Step-IsRenewed (campaign_ends failed) h = λ runs is. absurd (ground (arith, is))
Step-IsRenewed (renewal_ends granted) h = h
Step-IsRenewed (renewal_ends refused) h = λ runs is. absurd (ground (arith, is))
Step-IsRenewed (renewal_ends failed) h = h

-- In every state that the election reaches, one that is not stopped and leads renews its lock.
pub leader_renews :
    (e : Election) → Reachable e → e.is_running ≡ true → e.role ≡ leader → e.renewing ≡ true
leader_renews _ at_start runs is = absurd (ground (arith, is))
leader_renews _ (then_step {e} before step) runs is =
    Step-IsRenewed step (leader_renews e before) runs is

-- A leader that is stopped keeps its role, without renewing its lock, until the lock answers, and after
-- an answer that is an error.
pub stopped_leads :
    (e : Election)
    → e.role ≡ leader
    → ((stop e).role ≡ leader)
      × ((stop e).renewing ≡ false)
      × ((stop_answer failed (stop e)).role ≡ leader)
      × ((stop_answer failed (stop e)).renewing ≡ false)
unfolding stop stop_answer
stopped_leads e is = (is, refl, is, refl)
