-- ===== src/LeaderElection.antt =====
-- src/distributed/LeaderElection.ts as a machine of roles. A method that awaits the lock is two steps,
-- the call and the answer; whatever the event loop runs in between comes between them.
pub mod Renewal
mod Tests
use backend_task_orchestrati.Prelude.{Bool, true, false, not, if◌then◌else◌}

pub data LeaderRole : Type 0 where
  follower candidate leader : LeaderRole

-- `renewing` tells whether the timer of the renewal runs, and `campaign_due` whether a timer will
-- call `campaign`.
pub record Election : Type 0 where
  pub role : LeaderRole
  pub is_running : Bool
  pub renewing : Bool
  pub campaign_due : Bool

-- How the call of the lock ends: with true, with false, or with an error.
pub data Answer : Type 0 where
  granted refused failed : Answer

abbrev pub initial : Election
initial = record { role = follower; is_running = false; renewing = false; campaign_due = false }

-- `campaign` up to the call of `tryAcquire`.
unfoldable pub campaign : Election → Election
campaign e = if not e.is_running then e else record e { role = candidate }

-- `becomeLeader`, `becomeFollower` and the handling of an error.
unfoldable pub campaign_answer : Answer → Election → Election
campaign_answer granted e = record e { role = leader; renewing = true }
campaign_answer refused e = record e { role = follower; campaign_due = true }
campaign_answer failed e = record e { role = follower; campaign_due = true }

unfoldable pub start : Election → Election
start e = campaign (record e { is_running = true })

-- `stop` up to the call of `release`, which a leader makes; the role stays until the lock answers.
unfoldable pub stop : Election → Election
stop e = record e { is_running = false; renewing = false; campaign_due = false }

-- What a leader's `stop` does once `release` has answered: what it returns is not looked at, and an
-- error leaves the method.
unfoldable pub stop_answer : Answer → Election → Election
stop_answer granted e = record e { role = follower }
stop_answer refused e = record e { role = follower }
stop_answer failed e = e

-- The callback of the renewal, once `renew` has answered. An error leaves the callback.
unfoldable pub renewal_answer : Answer → Election → Election
renewal_answer granted e = e
renewal_answer refused e = record e { role = follower; renewing = false }
renewal_answer failed e = e

unfoldable pub is_leader : LeaderRole → Bool
is_leader follower = false
is_leader candidate = false
is_leader leader = true
