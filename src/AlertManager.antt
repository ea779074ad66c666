-- ===== src/AlertManager.antt =====
-- src/monitoring/AlertManager.ts
-- What a rule finds is an input: whether it fires, or `none` where its query throws. A notification
-- never throws, and is here the name of its rule.
pub mod Edges
mod Tests
use backend_task_orchestrati.Prelude.{
  ℕ, ◌+◌, Bool, true, false, not, ◌&&◌, String, Option, none, some, List, [], ◌∷◌, ◌++◌, ltb,
  nat_beq, if◌then◌else◌, or_else,
}
use backend_task_orchestrati.Prelude.Eq.{string_eq}
use backend_task_orchestrati.Prelude.Maps.{lookup, insert}

pub data Severity : Type 0 where
  warning critical : Severity

pub record AlertState : Type 0 where
  pub firing : Bool
  pub last_fired_at : Option ℕ
  pub last_resolved_at : Option ℕ
  pub firing_count : ℕ

abbrev pub States : Type 0
States = List (String × AlertState)

-- What the queries of the rules return, `none` where they throw.
pub record Readings : Type 0 where
  pub active_workers : Option ℕ
  pub dlq_entries : Option ℕ
  pub waiting_jobs : Option (Option ℕ)

pub record AlertRule : Type 0 where
  pub name : String
  pub description : String
  pub severity : Severity
  pub evaluate : Readings → Option Bool

abbrev found : {A : Type 0} → (A → Bool) → Option A → Option Bool
found test none = none
found test (some a) = some (test a)

abbrev pub build_rules : List AlertRule
build_rules =
    record {
      name = "NO_ACTIVE_WORKERS";
      description = "No active worker nodes detected";
      severity = critical;
      evaluate = λ r. found (λ workers. nat_beq workers 0) r.active_workers;
    }
    ∷ record {
      name = "DLQ_THRESHOLD";
      description = "Dead letter queue has more than 50 entries";
      severity = warning;
      evaluate = λ r. found (λ count. ltb 50 count) r.dlq_entries;
    }
    ∷ record {
      name = "HIGH_QUEUE_DEPTH";
      description = "Main job queue has more than 5000 waiting jobs";
      severity = warning;
      evaluate = λ r. found (λ waiting. ltb 5000 (or_else waiting 0)) r.waiting_jobs;
    }
    ∷ []

abbrev pub quiet : AlertState
quiet = record { firing = false; last_fired_at = none; last_resolved_at = none; firing_count = 0 }

abbrev pub fired : ℕ → AlertState → AlertState
fired now prev = record {
  firing = true;
  last_fired_at = some now;
  last_resolved_at = none;
  firing_count = prev.firing_count + 1;
}

abbrev pub resolved : ℕ → AlertState → AlertState
resolved now prev = record prev { firing = false; last_resolved_at = some now }

abbrev pub state_of : String → States → AlertState
state_of name states = or_else (lookup name states) quiet

-- The body of the loop for a rule that found whether it fires.
abbrev pub settle : ℕ → String → Bool → States × List String → States × List String
settle now name firing (states, sent) =
    let prev = state_of name states in
    if firing && not prev.firing
    then (insert name (fired now prev) states, sent ++ name ∷ [])
    else (if not firing && prev.firing
        then (insert name (resolved now prev) states, sent)
        else (states, sent))

unfoldable pub evaluate_rule :
    ℕ → Readings → AlertRule → States × List String → States × List String
evaluate_rule now readings rule m = elim (rule.evaluate readings) [
  | none ↦ m
  | some firing ↦ settle now rule.name firing m
]

-- The states, and the notifications sent, oldest first.
unfoldable pub evaluate :
    ℕ → Readings → List AlertRule → States × List String → States × List String
evaluate now readings [] m = m
evaluate now readings (rule ∷ rules) m =
    evaluate now readings rules (evaluate_rule now readings rule m)

abbrev pub get_alert_states : List AlertRule → States → List (String × AlertState × Severity)
get_alert_states [] states = []
get_alert_states (rule ∷ rules) states =
    (rule.name, state_of rule.name states, rule.severity) ∷ get_alert_states rules states
