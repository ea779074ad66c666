-- ===== src/AlertManager/Tests.antt =====
-- The theorem on the alerts, at the rules of the source and three evaluations.
use backend_task_orchestrati.Prelude.{ℕ, ◌≡◌, refl, false, some, none, List, [], ◌∷◌}
use backend_task_orchestrati.Prelude.Eq.{string_eq, elem}
use backend_task_orchestrati.Prelude.Keys.{IsUnique}
use backend_task_orchestrati.AlertManager.{Readings, build_rules, state_of}
use backend_task_orchestrati.AlertManager.Edges.{
  names_of, evaluate_all, last_reading, readings_of, sent_for, rises, evaluate_correct,
}

abbrev depth : ℕ → Readings
depth n = record { active_workers = some 1; dlq_entries = none; waiting_jobs = some (some n) }

abbrev three_times : List (ℕ × Readings)
three_times = (60, depth 6000) ∷ (120, depth 7000) ∷ (180, depth 10) ∷ []

rules-IsUnique : IsUnique (names_of build_rules)
unfolding elem
rules-IsUnique = (refl, (refl, (refl, tt)))

evaluate_correct_example :
    ((state_of "HIGH_QUEUE_DEPTH" (evaluate_all build_rules three_times ([], [])).0).firing
      ≡ last_reading false (readings_of "HIGH_QUEUE_DEPTH" build_rules three_times))
    × (sent_for "HIGH_QUEUE_DEPTH" (evaluate_all build_rules three_times ([], [])).1
        ≡ rises false (readings_of "HIGH_QUEUE_DEPTH" build_rules three_times))
evaluate_correct_example =
    evaluate_correct build_rules three_times "HIGH_QUEUE_DEPTH" rules-IsUnique
