-- ===== src/Retry/Tests.antt =====
-- The theorems on retries at small inputs.
use backend_task_orchestrati.Prelude.{
  ℕ, ◌*◌, ◌≤◌, ◌<◌, ◌⊎◌, ◌≡◌, ◌↔◌, refl, true, some, List, [], ◌∷◌, arith,
}
use backend_task_orchestrati.Models.Job.{exponential}
use backend_task_orchestrati.Samples.{plain_job}
use backend_task_orchestrati.Retry.{
  compute_retry_delay, exponential_delay, should_retry, chunk_array,
}
use backend_task_orchestrati.Retry.Delay.{delay, cap, jitter_correct}
use backend_task_orchestrati.Retry.Policy.{MayRetry, should_retry_iff}

abbrev second_delay : ℕ → ℕ
second_delay = delay 10 5000 2

jitter_correct_example :
    (compute_retry_delay 3 10 5000 2 exponential ≤ second_delay 3)
    × (5 * second_delay 3 < 6 * (exponential_delay 5000 2 * (5 * 10)))
    × (second_delay 3 ≤ cap 10 5000)
    × ((7 ≤ 3) ⊎ (second_delay 3 < second_delay 7) ⊎ (second_delay 7 ≡ cap 10 5000))
    × ((second_delay 3 < delay 10 5000 3 7) ⊎ (delay 10 5000 3 7 ≡ cap 10 5000))
    × ((2 < 17) ⊎ (second_delay 3 ≡ cap 10 5000))
jitter_correct_example = jitter_correct 10 5000 2 3 7 (omega arith) (omega arith) (omega arith)

should_retry_iff_example :
    (should_retry (plain_job "a") (some "SECURITY_VIOLATION") ≡ true)
    ↔ MayRetry (plain_job "a") (some "SECURITY_VIOLATION")
should_retry_iff_example = should_retry_iff (plain_job "a") (some "SECURITY_VIOLATION")

abbrev five : List ℕ
five = 1 ∷ 2 ∷ 3 ∷ 4 ∷ 5 ∷ []

chunk_five : chunk_array 5 five 2 ≡ (1 ∷ 2 ∷ []) ∷ (3 ∷ 4 ∷ []) ∷ (5 ∷ []) ∷ []
unfolding chunk_array
chunk_five = refl
