-- ===== src/Retry.antt =====
-- src/utils/helpers.ts (`computeRetryDelay`, `chunkArray`), src/queue/JobQueue.ts (`toBullPriority`)
-- and src/services/RetryService.ts (`shouldRetry`, `getRetryDelay`).
pub mod Delay
pub mod Policy
pub mod Chunks
mod Tests
use backend_task_orchestrati.Prelude.{
  ℕ, zero, suc, ◌+◌, ◌-◌, ◌*◌, ◌/◌, ◌^◌, min, Bool, true, false, not, ◌&&◌, String, Option, none,
  some, List, [], ◌∷◌, leb, ltb, if◌then◌else◌, length, take, drop,
}
use backend_task_orchestrati.Prelude.Eq.{string_eq, elem}
use backend_task_orchestrati.Models.Job.{
  Job, JobPriority, priority_weight, RetryBackoff, fixed, exponential, jitter,
}

-- `baseDelayMs * Math.pow(2, attempt - 1)`, in halves of a millisecond.
abbrev pub exponential_delay : ℕ → ℕ → ℕ
exponential_delay base_delay_ms attempt = base_delay_ms * 2 ^ attempt

abbrev pub max_delay : ℕ
max_delay = 60_000

-- The random number is the fraction `draw / range`, and the delay is exact: it counts parts of a
-- millisecond, of which one has `10 * range`.
unfoldable pub compute_retry_delay : (draw range : ℕ) → ℕ → ℕ → RetryBackoff → ℕ
compute_retry_delay draw range base_delay_ms attempt fixed = base_delay_ms * (10 * range)
compute_retry_delay draw range base_delay_ms attempt exponential =
    min (exponential_delay base_delay_ms attempt * (5 * range)) (max_delay * (10 * range))
compute_retry_delay draw range base_delay_ms attempt jitter =
    let delay = exponential_delay base_delay_ms attempt * (5 * range) in
    let shaken = exponential_delay base_delay_ms attempt * draw in
    min (delay + shaken) (max_delay * (10 * range))

abbrev pub permanent_errors : List String
permanent_errors =
    "SECURITY_VIOLATION" ∷ "HANDLER_NOT_FOUND" ∷ "UNKNOWN_JOB_TYPE" ∷ "PERMISSION_DENIED"
    ∷ "RESOURCE_NOT_FOUND" ∷ []

-- An error code is `none` where it is `undefined` or empty.
abbrev pub is_permanent : Option String → Bool
is_permanent none = false
is_permanent (some code) = elem code permanent_errors

abbrev pub is_listed : Option String → List String → Bool
is_listed none codes = false
is_listed (some code) codes = elem code codes

unfoldable pub should_retry : Job → Option String → Bool
should_retry job error_code =
    if leb job.max_retries job.retry_count
    then false
    else if is_permanent error_code
    then false
    else if ltb 0 (length job.retry_config.retry_on)
    then is_listed error_code job.retry_config.retry_on
    else true

unfoldable pub get_retry_delay : (draw range : ℕ) → Job → ℕ
get_retry_delay draw range job =
    compute_retry_delay draw range job.retry_config.retry_delay (job.retry_count + 1)
      job.retry_config.retry_backoff

-- `Math.round((100 - weight) / 20) + 1`, a half rounded up.
unfoldable pub to_bull_priority : JobPriority → ℕ
to_bull_priority p = (100 - priority_weight p + 10) / 20 + 1

-- The loop of `chunkArray`, on fuel. A size of 0 never ends in the program.
unfoldable pub chunk_array {ℓ} : {A : Type ℓ} → ℕ → List A → ℕ → List (List A)
chunk_array zero array size = []
chunk_array (suc fuel) array size =
    if ltb 0 (length array) then take size array ∷ chunk_array fuel (drop size array) size else []
