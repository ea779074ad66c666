-- ===== src/Retry/Policy.antt =====
-- `shouldRetry`.
use backend_task_orchestrati.Prelude.{
  ◌<◌, ◌≡◌, ◌⊎◌, ◌↔◌, refl, true, false, String, Option, some, none, List, [], ◌∷◌, arith, inl, inr,
  ltb, length, if◌then◌else◌,
}
use backend_task_orchestrati.Prelude.Eq.{string_eq, elem}
use backend_task_orchestrati.Models.Job.{Job}
use backend_task_orchestrati.Retry.{permanent_errors, is_listed, should_retry}

-- What a retry asks for: attempts left, an error that is not permanent, and, where the job lists
-- error codes, one of those.
pub record MayRetry (job : Job) (error_code : Option String) : Type 0 where
  pub left : job.retry_count < job.max_retries
  pub transient : (code : String) → error_code ≡ some code → elem code permanent_errors ≡ false
  pub listed :
      (job.retry_config.retry_on ≡ [])
      ⊎ ((code : String) × (error_code ≡ some code) × (elem code job.retry_config.retry_on ≡ true))

-- The two ways to be listed, read off the tests of the code.
listed_cases :
    (codes : List String) (error_code : Option String)
    → (if ltb 0 (length codes) then is_listed error_code codes else true) ≡ true
    → (codes ≡ []) ⊎ ((code : String) × (error_code ≡ some code) × (elem code codes ≡ true))
listed_cases [] error_code h = inl refl
listed_cases (c ∷ codes) none h = absurd (ground arith)
listed_cases (c ∷ codes) (some code) h = inr (code, refl, ground arith)

should_retry→MayRetry :
    (job : Job) (error_code : Option String)
    → should_retry job error_code ≡ true
    → MayRetry job error_code
unfolding should_retry
should_retry→MayRetry job error_code h = record {
  left = ground arith;
  transient = λ code e. ground arith;
  listed = listed_cases job.retry_config.retry_on error_code (ground arith);
}

MayRetry→should_retry :
    (job : Job) (error_code : Option String)
    → MayRetry job error_code
    → should_retry job error_code ≡ true
unfolding should_retry
MayRetry→should_retry job none may = ground (arith, may.left, may.listed)
MayRetry→should_retry job (some code) may =
    ground (arith, may.left, may.transient code refl, may.listed)

-- A job is retried exactly when the policy allows it.
pub should_retry_iff :
    (job : Job) (error_code : Option String)
    → (should_retry job error_code ≡ true) ↔ MayRetry job error_code
should_retry_iff job error_code =
    (should_retry→MayRetry job error_code, MayRetry→should_retry job error_code)
