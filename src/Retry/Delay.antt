-- ===== src/Retry/Delay.antt =====
-- `computeRetryDelay` and `toBullPriority`.
use native.Mathlib.Decide.{dec_lt}
use native.Mathlib.Nat.{
  pow-suc, mul-le-mul_right, mul-pos, mul-lt-mul_of_pos_left, pow-le-pow_right,
}
use backend_task_orchestrati.Prelude.{ℕ, suc, ◌*◌, ◌^◌, ◌≤◌, ◌<◌, ◌≡◌, ◌⊎◌, inl, inr, min, arith}
use backend_task_orchestrati.Models.Job.{
  JobPriority, background, priority_weight, exponential, jitter,
}
use backend_task_orchestrati.Retry.{
  exponential_delay, max_delay, compute_retry_delay, to_bull_priority,
}

exponential_delay_pos : (base attempt : ℕ) → 0 < base → 0 < exponential_delay base attempt
exponential_delay_pos base attempt h =
    mul-pos h (pow-le-pow_right {n = 2} (omega arith) {i = 0} {j = attempt} (omega arith))

exponential_delay_doubles :
    (base attempt : ℕ) → exponential_delay base (suc attempt) ≡ 2 * exponential_delay base attempt
exponential_delay_doubles base attempt = rw (pow-suc) (omega arith)

exponential_delay_late :
    (base attempt : ℕ) → 0 < base → 17 ≤ attempt → 131072 ≤ exponential_delay base attempt
exponential_delay_late base attempt h late =
    let power : 131072 ≤ 2 ^ attempt = pow-le-pow_right {n = 2} (omega arith) late in
    omega (arith, power, mul-le-mul_right (2 ^ attempt) h)

-- Of two sums under a cap, the greater is greater unless it is at the cap.
capped : (a b cap : ℕ) → a < b → (min a cap < min b cap) ⊎ (min b cap ≡ cap)
capped a b cap h = ground arith

module _ (range base : ℕ) where
  abbrev pub delay : ℕ → ℕ → ℕ
  delay attempt draw = compute_retry_delay draw range base attempt jitter

  abbrev pub cap : ℕ
  cap = max_delay * (10 * range)

  -- For a base above 0 and draws below the range: the delay with jitter is at least the one without, below
  -- six fifths of the uncapped one, and at most a minute; a greater draw gives a longer delay, and so does
  -- the next attempt, whatever the draws, unless the delay is a minute; from attempt 17 on it is a minute.
  pub jitter_correct :
      (attempt draw draw' : ℕ)
      → 0 < base
      → draw < range
      → draw' < range
      → (compute_retry_delay draw range base attempt exponential ≤ delay attempt draw)
        × (5 * delay attempt draw < 6 * (exponential_delay base attempt * (5 * range)))
        × (delay attempt draw ≤ cap)
        × ((draw' ≤ draw)
            ⊎ (delay attempt draw < delay attempt draw')
            ⊎ (delay attempt draw' ≡ cap))
        × ((delay attempt draw < delay (suc attempt) draw') ⊎ (delay (suc attempt) draw' ≡ cap))
        × ((attempt < 17) ⊎ (delay attempt draw ≡ cap))
  unfolding compute_retry_delay
  jitter_correct attempt draw draw' positive h h' =
      let e = exponential_delay base attempt in
      let some_delay : 0 < e = exponential_delay_pos base attempt positive in
      let fifth : e * draw < e * range = mul-lt-mul_of_pos_left h some_delay in
      let whole : e * (5 * range) ≡ 5 * (e * range) = omega arith in
      let twice : exponential_delay base (suc attempt) * (5 * range) ≡ 10 * (e * range) =
        rw (exponential_delay_doubles base attempt) (omega arith) in
      (
        omega arith,
        omega (arith, fifth, whole),
        omega arith,
        elim (dec_lt draw draw') [
          | yes less ↦ inr (capped _ _ cap (omega (arith, mul-lt-mul_of_pos_left less some_delay)))
          | no not_less ↦ inl (omega arith)
        ],
        capped _ _ cap (omega (arith, fifth, whole, twice)),
        elim (dec_lt attempt 17) [
          | yes early ↦ inl early
          | no late ↦ inr (
              omega (
                arith,
                mul-le-mul_right (5 * range)
                    (exponential_delay_late base attempt positive (omega (arith, late))),
              ))
        ],
      )

-- A job of greater weight has a smaller number in the queue, so it is served first.
pub to_bull_priority_order :
    (p q : JobPriority)
    → priority_weight q < priority_weight p
    → to_bull_priority p < to_bull_priority q
unfolding to_bull_priority
to_bull_priority_order p q h = ground arith

-- The numbers given out are 1, 2, 4, 5 and 6.
pub to_bull_priority_range :
    (p : JobPriority)
    → (1 ≤ to_bull_priority p)
      × (to_bull_priority p ≤ 6)
      × (¬ (to_bull_priority p ≡ 3))
      × ((p ≡ background) → 5 < to_bull_priority p)
unfolding to_bull_priority
to_bull_priority_range p = ground arith
