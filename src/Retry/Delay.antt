-- ===== src/Retry/Delay.antt =====
-- internal/domain/retry_entities.go: the delay before the next retry.
use ai_cv_evaluator.Base.{ℕ, ◌+◌, ◌/◌, ◌≤◌, ◌<◌, min, ◌≡◌, ◌⊎◌, true, false, arith, modulus, half}
use ai_cv_evaluator.Float.{Float64}
use ai_cv_evaluator.Retry.{RetryConfig, RetryInfo, pow, calculate_next_retry_delay}

-- What is used of IEEE 754 doubles: a conversion gives a 64-bit word, integers below 2^53 are
-- exact, and so the truncated product of one by 0.1 is its tenth or one more.
pub record TenthRounds (float : Float64) : Type 0 where
  pub word : (x : float.Carrier) → float.to_int x < modulus
  pub tenth :
      (d : ℕ)
      → d < 9_007_199_254_740_992
      → float.to_int (float.mul (float.of_int d) (float.literal 1 1)) ≤ d / 10 + 1
  pub tenth_low :
      (d : ℕ)
      → d < 9_007_199_254_740_992
      → d / 10 ≤ float.to_int (float.mul (float.of_int d) (float.literal 1 1))

module _ (float : Float64) where
  open float use {Carrier, of_int, to_int, mul, literal}

  -- The initial delay times the power of the multiplier, before the cap.
  abbrev pub grown_delay : RetryInfo → RetryConfig → ℕ
  grown_delay ri config = to_int (
      mul (of_int config.initial_delay) (
        pow float (literal config.multiplier_digits config.multiplier_places)
          (of_int ri.attempt_count)))

  -- When a float's conversion gives a 64-bit word and the truncated tenth of an integer below 2^53 is its
  -- tenth or one more, the largest delay is below 2^53 nanoseconds, and the grown delay did not overflow
  -- to a negative word: without jitter the delay is the lesser of the two, and jitter adds to it a tenth
  -- of it, or a nanosecond more than that. So where the cap is met and is 10 nanoseconds at least, the
  -- delay with jitter is above the largest delay.
  pub delay_bounded :
      (ri : RetryInfo) (config : RetryConfig)
      → TenthRounds float
      → config.max_delay < 9_007_199_254_740_992
      → grown_delay ri config < half
      → let delay = min (grown_delay ri config) config.max_delay in
        (calculate_next_retry_delay float ri (record config { jitter = false }) ≡ delay)
        × (delay + delay / 10
            ≤ calculate_next_retry_delay float ri (record config { jitter = true }))
        × (calculate_next_retry_delay float ri (record config { jitter = true })
            ≤ delay + delay / 10 + 1)
        × ((grown_delay ri config < config.max_delay)
            ⊎ (config.max_delay < 10)
            ⊎ (config.max_delay
                < calculate_next_retry_delay float ri (record config { jitter = true })))
  unfolding calculate_next_retry_delay
  delay_bounded ri config laws small sign = ground (
    arith,
    laws.tenth config.max_delay,
    laws.tenth (grown_delay ri config),
    laws.tenth_low config.max_delay,
    laws.tenth_low (grown_delay ri config),
  )
