-- ===== src/Retry.antt =====
-- internal/domain/retry_entities.go: the retry policy of a job. A method on `*RetryInfo` that
-- changes it returns the new record and takes the times that it reads from the clock.
pub mod Policy
pub mod Delay
use ai_cv_evaluator.Base.{
  ℕ, zero, suc, ◌+◌, ◌-◌, ◌*◌, ◌/◌, ◌^◌, ◌<◌, max, String, Bool, true, false, not, ◌&&◌, Option,
  none, some, List, [], ◌∷◌, ◌++◌, leb, if◌then◌else◌, length, take, any, inc, dec, add64, slt, sle,
  second, Bytes, codes, bytes_eq,
}
use ai_cv_evaluator.Float.{Float64}
use ai_cv_evaluator.Domain.{EvaluateTaskPayload}

pub data RetryStatus : Type 0 where
  retry_none retrying exhausted dlq : RetryStatus

-- The float `multiplier` is kept as its decimal literal, `digits / 10^places`.
pub record RetryConfig : Type 0 where
  pub max_retries : ℕ
  pub initial_delay : ℕ
  pub max_delay : ℕ
  pub multiplier_digits : ℕ
  pub multiplier_places : ℕ
  pub jitter : Bool
  pub retryable_errors : List Bytes
  pub non_retryable_errors : List Bytes

unfoldable pub default_retry_config : RetryConfig
default_retry_config = record {
  max_retries = 3;
  initial_delay = 2 * second;
  max_delay = 30 * second;
  multiplier_digits = 20;
  multiplier_places = 1;
  jitter = true;
  retryable_errors =
      codes "context deadline exceeded"
      ∷ codes "connection refused"
      ∷ codes "timeout"
      ∷ codes "temporary failure"
      ∷ codes "rate limited"
      ∷ codes "upstream timeout"
      ∷ codes "upstream rate limit"
      ∷ [];
  non_retryable_errors =
      codes "invalid argument"
      ∷ codes "not found"
      ∷ codes "conflict"
      ∷ codes "schema invalid"
      ∷ codes "authentication failed"
      ∷ codes "authorization failed"
      ∷ [];
}

pub record RetryInfo : Type 0 where
  pub attempt_count : ℕ
  pub max_attempts : ℕ
  pub last_attempt_at : ℕ
  pub next_retry_at : ℕ
  pub retry_status : RetryStatus
  pub last_error : Bytes
  pub error_history : List Bytes
  pub created_at : ℕ
  pub updated_at : ℕ

pub record DlqJob : Type 0 where
  pub job_id : String
  pub original_payload : EvaluateTaskPayload
  pub retry_info : RetryInfo
  pub failure_reason : Bytes
  pub moved_to_dlq_at : ℕ
  pub can_be_reprocessed : Bool

-- The helper `contains` of the source.
unfoldable pub contains : Bytes → Bytes → Bool
unfolding bytes_eq
contains s substr = leb (length substr) (length s) && bytes_eq (take (length substr) s) substr

abbrev is_dlq : RetryStatus → Bool
is_dlq dlq = true
is_dlq retry_none = false
is_dlq retrying = false
is_dlq exhausted = false

unfoldable pub should_retry : RetryInfo → Bytes → RetryConfig → Bool
should_retry ri error_str config =
    if sle config.max_retries ri.attempt_count
    then false
    else if is_dlq ri.retry_status
    then false
    else if any (contains error_str) config.retryable_errors
    then true
    else if any (contains error_str) config.non_retryable_errors
    then false
    else true

unfoldable pub update_retry_attempt : ℕ → ℕ → Option Bytes → RetryInfo → RetryInfo
update_retry_attempt now later none ri = record ri {
  attempt_count = inc ri.attempt_count;
  last_attempt_at = now;
  updated_at = later;
}
update_retry_attempt now later (some e) ri = record ri {
  attempt_count = inc ri.attempt_count;
  last_attempt_at = now;
  updated_at = later;
  last_error = e;
  error_history = ri.error_history ++ e ∷ [];
}

unfoldable pub mark_as_exhausted : ℕ → RetryInfo → RetryInfo
mark_as_exhausted now ri = record ri { retry_status = exhausted; updated_at = now }

unfoldable pub mark_as_dlq : ℕ → RetryInfo → RetryInfo
mark_as_dlq now ri = record ri { retry_status = dlq; updated_at = now }

unfoldable pub mark_as_retrying : ℕ → RetryInfo → RetryInfo
mark_as_retrying now ri = record ri { retry_status = retrying; updated_at = now }

module _ (float : Float64) where
  open float use {Carrier, of_int, to_int, mul, literal}

  -- The loop of `pow`, `n` rounds from `result`.
  unfoldable pub pow_loop : ℕ → Carrier → Carrier → Carrier
  pow_loop zero base result = result
  pow_loop (suc n) base result = pow_loop n base (mul result base)

  -- `for i := 0; i < int(exp); i++` makes no round for a negative bound.
  unfoldable pub pow : Carrier → Carrier → Carrier
  unfolding pow_loop
  pow base exp = pow_loop (if slt (to_int exp) 0 then 0 else to_int exp) base (literal 10 1)

  unfoldable pub calculate_next_retry_delay : RetryInfo → RetryConfig → ℕ
  unfolding pow
  calculate_next_retry_delay ri config =
      let grown = to_int (
        mul (of_int config.initial_delay) (
          pow (literal config.multiplier_digits config.multiplier_places)
            (of_int ri.attempt_count))) in
      let delay = if slt config.max_delay grown then config.max_delay else grown in
      if config.jitter then add64 delay (to_int (mul (of_int delay) (literal 1 1))) else delay
