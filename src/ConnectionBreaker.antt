-- ===== src/ConnectionBreaker.antt =====
-- internal/observability/circuit_breaker.go: the breaker of an external connection. A method takes
-- the time that it reads and returns the new breaker. `CanExecute` gives its read lock up before it
-- takes the write lock; here it is one step.
pub mod Probe
use ai_cv_evaluator.Base.{
  ℕ, suc, ◌+◌, ◌-◌, ◌*◌, ◌/◌, ◌^◌, max, Bool, true, false, ◌&&◌, if◌then◌else◌, take, half, inc,
  dec, add64, sle, time_sub,
}
use ai_cv_evaluator.Float.{Float64}

pub data CircuitBreakerState : Type 0 where
  state_closed state_open state_half_open : CircuitBreakerState

-- The float `success_threshold` is kept as its decimal literal, `digits / 10^places`.
pub record CircuitBreaker : Type 0 where
  pub max_failures : ℕ
  pub timeout : ℕ
  pub threshold_digits : ℕ
  pub threshold_places : ℕ
  pub state : CircuitBreakerState
  pub failure_count : ℕ
  pub success_count : ℕ
  pub last_failure_time : ℕ
  pub total_requests : ℕ
  pub total_failures : ℕ
  pub total_successes : ℕ
  pub state_changes : ℕ

unfoldable pub new_circuit_breaker : ℕ → ℕ → ℕ → ℕ → CircuitBreaker
new_circuit_breaker max_failures timeout digits places = record {
  max_failures = max_failures;
  timeout = timeout;
  threshold_digits = digits;
  threshold_places = places;
  state = state_closed;
  failure_count = 0;
  success_count = 0;
  last_failure_time = 0;
  total_requests = 0;
  total_failures = 0;
  total_successes = 0;
  state_changes = 0;
}

abbrev pub is_half_open : CircuitBreakerState → Bool
is_half_open state_half_open = true
is_half_open state_closed = false
is_half_open state_open = false

unfoldable pub can_execute : ℕ → CircuitBreaker → Bool × CircuitBreaker
can_execute now cb = elim cb.state [
  | state_closed ↦ (true, cb)
  | state_open ↦
      if sle cb.timeout (time_sub now cb.last_failure_time)
      then (
        true,
        record cb {
          state = state_half_open;
          failure_count = 0;
          success_count = 0;
          state_changes = inc cb.state_changes;
        },
      )
      else (false, cb)
  | state_half_open ↦ (true, cb)
]

-- The `switch` of `RecordFailure` on a breaker that has counted the failure.
abbrev after_failure : CircuitBreakerState → CircuitBreaker → CircuitBreaker
after_failure state_closed cb =
    if sle cb.max_failures cb.failure_count
    then record cb { state = state_open; state_changes = inc cb.state_changes }
    else cb
after_failure state_open cb = cb
after_failure state_half_open cb = record cb {
  state = state_open;
  state_changes = inc cb.state_changes;
}

unfoldable pub record_failure : ℕ → CircuitBreaker → CircuitBreaker
record_failure now cb = after_failure cb.state (record cb {
  total_requests = inc cb.total_requests;
  total_failures = inc cb.total_failures;
  failure_count = inc cb.failure_count;
  last_failure_time = now;
})

unfoldable pub reset : CircuitBreaker → CircuitBreaker
reset cb = record cb {
  state = state_closed;
  failure_count = 0;
  success_count = 0;
  total_requests = 0;
  total_failures = 0;
  total_successes = 0;
  state_changes = 0;
  last_failure_time = 0;
}

module _ (float : Float64) where
  open float use {of_int, to_int, mul, literal}

  -- `int(float64(successCount+failureCount)*successThreshold)`.
  unfoldable pub needed_successes : CircuitBreaker → ℕ
  needed_successes cb = to_int (
      mul (of_int (add64 cb.success_count cb.failure_count))
        (literal cb.threshold_digits cb.threshold_places))

  unfoldable pub record_success : CircuitBreaker → CircuitBreaker
  unfolding needed_successes
  record_success cb =
      let counted : CircuitBreaker = record cb {
        total_requests = inc cb.total_requests;
        total_successes = inc cb.total_successes;
        success_count = inc cb.success_count;
      } in
      if is_half_open counted.state && sle (needed_successes counted) counted.success_count
      then record counted {
        state = state_closed;
        failure_count = 0;
        success_count = 0;
        state_changes = inc counted.state_changes;
      }
      else counted
