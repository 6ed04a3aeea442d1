-- ===== src/ModelBreaker.antt =====
-- internal/adapter/ai/circuit_breaker.go: the circuit breaker of one AI model. A method takes the
-- time that it reads from the clock, and returns the new breaker; the mutex makes each one atomic.
-- The log lines and the statistics maps are left out.
pub mod Trace
pub mod Manager
use ai_cv_evaluator.Base.{
  ℕ, suc, ◌-◌, ◌*◌, ◌/◌, String, ap, Bool, true, map, if◌then◌else◌, take, half, inc, slt, sle,
  time_sub, second,
}

pub data CircuitState : Type 0 where
  circuit_closed circuit_open circuit_half_open : CircuitState

pub record CircuitBreaker : Type 0 where
  pub model_id : String
  pub failure_threshold : ℕ
  pub recovery_timeout : ℕ
  pub state : CircuitState
  pub failure_count : ℕ
  pub success_count : ℕ
  pub last_failure_time : ℕ
  pub last_success_time : ℕ
  pub total_requests : ℕ
  pub total_failures : ℕ

unfoldable pub new_circuit_breaker : String → CircuitBreaker
new_circuit_breaker model_id = record {
  model_id = model_id;
  failure_threshold = 3;
  recovery_timeout = 30 * second;
  state = circuit_closed;
  failure_count = 0;
  success_count = 0;
  last_failure_time = 0;
  last_success_time = 0;
  total_requests = 0;
  total_failures = 0;
}

unfoldable pub should_attempt : ℕ → CircuitBreaker → Bool
should_attempt now cb = elim cb.state [
  | circuit_closed ↦ true
  | circuit_open ↦ slt cb.recovery_timeout (time_sub now cb.last_failure_time)
  | circuit_half_open ↦ true
]

-- The `switch` of `RecordSuccess`: both cases close the circuit.
abbrev after_success : CircuitState → CircuitState
after_success circuit_half_open = circuit_closed
after_success circuit_open = circuit_closed
after_success circuit_closed = circuit_closed

unfoldable pub record_success : ℕ → CircuitBreaker → CircuitBreaker
record_success now cb = record cb {
  success_count = inc cb.success_count;
  last_success_time = now;
  total_requests = inc cb.total_requests;
  failure_count = 0;
  state = after_success cb.state;
}

unfoldable pub record_failure : ℕ → CircuitBreaker → CircuitBreaker
record_failure now cb =
    let count = inc cb.failure_count in
    record cb {
      failure_count = count;
      total_failures = inc cb.total_failures;
      total_requests = inc cb.total_requests;
      last_failure_time = now;
      state = if sle cb.failure_threshold count then circuit_open else cb.state;
    }
