-- ===== src/CallBreaker.antt =====
-- internal/adapter/observability/circuit_breaker.go: the breaker that wraps a call. The wrapped
-- function's result and the clock readings are arguments; `Call` holds the lock throughout.
pub mod Recovery
pub mod Manager
use ai_cv_evaluator.Base.{
  ℕ, suc, ◌-◌, ◌/◌, max, ap, Bool, true, false, not, ◌&&◌, if◌then◌else◌, all, half, wrap, inc, slt,
  sle, time_sub,
}

pub data State : Type 0 where
  state_closed state_open state_half_open : State

pub record CircuitBreaker : Type 0 where
  pub max_failures : ℕ
  pub timeout : ℕ
  pub state : State
  pub failures : ℕ
  pub last_failure : ℕ
  pub success_count : ℕ
  pub half_open_max : ℕ

unfoldable pub new_circuit_breaker : ℕ → ℕ → CircuitBreaker
new_circuit_breaker max_failures timeout = record {
  max_failures = max_failures;
  timeout = timeout;
  state = state_closed;
  failures = 0;
  last_failure = 0;
  success_count = 0;
  half_open_max = 3;
}

abbrev pub is_open : State → Bool
is_open state_open = true
is_open state_closed = false
is_open state_half_open = false

unfoldable pub should_allow_request : CircuitBreaker → Bool
should_allow_request cb = elim cb.state [
  | state_closed ↦ true
  | state_open ↦ false
  | state_half_open ↦ slt cb.success_count cb.half_open_max
]

abbrev count_success : State → CircuitBreaker → CircuitBreaker
count_success state_closed cb = record cb { failures = 0 }
count_success state_open cb = cb
count_success state_half_open cb =
    if sle cb.half_open_max (inc cb.success_count)
    then record cb { success_count = 0; state = state_closed; failures = 0 }
    else record cb { success_count = inc cb.success_count }

-- `failed` tells whether the wrapped function returned an error; `now` is read in that case.
unfoldable pub update_state : Bool → ℕ → CircuitBreaker → CircuitBreaker
update_state true now cb =
    let count = inc cb.failures in
    record cb {
      failures = count;
      last_failure = now;
      state = if sle cb.max_failures count then state_open else cb.state;
    }
update_state false now cb = count_success cb.state cb

-- From open to half-open once the timeout has passed.
unfoldable pub try_half_open : ℕ → CircuitBreaker → CircuitBreaker
try_half_open now cb =
    if is_open cb.state && sle cb.timeout (time_sub now cb.last_failure)
    then record cb { state = state_half_open; success_count = 0 }
    else cb

pub data Outcome : Type 0 where
  rejected returned_error returned_nil : Outcome

abbrev outcome_of : Bool → Outcome
outcome_of true = returned_error
outcome_of false = returned_nil

unfoldable pub call : ℕ → Bool → ℕ → CircuitBreaker → Outcome × CircuitBreaker
unfolding should_allow_request update_state try_half_open
call now failed later cb =
    let cb' = try_half_open now cb in
    if not (should_allow_request cb')
    then (rejected, cb')
    else (outcome_of failed, update_state failed later cb')

unfoldable pub reset : CircuitBreaker → CircuitBreaker
reset cb = record cb { state = state_closed; failures = 0; success_count = 0 }
