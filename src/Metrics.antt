-- ===== src/Metrics.antt =====
-- internal/observability/metrics.go: the counters of an external connection and the circuit that it
-- reports. The times that a method reads are arguments; `GetStats` and the log are left out, and so
-- are the three labels of a connection, which no method changes.
pub mod Counting
use ai_cv_evaluator.Base.{
  ℕ, zero, suc, ◌-◌, ◌*◌, ◌/◌, min, max, String, Bool, true, false, ◌&&◌, Option, none, some, List,
  [], ltb, ◌==◌, if◌then◌else◌, half, inc, add64, sub64, slt, sle, time_sub, second, lookup, insert,
}
use ai_cv_evaluator.Float.{Float64}

-- The strings "closed", "open" and "half-open" of `CircuitState`.
pub data CircuitState : Type 0 where
  closed open_state half_open : CircuitState

pub record ConnectionMetrics : Type 0 where
  pub total_requests : ℕ
  pub success_requests : ℕ
  pub failure_requests : ℕ
  pub timeout_requests : ℕ
  pub total_latency : ℕ
  pub min_latency : ℕ
  pub max_latency : ℕ
  pub avg_latency : ℕ
  pub error_counts : List (String × ℕ)
  pub first_request : ℕ
  pub last_request : ℕ
  pub last_success : ℕ
  pub last_failure : ℕ
  pub circuit_state : CircuitState
  pub circuit_failures : ℕ
  pub circuit_successes : ℕ

unfoldable pub new_connection_metrics : ConnectionMetrics
new_connection_metrics = record {
  total_requests = 0;
  success_requests = 0;
  failure_requests = 0;
  timeout_requests = 0;
  total_latency = 0;
  min_latency = 3_600 * second;
  max_latency = 0;
  avg_latency = 0;
  error_counts = [];
  first_request = 0;
  last_request = 0;
  last_success = 0;
  last_failure = 0;
  circuit_state = closed;
  circuit_failures = 0;
  circuit_successes = 0;
}

-- `first` and `last` are the two times read.
unfoldable pub record_request : ℕ → ℕ → ConnectionMetrics → ConnectionMetrics
record_request first last cm = record cm {
  total_requests = inc cm.total_requests;
  first_request = if cm.first_request == 0 then first else cm.first_request;
  last_request = last;
}

-- The quotient of two words, which Go rounds towards zero.
abbrev pub neg64 : ℕ → ℕ
neg64 a = sub64 0 a

abbrev pub quot : ℕ → ℕ → ℕ
quot a b = if ltb a half then a / b else neg64 (neg64 a / b)

abbrev pub is_half_open : CircuitState → Bool
is_half_open half_open = true
is_half_open closed = false
is_half_open open_state = false

unfoldable pub record_success : ℕ → ℕ → ConnectionMetrics → ConnectionMetrics
record_success now duration cm =
    let successes = inc cm.success_requests in
    let total = add64 cm.total_latency duration in
    let counted : ConnectionMetrics = record cm {
      success_requests = successes;
      last_success = now;
      total_latency = total;
      min_latency = if slt duration cm.min_latency then duration else cm.min_latency;
      max_latency = if slt cm.max_latency duration then duration else cm.max_latency;
      avg_latency = if slt 0 successes then quot total successes else cm.avg_latency;
      circuit_successes = inc cm.circuit_successes;
    } in
    if is_half_open counted.circuit_state && sle 5 counted.circuit_successes
    then record counted { circuit_state = closed; circuit_failures = 0; circuit_successes = 0 }
    else counted

-- A missing key of `ErrorCounts` reads as 0.
abbrev pub count_of : Option ℕ → ℕ
count_of none = 0
count_of (some n) = n

abbrev count_error : String → List (String × ℕ) → List (String × ℕ)
count_error k m = insert k (inc (count_of (lookup k m))) m

-- The switch of `RecordFailure`; `since` is the time read by `time.Since(cm.LastFailure)`.
abbrev after_failure : ℕ → CircuitState → ConnectionMetrics → ConnectionMetrics
after_failure since closed cm =
    if sle 5 cm.circuit_failures then record cm { circuit_state = open_state } else cm
after_failure since open_state cm =
    if slt (30 * second) (time_sub since cm.last_failure)
    then record cm { circuit_state = half_open; circuit_failures = 0; circuit_successes = 0 }
    else cm
after_failure since half_open cm = cm

-- `err` is the text of the error, when there is one.
unfoldable pub record_failure : ℕ → ℕ → Option String → ConnectionMetrics → ConnectionMetrics
record_failure now since err cm =
    let error_type : String = elim err [ none ↦ "unknown" | some text ↦ text ] in
    after_failure since cm.circuit_state (record cm {
      failure_requests = inc cm.failure_requests;
      last_failure = now;
      error_counts = count_error error_type cm.error_counts;
      circuit_failures = inc cm.circuit_failures;
    })

abbrev after_timeout : CircuitState → ConnectionMetrics → ConnectionMetrics
after_timeout closed cm =
    if sle 5 cm.circuit_failures then record cm { circuit_state = open_state } else cm
after_timeout open_state cm = cm
after_timeout half_open cm = cm

unfoldable pub record_timeout : ℕ → ConnectionMetrics → ConnectionMetrics
record_timeout now cm = after_timeout cm.circuit_state (record cm {
  timeout_requests = inc cm.timeout_requests;
  last_failure = now;
  error_counts = count_error "timeout" cm.error_counts;
  circuit_failures = inc cm.circuit_failures;
})

unfoldable pub reset : ConnectionMetrics → ConnectionMetrics
unfolding new_connection_metrics
reset cm = new_connection_metrics
