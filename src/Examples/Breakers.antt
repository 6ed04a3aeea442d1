-- ===== src/Examples/Breakers.antt =====
-- The theorems on the circuit breakers and the connection metrics at concrete inputs.
use ai_cv_evaluator.Base.{
  ℕ, ◌+◌, ◌≡◌, refl, ◌↔◌, true, false, none, List, [], ◌∷◌, arith, leb, if◌then◌else◌, slt,
  time_sub,
}
use ai_cv_evaluator.Float.{tenths}
use ai_cv_evaluator.ModelBreaker.Trace.{state-run, failed, run, streak, state_of_streak}
use ai_cv_evaluator.ModelBreaker.{new_circuit_breaker}
use ai_cv_evaluator.CallBreaker.{CircuitBreaker, call, state_closed, state_open}
use ai_cv_evaluator.CallBreaker.Recovery.{Inv, call-Inv}
use ai_cv_evaluator.ConnectionBreaker
use ai_cv_evaluator.ConnectionBreaker.Probe
use ai_cv_evaluator.Metrics
use ai_cv_evaluator.Metrics.Counting

state-run_example :
    (run (new_circuit_breaker "m") (failed 1 ∷ failed 2 ∷ failed 3 ∷ [])).state
    ≡ state_of_streak (streak 0 (failed 1 ∷ failed 2 ∷ failed 3 ∷ []))
state-run_example = state-run "m" (failed 1 ∷ failed 2 ∷ failed 3 ∷ [])

-- A breaker that opened at its second failure, at time 5.
abbrev open_breaker : CircuitBreaker
open_breaker = record {
  max_failures = 2;
  timeout = 10;
  state = state_open;
  failures = 2;
  last_failure = 5;
  success_count = 0;
  half_open_max = 3;
}

open_breaker-Inv : Inv open_breaker
open_breaker-Inv = ground arith

abbrev closed_breaker : CircuitBreaker
closed_breaker = record open_breaker { state = state_closed; failures = 1 }

closed_breaker-Inv : Inv closed_breaker
closed_breaker-Inv = ground arith

call-Inv_example : Inv (call 20 true 21 open_breaker).1
call-Inv_example = call-Inv 20 true 21 open_breaker open_breaker-Inv (omega arith)

abbrev open_connection : ConnectionBreaker.CircuitBreaker
open_connection = record {
  max_failures = 2;
  timeout = 10;
  threshold_digits = 5;
  threshold_places = 1;
  state = ConnectionBreaker.state_open;
  failure_count = 2;
  success_count = 0;
  last_failure_time = 5;
  total_requests = 2;
  total_failures = 2;
  total_successes = 0;
  state_changes = 1;
}

abbrev closed_connection : ConnectionBreaker.CircuitBreaker
closed_connection = record open_connection {
  state = ConnectionBreaker.state_closed;
  failure_count = 0;
}

can_execute_iff_example : ((ConnectionBreaker.can_execute 8 open_connection).0 ≡ false) ↔ (
    (ConnectionBreaker.state_open ≡ ConnectionBreaker.state_open)
    × (slt (time_sub 8 5) 10 ≡ true)
    × ((ConnectionBreaker.can_execute 8 open_connection).1 ≡ open_connection))
can_execute_iff_example = Probe.can_execute_iff 8 open_connection

closed-run_example :
    (Probe.run tenths closed_connection
      (Probe.failure 1 ∷ Probe.success ∷ Probe.failure 3 ∷ [])).state
    ≡ (if leb 2
          (0 + Probe.failures_in tenths (Probe.failure 1 ∷ Probe.success ∷ Probe.failure 3 ∷ []))
        then ConnectionBreaker.state_open
        else ConnectionBreaker.state_closed)
unfolding Probe.failures_in
closed-run_example =
    Probe.closed-run tenths closed_connection
      (Probe.failure 1 ∷ Probe.success ∷ Probe.failure 3 ∷ []) refl (omega arith) (omega arith)
      (omega arith)

abbrev requests : List ((ℕ × ℕ) × Counting.Outcome)
requests =
    ((1, 1), Counting.succeeded 2 1)
    ∷ ((3, 3), Counting.failed 4 5 none)
    ∷ ((6, 6), Counting.timed_out 7)
    ∷ []

abbrev fresh : Metrics.ConnectionMetrics
fresh = Metrics.new_connection_metrics

abbrev open_metrics : Metrics.ConnectionMetrics
open_metrics = record {
  total_requests = 5;
  success_requests = 0;
  failure_requests = 5;
  timeout_requests = 0;
  total_latency = 0;
  min_latency = 0;
  max_latency = 0;
  avg_latency = 0;
  error_counts = [];
  first_request = 1;
  last_request = 1;
  last_success = 0;
  last_failure = 1;
  circuit_state = Metrics.open_state;
  circuit_failures = 5;
  circuit_successes = 0;
}

open-record_all_example :
    (Counting.record_all requests open_metrics).circuit_state ≡ Metrics.open_state
unfolding Counting.IsPrompt
open-record_all_example = Counting.open-record_all requests open_metrics (omega arith, tt) refl
