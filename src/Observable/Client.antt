-- ===== src/Observable/Client.antt =====
-- internal/observability/observable_client.go: `ObservableClient`. The operation is a parameter: the
-- outcome of its n-th call. The text `circuit breaker open for <endpoint>` depends on the endpoint
-- only, and stands for it. The clock is read through a counter of readings.
use ai_cv_evaluator.Base.{
  ℕ, zero, suc, ◌+◌, ◌*◌, String, Bool, true, false, not, ◌&&◌, Option, none, some, str_eq, ltb,
  if◌then◌else◌, slt, time_sub, second,
}
use ai_cv_evaluator.Float.{Float64}
use ai_cv_evaluator.ConnectionBreaker.{CircuitBreaker, new_circuit_breaker, can_execute}
use ai_cv_evaluator.ConnectionBreaker
use ai_cv_evaluator.Metrics.{
  ConnectionMetrics, new_connection_metrics, record_request, record_timeout,
}
use ai_cv_evaluator.Metrics
use ai_cv_evaluator.Observable.Timeout.{
  TimeoutManager, new_timeout_manager, reset_timeout, note_success, note_failure, note_timeout,
}

pub record ObservableClient : Type 0 where
  pub adaptive_timeout : TimeoutManager
  pub metrics : ConnectionMetrics
  pub circuit_breaker : CircuitBreaker
  pub breaker_open_text : String
  -- How often the clock was read, and how often the operation was called.
  pub readings : ℕ
  pub calls : ℕ

-- What an operation returns: nil, or an error, with whether the deadline has passed.
pub data Returned : Type 0 where
  returned_nil : Returned
  returned_err : String → Bool → Returned

unfoldable pub new_observable_client : String → ℕ → ℕ → ℕ → ObservableClient
new_observable_client breaker_open_text base_timeout min_timeout max_timeout = record {
  adaptive_timeout = new_timeout_manager base_timeout min_timeout max_timeout;
  metrics = new_connection_metrics;
  circuit_breaker = new_circuit_breaker 5 (30 * second) 5 1;
  breaker_open_text = breaker_open_text;
  readings = 0;
  calls = 0;
}

abbrev pub delays : ℕ → ObservableClient → ObservableClient
delays n oc = record oc { readings = oc.readings + n }

pub data Retried : Type 0 where
  succeeded cancelled : Retried
  gave_up : Option String → Retried

module _ (float : Float64) (clock : ℕ → ℕ) (operation : ℕ → Returned) where
  abbrev pub at : ℕ → ObservableClient → ℕ
  at n oc = clock (oc.readings + n)

  abbrev pub counted : ObservableClient → ObservableClient
  counted oc = delays 2 (record oc { metrics = record_request (at 0 oc) (at 1 oc) oc.metrics })

  abbrev pub on_error : String → Bool → ℕ → ObservableClient → ObservableClient
  on_error text true duration oc = delays 3 (record oc {
    metrics = record_timeout (at 0 oc) oc.metrics;
    adaptive_timeout = note_timeout float (at 1 oc) oc.adaptive_timeout;
    circuit_breaker = ConnectionBreaker.record_failure (at 2 oc) oc.circuit_breaker;
  })
  on_error text false duration oc = delays 4 (record oc {
    metrics = Metrics.record_failure (at 0 oc) (at 1 oc) (some text) oc.metrics;
    adaptive_timeout = note_failure float (at 2 oc) oc.adaptive_timeout;
    circuit_breaker = ConnectionBreaker.record_failure (at 3 oc) oc.circuit_breaker;
  })

  abbrev pub on_returned : Returned → ℕ → ObservableClient → Option String × ObservableClient
  on_returned returned_nil duration oc = (
    none,
    delays 2 (record oc {
      metrics = Metrics.record_success (at 0 oc) duration oc.metrics;
      adaptive_timeout = note_success float (at 1 oc) duration oc.adaptive_timeout;
      circuit_breaker = ConnectionBreaker.record_success float oc.circuit_breaker;
    }),
  )
  on_returned (returned_err text deadline) duration oc =
      (some text, on_error text deadline duration oc)

  -- The call of the operation, between two readings of the clock.
  abbrev pub call_operation : ObservableClient → Option String × ObservableClient
  call_operation oc =
      on_returned (operation oc.calls) (time_sub (at 1 oc) (at 0 oc))
        (delays 2 (record oc { calls = oc.calls + 1 }))

  abbrev pub refuse : ObservableClient → Option String × ObservableClient
  refuse oc = (
    some oc.breaker_open_text,
    delays 2 (record oc {
      metrics = Metrics.record_failure (at 0 oc) (at 1 oc) (some "circuit breaker open") oc.metrics;
    }),
  )

  unfoldable pub execute_with_metrics : ObservableClient → Option String × ObservableClient
  execute_with_metrics oc =
      let started = counted oc in
      let (allowed, breaker) = can_execute (at 0 started) started.circuit_breaker in
      let checked = delays 1 (record started { circuit_breaker = breaker }) in
      if not allowed then refuse checked else call_operation checked

  -- The attempts that are left; `attempt` is the number of the next one, and `done n` tells whether
  -- the context is done while the n-th attempt is waited for.
  unfoldable pub retry_from :
      (ℕ → Bool) → ℕ → ℕ → Option String → ObservableClient → Retried × ObservableClient
  retry_from done zero attempt last oc = (gave_up last, oc)
  retry_from done (suc left) attempt last oc =
      let (result, oc') = execute_with_metrics oc in
      if ltb 0 attempt && done attempt then (cancelled, oc) else elim result [
        | none ↦ (succeeded, oc')
        | some e ↦
            let rest = retry_from done left (attempt + 1) (some e) oc' in
            if str_eq e oc.breaker_open_text then (gave_up (some e), oc') else rest
      ]

  unfoldable pub execute_with_retry : (ℕ → Bool) → ℕ → ObservableClient → Retried × ObservableClient
  execute_with_retry done max_retries oc =
      retry_from done (if slt max_retries 0 then 0 else max_retries + 1) 0 none oc

unfoldable pub reset_client : ℕ → ObservableClient → ObservableClient
reset_client now oc = record oc {
  metrics = Metrics.reset oc.metrics;
  adaptive_timeout = reset_timeout now oc.adaptive_timeout;
  circuit_breaker = ConnectionBreaker.reset oc.circuit_breaker;
}
