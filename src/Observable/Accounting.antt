-- ===== src/Observable/Accounting.antt =====
-- internal/observability/observable_client.go: the calls and the counters of the wrapped client.
use ai_cv_evaluator.Base.{
  ℕ, zero, suc, ◌+◌, ◌≤◌, ◌<◌, String, ◌≡◌, refl, ◌∙◌, ◌⊎◌, inl, inr, Bool, true, false, ◌&&◌,
  Option, none, some, arith, str_eq, ltb, Bool-cases, Option-cases, half, slt,
}
use ai_cv_evaluator.Float.{Float64}
use ai_cv_evaluator.ConnectionBreaker.{can_execute}
use ai_cv_evaluator.Metrics.{
  ConnectionMetrics, record_request, record_success, record_failure, record_timeout,
}
use ai_cv_evaluator.Observable.Client.{
  ObservableClient, Returned, returned_nil, returned_err, Retried, succeeded, at, counted, delays,
  on_returned, execute_with_metrics, retry_from, execute_with_retry,
}

-- The counters of a connection add up, or are one short of the total.
abbrev pub AddsUp : ConnectionMetrics → Type 0
AddsUp m = m.total_requests ≡ m.success_requests + m.failure_requests + m.timeout_requests

abbrev OneShort : ConnectionMetrics → Type 0
OneShort m =
    (m.total_requests ≡ m.success_requests + m.failure_requests + m.timeout_requests + 1)
    × (m.total_requests < half)

record_success-AddsUp :
    (now duration : ℕ) (m : ConnectionMetrics)
    → OneShort m
    → AddsUp (record_success now duration m)
      × ((record_success now duration m).total_requests ≡ m.total_requests)
unfolding record_success
record_success-AddsUp now duration m h = ground arith

record_failure-AddsUp :
    (now since : ℕ) (err : Option String) (m : ConnectionMetrics)
    → OneShort m
    → AddsUp (record_failure now since err m)
      × ((record_failure now since err m).total_requests ≡ m.total_requests)
unfolding record_failure
record_failure-AddsUp now since err m h = ground arith

record_timeout-AddsUp :
    (now : ℕ) (m : ConnectionMetrics)
    → OneShort m
    → AddsUp (record_timeout now m) × ((record_timeout now m).total_requests ≡ m.total_requests)
unfolding record_timeout
record_timeout-AddsUp now m h = ground arith

abbrev pub is_success : Retried → Bool
is_success succeeded = true
is_success _ = false

module _ (float : Float64) (clock : ℕ → ℕ) (operation : ℕ → Returned) where
  -- One execution with its result: the operation was called, or the breaker refused.
  pub record IsExecution (oc : ObservableClient) (r : Option String) (oc' : ObservableClient)
      : Type 0 where
    pub called :
        (oc'.calls ≡ oc.calls + 1) ⊎ ((oc'.calls ≡ oc.calls) × (r ≡ some oc.breaker_open_text))
    pub same_text : oc'.breaker_open_text ≡ oc.breaker_open_text
    pub nil_returned : r ≡ none → (oc'.calls ≡ oc.calls + 1) × (operation oc.calls ≡ returned_nil)
    pub counted_once : oc'.metrics.total_requests ≡ oc.metrics.total_requests + 1
    pub balanced : AddsUp oc'.metrics

  on_returned-IsExecution :
      (old : ObservableClient) (r : Returned) (duration : ℕ) (oc : ObservableClient)
      → operation old.calls ≡ r
      → oc.calls ≡ old.calls + 1
      → oc.breaker_open_text ≡ old.breaker_open_text
      → oc.metrics.total_requests ≡ old.metrics.total_requests + 1
      → OneShort oc.metrics
      → IsExecution old
          (on_returned float clock operation r duration oc).0
          (on_returned float clock operation r duration oc).1
  on_returned-IsExecution old returned_nil duration oc e c t n s =
      let (sum, same) =
        record_success-AddsUp (at float clock operation 0 oc) duration oc.metrics s in
      record {
        called = inl c;
        same_text = t;
        nil_returned = λ y. (c, e);
        counted_once = same ∙ n;
        balanced = sum;
      }
  on_returned-IsExecution old (returned_err text true) duration oc e c t n s =
      let (sum, same) = record_timeout-AddsUp (at float clock operation 0 oc) oc.metrics s in
      record {
        called = inl c;
        same_text = t;
        nil_returned = λ y. ground arith;
        counted_once = same ∙ n;
        balanced = sum;
      }
  on_returned-IsExecution old (returned_err text false) duration oc e c t n s =
      let (sum, same) =
        record_failure-AddsUp (at float clock operation 0 oc) (at float clock operation 1 oc)
          (some text) oc.metrics s in
      record {
        called = inl c;
        same_text = t;
        nil_returned = λ y. ground arith;
        counted_once = same ∙ n;
        balanced = sum;
      }

  -- An execution is counted once, and its counters still add up; the operation is called once, or the
  -- breaker refuses the call; and nil is returned only when the operation returned nil.
  pub execute_with_metrics-IsExecution :
      (oc : ObservableClient)
      → AddsUp oc.metrics
      → oc.metrics.total_requests + 1 < half
      → IsExecution oc
          (execute_with_metrics float clock operation oc).0
          (execute_with_metrics float clock operation oc).1
  unfolding execute_with_metrics record_request
  execute_with_metrics-IsExecution oc sum small =
      let started : ObservableClient = counted float clock operation oc in
      let now : ℕ = at float clock operation 0 started in
      let checked : ObservableClient =
        delays 1
          (record started { circuit_breaker = (can_execute now started.circuit_breaker).1 }) in
      let short : OneShort checked.metrics = ground arith in
      let once : checked.metrics.total_requests ≡ oc.metrics.total_requests + 1 = ground arith in
      elim (Bool-cases (can_execute now started.circuit_breaker).0) [
        | inl e ↦
            rw (e, execute_with_metrics)
              (on_returned-IsExecution oc (operation checked.calls) _
                (delays 2 (record checked { calls = checked.calls + 1 })) refl refl refl once short)
        | inr e ↦
            let (balanced, same) =
              record_failure-AddsUp (at float clock operation 0 checked)
                (at float clock operation 1 checked) (some "circuit breaker open") checked.metrics
                short in
            rw (e, execute_with_metrics)
              (record {
                called = inr (refl, refl);
                same_text = refl;
                nil_returned = λ y. ground arith;
                counted_once = same ∙ once;
                balanced = balanced;
              })
      ]

  -- What a sequence of attempts leaves: at most `n` more calls, counters that add up, and on success a
  -- last call that returned nil.
  pub record IsRetried (n : ℕ) (oc : ObservableClient) (r : Retried) (oc' : ObservableClient)
      : Type 0 where
    pub bounded : oc'.calls ≤ oc.calls + n
    pub balanced : AddsUp oc'.metrics
    pub last_nil :
        (is_success r ≡ false) ⊎ ((k : ℕ) × (oc'.calls ≡ k + 1) × (operation k ≡ returned_nil))

  retry_from-IsRetried :
      (done : ℕ → Bool) (left attempt : ℕ) (last : Option String) (oc : ObservableClient)
      → AddsUp oc.metrics
      → oc.metrics.total_requests + left < half
      → IsRetried left oc
          (retry_from float clock operation done left attempt last oc).0
          (retry_from float clock operation done left attempt last oc).1
  unfolding retry_from
  retry_from-IsRetried done zero attempt last oc sum small = record {
    bounded = omega arith;
    balanced = sum;
    last_nil = inl refl;
  }
  retry_from-IsRetried done (suc left) attempt last oc sum small =
      let run : Option String × ObservableClient = execute_with_metrics float clock operation oc in
      let x : IsExecution oc run.0 run.1 =
        execute_with_metrics-IsExecution oc sum (omega (arith, small)) in
      let calls_le : run.1.calls ≤ oc.calls + 1 = ground (arith, x.called) in
      elim (Bool-cases (ltb 0 attempt && done attempt)) [
        | inl stop ↦
            rw (stop, retry_from)
              (record { bounded = omega arith; balanced = sum; last_nil = inl refl })
        | inr go ↦ elim (Option-cases run.0) [
          | inl nil ↦
              let (c, e) = x.nil_returned nil in
              rw (go, nil, retry_from)
                (record {
                  bounded = omega (arith, calls_le);
                  balanced = x.balanced;
                  last_nil = inr (oc.calls, c, e);
                })
          | inr (text, failed) ↦
              let on : _ =
                retry_from-IsRetried done left (attempt + 1) (some text) run.1 x.balanced
                  (omega (arith, small, x.counted_once)) in
              elim (Bool-cases (str_eq text oc.breaker_open_text)) [
                | inl same ↦
                    rw (go, failed, retry_from)
                      (rw (same) (record {
                        bounded = omega (arith, calls_le);
                        balanced = x.balanced;
                        last_nil = inl refl;
                      }))
                | inr other ↦
                    rw (go, failed, retry_from)
                      (rw (other) (record {
                        bounded = omega (arith, calls_le, on.bounded);
                        balanced = on.balanced;
                        last_nil = on.last_nil;
                      }))
              ]
        ]
      ]

  -- With retries the operation is called at most once more than the number of retries, the counters of
  -- the requests add up afterwards, and a success is that of the last call.
  pub execute_with_retry-IsRetried :
      (done : ℕ → Bool) (max_retries : ℕ) (oc : ObservableClient)
      → max_retries < half
      → AddsUp oc.metrics
      → oc.metrics.total_requests + (max_retries + 1) < half
      → IsRetried
          (max_retries + 1)
          oc
          (execute_with_retry float clock operation done max_retries oc).0
          (execute_with_retry float clock operation done max_retries oc).1
  unfolding execute_with_retry
  execute_with_retry-IsRetried done max_retries oc few sum small =
      let counts : slt max_retries 0 ≡ false = ground arith in
      rw (counts) (retry_from-IsRetried done (max_retries + 1) 0 none oc sum small)
