-- ===== src/ModelBreaker/Trace.antt =====
-- internal/adapter/ai/circuit_breaker.go: what holds of a model's breaker after any reports.
use ai_cv_evaluator.Base.{
  ℕ, ◌+◌, ◌*◌, String, ◌≡◌, refl, ◌≢◌, true, List, [], ◌∷◌, ◌++◌, arith, leb, if◌then◌else◌, wrap,
  slt, time_sub, second,
}
use ai_cv_evaluator.ModelBreaker.{
  CircuitState, circuit_closed, circuit_open, circuit_half_open, CircuitBreaker,
  new_circuit_breaker, should_attempt, record_success, record_failure,
}

-- A report of one request, with the time of the report.
pub data Report : Type 0 where
  succeeded failed : ℕ → Report

unfoldable pub apply : CircuitBreaker → Report → CircuitBreaker
apply cb (succeeded now) = record_success now cb
apply cb (failed now) = record_failure now cb

unfoldable pub run : CircuitBreaker → List Report → CircuitBreaker
run cb [] = cb
run cb (r ∷ rs) = run (apply cb r) rs

-- The failures since the last success, when `k` came before.
unfoldable pub streak : ℕ → List Report → ℕ
streak k [] = k
streak k (succeeded now ∷ rs) = streak 0 rs
streak k (failed now ∷ rs) = streak (k + 1) rs

abbrev pub state_of_streak : ℕ → CircuitState
state_of_streak k = if leb 3 k then circuit_open else circuit_closed

-- A breaker that has seen `k` failures since the last success.
pub record HasSeen (k : ℕ) (cb : CircuitBreaker) : Type 0 where
  pub threshold : cb.failure_threshold ≡ 3
  pub timeout : cb.recovery_timeout ≡ 30 * second
  pub count : cb.failure_count ≡ wrap k
  pub reached : cb.state ≡ state_of_streak k

new-HasSeen : (model : String) → HasSeen 0 (new_circuit_breaker model)
unfolding new_circuit_breaker
new-HasSeen model = ground arith

success-HasSeen :
    (k now : ℕ) (cb : CircuitBreaker) → HasSeen k cb → HasSeen 0 (record_success now cb)
unfolding record_success
success-HasSeen k now cb v = ground arith

failure-HasSeen :
    (k now : ℕ) (cb : CircuitBreaker) → HasSeen k cb → HasSeen (k + 1) (record_failure now cb)
unfolding record_failure
failure-HasSeen k now cb v = ground arith

run-HasSeen :
    (k : ℕ) (cb : CircuitBreaker) (rs : List Report)
    → HasSeen k cb
    → HasSeen (streak k rs) (run cb rs)
unfolding run streak apply
run-HasSeen k cb [] v = v
run-HasSeen k cb (succeeded now ∷ rs) v =
    run-HasSeen 0 (record_success now cb) rs (success-HasSeen k now cb v)
run-HasSeen k cb (failed now ∷ rs) v =
    run-HasSeen (k + 1) (record_failure now cb) rs (failure-HasSeen k now cb v)

-- After any reports the breaker of a model is open if the last three reports or more were
-- failures, and closed otherwise.
pub state-run :
    (model : String) (rs : List Report)
    → (run (new_circuit_breaker model) rs).state ≡ state_of_streak (streak 0 rs)
state-run model rs = (run-HasSeen 0 (new_circuit_breaker model) rs (new-HasSeen model)).reached

-- No reports bring the breaker of a model into the half-open state.
pub run-ne-half_open :
    (model : String) (rs : List Report)
    → (run (new_circuit_breaker model) rs).state ≢ circuit_half_open
run-ne-half_open model rs = ground (arith, state-run model rs)

run-append : (cb : CircuitBreaker) (rs ss : List Report) → run cb (rs ++ ss) ≡ run (run cb rs) ss
unfolding run
run-append cb [] ss = refl
run-append cb (r ∷ rs) ss = run-append (apply cb r) rs ss

last_failure-run :
    (cb : CircuitBreaker) (rs : List Report) (t : ℕ)
    → (run cb (rs ++ failed t ∷ [])).last_failure_time ≡ t
unfolding run apply record_failure
last_failure-run cb rs t = rw (run-append cb rs (failed t ∷ []))

-- When the last report is a failure at time `t`, a request is attempted at time `now` if fewer
-- than three failures have come in a row, or if more than 30 seconds have passed since `t`.
pub should_attempt-run :
    (model : String) (rs : List Report) (t now : ℕ)
    → should_attempt now (run (new_circuit_breaker model) (rs ++ failed t ∷ [])) ≡ (
        if leb 3 (streak 0 (rs ++ failed t ∷ [])) then slt (30 * second) (time_sub now t) else true)
unfolding should_attempt
should_attempt-run model rs t now = ground (
  arith,
  run-HasSeen 0 (new_circuit_breaker model) (rs ++ failed t ∷ []) (new-HasSeen model),
  last_failure-run (new_circuit_breaker model) rs t,
)
