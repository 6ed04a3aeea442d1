-- ===== src/ConnectionBreaker/Probe.antt =====
-- internal/observability/circuit_breaker.go: opening, probing and closing.
use ai_cv_evaluator.Base.{
  ℕ, suc, ◌+◌, ◌≤◌, ◌<◌, ◌≡◌, ◌↔◌, inl, inr, true, false, List, [], ◌∷◌, arith, ltb, leb,
  if◌then◌else◌, Bool-cases, half, slt, sle, IsNat64, time_sub,
}
use ai_cv_evaluator.Float.{Float64}
use ai_cv_evaluator.ConnectionBreaker.{
  state_closed, state_open, CircuitBreaker, can_execute, record_failure, record_success,
}

-- Work is refused exactly when the circuit is open and its timeout has not passed since the last
-- failure, and a refusal changes nothing.
pub can_execute_iff :
    (now : ℕ) (cb : CircuitBreaker)
    → ((can_execute now cb).0 ≡ false) ↔ (
        (cb.state ≡ state_open)
        × (slt (time_sub now cb.last_failure_time) cb.timeout ≡ true)
        × ((can_execute now cb).1 ≡ cb))
unfolding can_execute
can_execute_iff now cb = ground arith

module _ (float : Float64) where
  open float use {of_int, to_int, mul, literal}

  -- A threshold of at most one scales the number one to zero or one.
  abbrev pub AtMostOne : CircuitBreaker → Type 0
  AtMostOne cb = to_int (mul (of_int 1) (literal cb.threshold_digits cb.threshold_places)) ≤ 1

  -- Once an open circuit lets a probe through, the outcome of the probe decides: a success closes
  -- the circuit with no failure counted, whatever its threshold of at most one, and a failure opens
  -- it again until the timeout has passed anew.
  pub probe_decides :
      (now later after : ℕ) (cb : CircuitBreaker)
      → AtMostOne cb
      → cb.state ≡ state_open
      → (can_execute now cb).0 ≡ true
      → let probing = (can_execute now cb).1 in
        ((record_success float probing).state ≡ state_closed)
        × ((record_success float probing).failure_count ≡ 0)
        × ((record_failure later probing).state ≡ state_open)
        × ((can_execute after (record_failure later probing)).0
            ≡ sle cb.timeout (time_sub after later))
  unfolding can_execute record_success record_failure
  probe_decides now later after cb small opened allowed = ground arith

  -- What is reported to a breaker.
  pub data Report : Type 0 where
    success : Report
    failure : ℕ → Report

  unfoldable pub run : CircuitBreaker → List Report → CircuitBreaker
  run cb [] = cb
  run cb (success ∷ rs) = run (record_success float cb) rs
  run cb (failure now ∷ rs) = run (record_failure now cb) rs

  unfoldable pub failures_in : List Report → ℕ
  failures_in [] = 0
  failures_in (success ∷ rs) = failures_in rs
  failures_in (failure now ∷ rs) = suc (failures_in rs)

  open-run :
      (cb : CircuitBreaker) (rs : List Report)
      → cb.state ≡ state_open
      → (run cb rs).state ≡ state_open
  unfolding run record_success record_failure
  open-run cb [] opened = opened
  open-run cb (success ∷ rs) opened = open-run (record_success float cb) rs (ground arith)
  open-run cb (failure now ∷ rs) opened = open-run (record_failure now cb) rs (ground arith)

  -- A closed circuit whose count is below the threshold opens as soon as the failures since it
  -- closed reach the threshold, whatever successes lie between them, as long as their number fits:
  -- a success in the closed state does not clear the count.
  pub closed-run :
      (cb : CircuitBreaker) (rs : List Report)
      → cb.state ≡ state_closed
      → cb.failure_count < cb.max_failures
      → cb.failure_count + failures_in rs < half
      → IsNat64 cb.max_failures
      → (run cb rs).state ≡ (
          if leb cb.max_failures (cb.failure_count + failures_in rs)
          then state_open
          else state_closed)
  unfolding run failures_in record_success record_failure
  closed-run cb [] closed few small bound = ground arith
  closed-run cb (success ∷ rs) closed few small bound =
      let next = record_success float cb in
      let kept : (next.state ≡ state_closed)
          × (next.failure_count ≡ cb.failure_count)
          × (next.max_failures ≡ cb.max_failures) =
        ground arith in
      ground (arith, closed-run next rs)
  closed-run cb (failure now ∷ rs) closed few small bound =
      elim (Bool-cases (ltb (cb.failure_count + 1) cb.max_failures)) [
        | inl e ↦ ground (arith, closed-run (record_failure now cb) rs)
        | inr e ↦ ground (arith, open-run (record_failure now cb) rs)
      ]
