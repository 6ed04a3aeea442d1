-- ===== src/CallBreaker/Recovery.antt =====
-- internal/adapter/observability/circuit_breaker.go: when a call is let through, and how the
-- breaker opens and closes.
use ai_cv_evaluator.Base.{
  ℕ, ◌+◌, ◌≤◌, ◌<◌, ◌≡◌, ◌≢◌, ◌↔◌, ◌⊎◌, Bool, true, false, List, [], ◌∷◌, arith, half, slt, sle,
  time_sub,
}
use ai_cv_evaluator.CallBreaker.{
  state_closed, state_open, state_half_open, CircuitBreaker, new_circuit_breaker, rejected,
  returned_error, call,
}

-- What holds between two calls. The failures stay far from the end of their word.
pub record Inv (cb : CircuitBreaker) : Type 0 where
  pub probes : cb.half_open_max ≡ 3
  pub limit : (0 < cb.max_failures) × (cb.max_failures < half)
  pub counted : cb.failures < half
  pub closed_below : cb.state ≡ state_closed → cb.failures < cb.max_failures
  pub open_reached : cb.state ≢ state_closed → cb.max_failures ≤ cb.failures
  pub probing : cb.state ≡ state_half_open → cb.success_count < 3

pub new-Inv :
    (max_failures timeout : ℕ)
    → 0 < max_failures
    → max_failures < half
    → Inv (new_circuit_breaker max_failures timeout)
unfolding new_circuit_breaker
new-Inv max_failures timeout p q = ground arith

-- As long as fewer than 2^63 - 1 failures have been counted, every call keeps this: the limit is positive
-- and below 2^63 as is the count; three probes are asked for; a closed circuit has counted fewer failures
-- than the limit, and an open or half-open one at least as many; and a half-open circuit has counted
-- fewer than three successes.
pub call-Inv :
    (now : ℕ) (failed : Bool) (later : ℕ) (cb : CircuitBreaker)
    → Inv cb
    → cb.failures + 1 < half
    → Inv (call now failed later cb).1
unfolding call
call-Inv now failed later cb v few = ground arith

-- Within the invariant, a call is rejected exactly when the circuit is open and its timeout has not passed since the
-- last failure; in the half-open state no call is rejected.
pub call_rejects_iff :
    (now : ℕ) (failed : Bool) (later : ℕ) (cb : CircuitBreaker)
    → Inv cb
    → ((call now failed later cb).0 ≡ rejected)
      ↔ ((cb.state ≡ state_open) × (slt (time_sub now cb.last_failure) cb.timeout ≡ true))
unfolding call
call_rejects_iff now failed later cb v = ground arith

-- Within the invariant, and far from overflow, a failure of a call that is let through opens the
-- circuit, unless the circuit was closed and has counted, with this one, fewer failures in a row
-- than the limit; either way the time of the failure is kept.
pub call_opens :
    (now later : ℕ) (cb : CircuitBreaker)
    → Inv cb
    → cb.failures + 1 < half
    → (call now true later cb).0 ≡ returned_error
    → let cb' = (call now true later cb).1 in
      (cb'.last_failure ≡ later)
      × ((cb'.state ≡ state_open)
          ⊎ ((cb.state ≡ state_closed)
              × (cb'.state ≡ state_closed)
              × (cb'.failures ≡ cb.failures + 1)
              × (cb.failures + 1 < cb.max_failures)))
unfolding call
call_opens now later cb v few h = ground arith

-- `n` calls in a row that succeed, with their readings of the clock.
unfoldable pub succeed : List (ℕ × ℕ) → CircuitBreaker → CircuitBreaker
succeed [] cb = cb
succeed ((now, later) ∷ ts) cb = succeed ts (call now false later cb).1

-- A half-open circuit that has seen `k` successes.
record Probed (k : ℕ) (cb : CircuitBreaker) : Type 0 where
  probes : cb.half_open_max ≡ 3
  half_open : cb.state ≡ state_half_open
  seen : cb.success_count ≡ k

first_probe :
    (now later : ℕ) (cb : CircuitBreaker)
    → Inv cb
    → cb.state ≡ state_open
    → sle cb.timeout (time_sub now cb.last_failure) ≡ true
    → Probed 1 (call now false later cb).1
unfolding call
first_probe now later cb v opened passed = ground arith

next_probe :
    (now later : ℕ) (cb : CircuitBreaker) → Probed 1 cb → Probed 2 (call now false later cb).1
unfolding call
next_probe now later cb p = ground arith

last_probe :
    (now later : ℕ) (cb : CircuitBreaker)
    → Probed 2 cb
    → let cb' = (call now false later cb).1 in (cb'.state ≡ state_closed) × (cb'.failures ≡ 0)
unfolding call
last_probe now later cb p = ground arith

-- Within the invariant, once the timeout of an open circuit has passed, three successful calls in a row close it with
-- no failure counted, and two do not.
pub succeed_closes :
    (cb : CircuitBreaker) (n1 l1 n2 l2 n3 l3 : ℕ)
    → Inv cb
    → cb.state ≡ state_open
    → sle cb.timeout (time_sub n1 cb.last_failure) ≡ true
    → ((succeed ((n1, l1) ∷ (n2, l2) ∷ []) cb).state ≡ state_half_open)
      × ((succeed ((n1, l1) ∷ (n2, l2) ∷ (n3, l3) ∷ []) cb).state ≡ state_closed)
      × ((succeed ((n1, l1) ∷ (n2, l2) ∷ (n3, l3) ∷ []) cb).failures ≡ 0)
unfolding succeed
succeed_closes cb n1 l1 n2 l2 n3 l3 v opened passed =
    let one = first_probe n1 l1 cb v opened passed in
    let two = next_probe n2 l2 _ one in
    let (closed, none_left) = last_probe n3 l3 _ two in (two.half_open, closed, none_left)
