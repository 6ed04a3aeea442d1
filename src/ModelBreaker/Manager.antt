-- ===== src/ModelBreaker/Manager.antt =====
-- internal/adapter/ai/circuit_breaker.go: `CircuitBreakerManager`, the breakers by model. The map
-- holds pointers, so that a report through a breaker changes the map's entry.
use ai_cv_evaluator.Base.{
  String, ◌≡◌, ◌≢◌, inl, inr, Bool, true, false, not, none, some, List, [], ◌∷◌, arith, str_eq,
  eq_iff, if◌then◌else◌, Option-cases, lookup, insert, lookup-insert,
}
use ai_cv_evaluator.ModelBreaker.{
  CircuitState, circuit_closed, circuit_open, circuit_half_open, CircuitBreaker,
  new_circuit_breaker,
}
use ai_cv_evaluator.ModelBreaker.Trace.{Report, apply}

abbrev pub Breakers : Type 0
Breakers = List (String × CircuitBreaker)

-- The breaker that `GetBreaker` finds or creates, and the map after the call.
unfoldable pub get_breaker : String → Breakers → CircuitBreaker × Breakers
get_breaker model m = elim (lookup model m) [
  | some cb ↦ (cb, m)
  | none ↦ (new_circuit_breaker model, insert model (new_circuit_breaker model) m)
]

-- `GetBreaker(model).RecordSuccess()` or `.RecordFailure()`.
unfoldable pub report : String → Report → Breakers → Breakers
unfolding get_breaker
report model r m = let (cb, m') = get_breaker model m in insert model (apply cb r) m'

abbrev is_open : CircuitState → Bool
is_open circuit_open = true
is_open circuit_closed = false
is_open circuit_half_open = false

unfoldable pub get_healthy_models : Breakers → List String
get_healthy_models [] = []
get_healthy_models ((model, cb) ∷ m) =
    if not (is_open cb.state) then model ∷ get_healthy_models m else get_healthy_models m

-- Asking for a model's breaker leaves the breakers of all the models that were known, and asking
-- again gives the same breaker and changes nothing.
pub get_breaker_again :
    (model other : String) (m : Breakers)
    → let (cb, m') = get_breaker model m in
      (get_breaker model m' ≡ (cb, m')) × (lookup other m ≢ none → lookup other m' ≡ lookup other m)
unfolding get_breaker
get_breaker_again model other m = elim (Option-cases (lookup model m)) [
  | inl e ↦ ground (
    arith,
    e,
    lookup-insert model model (new_circuit_breaker model) m,
    lookup-insert model other (new_circuit_breaker model) m,
    eq_iff model model,
    eq_iff model other,
  )
  | inr (cb, e) ↦ ground (arith, e)
]

-- A report about one model advances that model's breaker and no other.
pub lookup-report :
    (model other : String) (r : Report) (m : Breakers)
    → lookup other (report model r m)
      ≡ (if str_eq model other then some (apply (get_breaker model m).0 r) else lookup other m)
unfolding report
lookup-report model other r m = elim (Option-cases (lookup model m)) [
  | inl e ↦ ground (
    arith,
    lookup-insert model other (apply (new_circuit_breaker model) r)
        (insert model (new_circuit_breaker model) m),
    lookup-insert model other (new_circuit_breaker model) m,
  )
  | inr (cb, e) ↦ ground (arith, lookup-insert model other (apply cb r) m)
]
