-- ===== src/CallBreaker/Manager.antt =====
-- internal/adapter/observability/circuit_breaker.go: `CircuitBreakerManager` and the functions on the
-- global one. The map holds pointers, so that a reset through a breaker changes the map's entry.
use ai_cv_evaluator.Base.{
  ℕ, String, ◌≡◌, refl, ◌≢◌, inl, inr, Bool, true, false, not, ◌&&◌, none, some, List, [], ◌∷◌,
  arith, str_eq, eq_iff, Option-cases, lookup, insert, lookup-insert,
}
use ai_cv_evaluator.CallBreaker.{
  State, state_closed, is_open, CircuitBreaker, new_circuit_breaker, reset,
}

abbrev pub Breakers : Type 0
Breakers = List (String × CircuitBreaker)

-- The breaker that is found or created, and the map after the call.
unfoldable pub get_or_create : String → ℕ → ℕ → Breakers → CircuitBreaker × Breakers
get_or_create name max_failures timeout m = elim (lookup name m) [
  | some cb ↦ (cb, m)
  | none ↦ (
    new_circuit_breaker max_failures timeout,
    insert name (new_circuit_breaker max_failures timeout) m,
  )
]

unfoldable pub reset_all : Breakers → Breakers
reset_all [] = []
reset_all ((name, cb) ∷ m) = (name, reset cb) ∷ reset_all m

-- A missing breaker counts as closed, and is told apart.
unfoldable pub get_circuit_breaker_state : String → Breakers → State × Bool
get_circuit_breaker_state name m = elim (lookup name m) [
  | none ↦ (state_closed, false)
  | some cb ↦ (cb.state, true)
]

unfoldable pub is_circuit_breaker_open : String → Breakers → Bool
is_circuit_breaker_open name m = elim (lookup name m) [ none ↦ false | some cb ↦ is_open cb.state ]

unfoldable pub reset_circuit_breaker : String → Breakers → Breakers
reset_circuit_breaker name m = elim (lookup name m) [
  | none ↦ m
  | some cb ↦ insert name (reset cb) m
]

-- Asking for a breaker leaves the breakers that were known, and asking again, with whatever limits, gives
-- the same breaker and changes nothing.
pub get_or_create_again :
    (name other : String) (max_failures timeout max_failures' timeout' : ℕ) (m : Breakers)
    → let (cb, m') = get_or_create name max_failures timeout m in
      (get_or_create name max_failures' timeout' m' ≡ (cb, m'))
      × (lookup other m ≢ none → lookup other m' ≡ lookup other m)
unfolding get_or_create
get_or_create_again name other max_failures timeout max_failures' timeout' m =
    let made = new_circuit_breaker max_failures timeout in
    elim (Option-cases (lookup name m)) [
      | inl e ↦ ground (
        arith,
        e,
        lookup-insert name name made m,
        lookup-insert name other made m,
        eq_iff name name,
        eq_iff name other,
      )
      | inr (cb, e) ↦ ground (arith, e)
    ]

-- After a reset of one breaker it is not open, and every other one is open exactly when it was.
pub is_circuit_breaker_open-reset_circuit_breaker :
    (name other : String) (m : Breakers)
    → is_circuit_breaker_open other (reset_circuit_breaker name m)
      ≡ (not (str_eq name other) && is_circuit_breaker_open other m)
unfolding is_circuit_breaker_open reset_circuit_breaker reset
is_circuit_breaker_open-reset_circuit_breaker name other m = elim (Option-cases (lookup name m)) [
  | inl e ↦ ground (arith, e, eq_iff name other)
  | inr (cb, e) ↦ ground (arith, e, eq_iff name other, lookup-insert name other (reset cb) m)
]

-- After a reset of all, no breaker is open.
pub is_circuit_breaker_open-reset_all :
    (name : String) (m : Breakers) → is_circuit_breaker_open name (reset_all m) ≡ false
unfolding is_circuit_breaker_open reset_all reset lookup
is_circuit_breaker_open-reset_all name [] = refl
is_circuit_breaker_open-reset_all name ((other, cb) ∷ m) =
    ground (arith, is_circuit_breaker_open-reset_all name m)
