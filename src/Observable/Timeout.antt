-- ===== src/Observable/Timeout.antt =====
-- internal/observability/adaptive_timeout.go: `AdaptiveTimeoutManager`. The three factors are literals
-- of `float64`.
use ai_cv_evaluator.Base.{
  ℕ, ◌≤◌, ◌<◌, ◌≡◌, ◌&&◌, List, [], ◌∷◌, arith, if◌then◌else◌, half, inc, slt, sle,
}
use ai_cv_evaluator.Float.{Float64}
use ai_cv_evaluator.Metrics.{quot}

pub record TimeoutManager : Type 0 where
  pub base_timeout : ℕ
  pub min_timeout : ℕ
  pub max_timeout : ℕ
  pub success_count : ℕ
  pub failure_count : ℕ
  pub timeout_count : ℕ
  pub current_timeout : ℕ
  pub last_update : ℕ

unfoldable pub new_timeout_manager : ℕ → ℕ → ℕ → TimeoutManager
new_timeout_manager base_timeout min_timeout max_timeout = record {
  base_timeout = base_timeout;
  min_timeout = min_timeout;
  max_timeout = max_timeout;
  success_count = 0;
  failure_count = 0;
  timeout_count = 0;
  current_timeout = base_timeout;
  last_update = 0;
}

unfoldable pub reset_timeout : ℕ → TimeoutManager → TimeoutManager
reset_timeout now atm = record atm {
  current_timeout = atm.base_timeout;
  success_count = 0;
  failure_count = 0;
  timeout_count = 0;
  last_update = now;
}

pub data Note : Type 0 where
  success : ℕ → ℕ → Note
  failure timeout : ℕ → Note

-- The configured bounds, and the current time-out between them.
pub record IsWithin (lo hi : ℕ) (atm : TimeoutManager) : Type 0 where
  pub same_min : atm.min_timeout ≡ lo
  pub same_max : atm.max_timeout ≡ hi
  pub lower : lo ≤ atm.current_timeout
  pub upper : atm.current_timeout ≤ hi

module _ (float : Float64) where
  open float use {of_int, to_int, mul, literal}

  -- `time.Duration(float64(t) * factor)`, the factor in hundredths.
  unfoldable pub scaled : ℕ → ℕ → ℕ
  scaled hundredths t = to_int (mul (of_int t) (literal hundredths 2))

  unfoldable pub note_success : ℕ → ℕ → TimeoutManager → TimeoutManager
  note_success now duration atm =
      let new_timeout = scaled 95 atm.current_timeout in
      let counted : TimeoutManager = record atm {
        success_count = inc atm.success_count;
        last_update = now;
      } in
      if slt duration (quot atm.current_timeout 2) && sle atm.min_timeout new_timeout
      then record counted { current_timeout = new_timeout }
      else counted

  abbrev raise_timeout : ℕ → TimeoutManager → TimeoutManager
  raise_timeout new_timeout atm =
      if sle new_timeout atm.max_timeout then record atm { current_timeout = new_timeout } else atm

  unfoldable pub note_failure : ℕ → TimeoutManager → TimeoutManager
  note_failure now atm =
      raise_timeout (scaled 105 atm.current_timeout)
        (record atm { failure_count = inc atm.failure_count; last_update = now })

  unfoldable pub note_timeout : ℕ → TimeoutManager → TimeoutManager
  note_timeout now atm =
      raise_timeout (scaled 110 atm.current_timeout)
        (record atm { timeout_count = inc atm.timeout_count; last_update = now })

  unfoldable pub note_all : List Note → TimeoutManager → TimeoutManager
  note_all [] atm = atm
  note_all (success now duration ∷ ns) atm = note_all ns (note_success now duration atm)
  note_all (failure now ∷ ns) atm = note_all ns (note_failure now atm)
  note_all (timeout now ∷ ns) atm = note_all ns (note_timeout now atm)

  module _ (lo hi : ℕ) (small : hi < half) (shrinks : (t : ℕ) → t ≤ hi → scaled 95 t ≤ t)
      (grows : (t : ℕ) → t ≤ hi → (t ≤ scaled 105 t) × (scaled 105 t < half))
      (grows_more : (t : ℕ) → t ≤ hi → (t ≤ scaled 110 t) × (scaled 110 t < half)) where
    note_success-IsWithin :
        (now duration : ℕ) (atm : TimeoutManager)
        → IsWithin lo hi atm
        → IsWithin lo hi (note_success now duration atm)
    unfolding note_success
    note_success-IsWithin now duration atm h = ground (arith, shrinks atm.current_timeout h.upper)

    note_failure-IsWithin :
        (now : ℕ) (atm : TimeoutManager)
        → IsWithin lo hi atm
        → IsWithin lo hi (note_failure now atm)
    unfolding note_failure
    note_failure-IsWithin now atm h = ground (arith, grows atm.current_timeout h.upper)

    note_timeout-IsWithin :
        (now : ℕ) (atm : TimeoutManager)
        → IsWithin lo hi atm
        → IsWithin lo hi (note_timeout now atm)
    unfolding note_timeout
    note_timeout-IsWithin now atm h = ground (arith, grows_more atm.current_timeout h.upper)

    -- When the rounded product with 0.95 is no greater and those with 1.05 and 1.10 are no smaller than
    -- the time-out, a time-out between the configured bounds stays between them, whatever is recorded.
    pub note_all-IsWithin :
        (ns : List Note) (atm : TimeoutManager)
        → IsWithin lo hi atm
        → IsWithin lo hi (note_all ns atm)
    unfolding note_all
    note_all-IsWithin [] atm h = h
    note_all-IsWithin (success now duration ∷ ns) atm h =
        note_all-IsWithin ns (note_success now duration atm)
          (note_success-IsWithin now duration atm h)
    note_all-IsWithin (failure now ∷ ns) atm h =
        note_all-IsWithin ns (note_failure now atm) (note_failure-IsWithin now atm h)
    note_all-IsWithin (timeout now ∷ ns) atm h =
        note_all-IsWithin ns (note_timeout now atm) (note_timeout-IsWithin now atm h)
