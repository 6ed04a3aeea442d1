-- ===== src/Metrics/Counting.antt =====
-- internal/observability/metrics.go: what a sequence of requests leaves in the counters.
use ai_cv_evaluator.Base.{
  ℕ, ◌+◌, ◌*◌, ◌≤◌, ◌<◌, String, ◌≡◌, Option, List, [], ◌∷◌, arith, length, half, second,
}
use ai_cv_evaluator.Metrics.{
  open_state, ConnectionMetrics, record_request, record_success, record_failure, record_timeout,
}

-- How a request ended, with the times and the duration that are reported.
pub data Outcome : Type 0 where
  succeeded : ℕ → ℕ → Outcome
  failed : ℕ → ℕ → Option String → Outcome
  timed_out : ℕ → Outcome

unfoldable pub record_outcome : Outcome → ConnectionMetrics → ConnectionMetrics
record_outcome (succeeded now duration) cm = record_success now duration cm
record_outcome (failed now since err) cm = record_failure now since err cm
record_outcome (timed_out now) cm = record_timeout now cm

-- Requests, each started and ended.
unfoldable pub record_all : List ((ℕ × ℕ) × Outcome) → ConnectionMetrics → ConnectionMetrics
record_all [] cm = cm
record_all (((first, last), outcome) ∷ rs) cm =
    record_all rs (record_outcome outcome (record_request first last cm))

-- From counters that add up, every request is counted once in the total and once among the
-- successes, the failures and the timeouts, as long as their number fits the counters.
pub record_all-accounts :
    (rs : List ((ℕ × ℕ) × Outcome)) (cm : ConnectionMetrics)
    → cm.total_requests ≡ cm.success_requests + cm.failure_requests + cm.timeout_requests
    → cm.total_requests + length rs < half
    → ((record_all rs cm).total_requests ≡ cm.total_requests + length rs)
      × ((record_all rs cm).total_requests
          ≡ (record_all rs cm).success_requests
            + (record_all rs cm).failure_requests
            + (record_all rs cm).timeout_requests)
unfolding record_all record_outcome record_request record_success record_failure record_timeout
record_all-accounts [] cm sum small = ground arith
record_all-accounts (((first, last), outcome) ∷ rs) cm sum small =
    let next = record_outcome outcome (record_request first last cm) in
    let step : (next.total_requests ≡ cm.total_requests + 1)
        × (next.total_requests
            ≡ next.success_requests + next.failure_requests + next.timeout_requests) =
      elim outcome [
        | succeeded now duration ↦ ground arith
        | failed now since err ↦ ground arith
        | timed_out now ↦ ground arith
      ] in
    ground (arith, record_all-accounts rs next)

-- The clock moves at most thirty seconds between its two readings in `RecordFailure`.
unfoldable pub IsPrompt : List ((ℕ × ℕ) × Outcome) → Type 0
IsPrompt [] = Unit
IsPrompt ((t, succeeded now duration) ∷ rs) = IsPrompt rs
IsPrompt ((t, failed now since err) ∷ rs) = (since ≤ now + 30 * second) × IsPrompt rs
IsPrompt ((t, timed_out now) ∷ rs) = IsPrompt rs

-- A circuit that is reported open stays open, whatever requests follow and however late, as long as
-- the clock moves at most thirty seconds between the two readings of a failure: a failure sets the
-- time of the last failure before it looks how long ago that was.
pub open-record_all :
    (rs : List ((ℕ × ℕ) × Outcome)) (cm : ConnectionMetrics)
    → IsPrompt rs
    → cm.circuit_state ≡ open_state
    → (record_all rs cm).circuit_state ≡ open_state
unfolding record_all record_outcome record_request record_success record_failure record_timeout
    IsPrompt
open-record_all [] cm prompt opened = opened
open-record_all ((t, succeeded now duration) ∷ rs) cm prompt opened =
    ground
      (arith, open-record_all rs (record_success now duration (record_request t.0 t.1 cm)) prompt)
open-record_all ((t, failed now since err) ∷ rs) cm prompt opened =
    ground (
      arith,
      open-record_all rs (record_failure now since err (record_request t.0 t.1 cm)) prompt.1,
    )
open-record_all ((t, timed_out now) ∷ rs) cm prompt opened =
    ground (arith, open-record_all rs (record_timeout now (record_request t.0 t.1 cm)) prompt)
