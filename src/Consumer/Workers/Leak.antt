-- ===== src/Consumer/Workers/Leak.antt =====
-- internal/adapter/queue/redpanda/consumer.go: a pool whose workers have all left, while the counter
-- stands at its maximum.
use ai_cv_evaluator.Base.{◌≤◌, ◌≡◌, sym, List, [], ◌∷◌, arith}
use ai_cv_evaluator.Consumer.Workers.{
  Pool, scale_workers, Action, arrives, scales, takes, finishes, step, run,
}
use mathlib.Core.Path.{subst}

-- A queue with as many records as the counter says there are workers, which is the greatest number,
-- while no worker is left.
pub record IsStuck (p : Pool) : Type 0 where
  pub none_idle : p.idle ≡ 0
  pub none_busy : p.busy ≡ 0
  pub full : p.active_workers ≡ p.max_workers
  pub waiting : p.max_workers ≤ p.queue_len

scale_workers-IsStuck : (p : Pool) → IsStuck p → scale_workers p ≡ p
unfolding scale_workers
scale_workers-IsStuck p h = ground (arith, h.full, h.waiting)

takes-idle : (p : Pool) → p.idle ≡ 0 → step takes p ≡ p
unfolding step
takes-idle p e = ground arith

finishes-busy : (p : Pool) → p.busy ≡ 0 → step finishes p ≡ p
unfolding step
finishes-busy p e = ground arith

step-IsStuck : (a : Action) (p : Pool) → IsStuck p → IsStuck (step a p)
unfolding step
step-IsStuck arrives p h = record {
  none_idle = ground (arith, h.none_idle);
  none_busy = ground (arith, h.none_idle, h.none_busy);
  full = ground (arith, h.none_idle, h.full);
  waiting = ground (arith, h.none_idle, h.waiting);
}
step-IsStuck scales p h = subst IsStuck (sym (scale_workers-IsStuck p h)) h
step-IsStuck takes p h = subst IsStuck (sym (takes-idle p h.none_idle)) h
step-IsStuck finishes p h = subst IsStuck (sym (finishes-busy p h.none_busy)) h

-- From a pool in which no worker is idle and none is busy, while the counter says that there is the
-- greatest number of workers and as many records as that wait in the queue at least, every sequence of
-- actions leads to such a pool again: no record leaves the queue and no worker is started.
pub run-IsStuck : (as' : List Action) (p : Pool) → IsStuck p → IsStuck (run as' p)
unfolding run
run-IsStuck [] p h = h
run-IsStuck (a ∷ as') p h = run-IsStuck as' (step a p) (step-IsStuck a p h)
