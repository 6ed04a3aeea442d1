-- ===== src/Consumer/Workers/Range.antt =====
-- internal/adapter/queue/redpanda/consumer.go: the counter of the active workers.
use ai_cv_evaluator.Base.{
  ℕ, zero, suc, ◌+◌, ◌-◌, ◌*◌, ◌≤◌, ◌≡◌, inl, inr, Bool, true, false, ◌&&◌, List, [], ◌∷◌, arith,
  ltb, ◌==◌, if◌then◌else◌, Bool-cases,
}
use ai_cv_evaluator.Consumer.Workers.{
  Pool, add_workers, remove_workers, scale_workers, Action, arrives, scales, takes, finishes, step,
  run, min_int,
}

module _ (lo hi : ℕ) where
  -- The configured numbers, and the counter between them.
  pub record IsInRange (p : Pool) : Type 0 where
    pub same_min : p.min_workers ≡ lo
    pub same_max : p.max_workers ≡ hi
    pub lower : lo ≤ p.active_workers
    pub upper : p.active_workers ≤ hi

  add_workers-IsInRange : (n : ℕ) (p : Pool) → IsInRange p → IsInRange (add_workers n p)
  unfolding add_workers
  add_workers-IsInRange zero p h = h
  add_workers-IsInRange (suc n) p h =
      let more : Pool = record p { active_workers = p.active_workers + 1; idle = p.idle + 1 } in
      elim (Bool-cases (ltb p.active_workers p.max_workers)) [
        | inl e ↦
            rw (e, add_workers)
              (add_workers-IsInRange n more (record {
                same_min = h.same_min;
                same_max = h.same_max;
                lower = ground (arith, h.lower);
                upper = ground (arith, e, h.same_max);
              }))
        | inr e ↦ rw (e, add_workers) (add_workers-IsInRange n p h)
      ]

  remove_workers-IsInRange : (n : ℕ) (p : Pool) → IsInRange p → IsInRange (remove_workers n p)
  unfolding remove_workers
  remove_workers-IsInRange zero p h = h
  remove_workers-IsInRange (suc n) p h =
      let fewer : Pool =
        if ltb 0 p.active_workers then record p { active_workers = p.active_workers - 1 } else p in
      elim (Bool-cases (ltb p.min_workers p.active_workers)) [
        | inl e ↦ elim (Bool-cases (ltb 0 p.active_workers)) [
          | inl y ↦
              rw (e, y, remove_workers)
                (remove_workers-IsInRange n (record p { active_workers = p.active_workers - 1 })
                  (record {
                    same_min = h.same_min;
                    same_max = h.same_max;
                    lower = ground (arith, e, h.same_min);
                    upper = ground (arith, h.upper);
                  }))
          | inr y ↦ rw (e, y, remove_workers) (remove_workers-IsInRange n p h)
        ]
        | inr e ↦ rw (e, remove_workers) (remove_workers-IsInRange n p h)
      ]

  if-IsInRange :
      (b : Bool) (p q : Pool) → IsInRange p → IsInRange q → IsInRange (if b then p else q)
  if-IsInRange true p q h k = h
  if-IsInRange false p q h k = k

  scale_workers-IsInRange : (p : Pool) → IsInRange p → IsInRange (scale_workers p)
  unfolding scale_workers
  scale_workers-IsInRange p h =
      let up : Bool = ltb 0 p.queue_len && ltb p.active_workers p.max_workers in
      let grown : Pool =
        if up then add_workers (min_int p.queue_len (p.max_workers - p.active_workers)) p else p in
      let k : IsInRange grown = if-IsInRange up _ p (add_workers-IsInRange _ p h) h in
      if-IsInRange _ _ grown (remove_workers-IsInRange _ grown k) k

  step-IsInRange : (a : Action) (p : Pool) → IsInRange p → IsInRange (step a p)
  unfolding step
  step-IsInRange arrives p h =
      let handed : Pool = record p { idle = p.idle - 1; busy = p.busy + 1 } in
      let queued : Pool = record p { queue_len = p.queue_len + 1 } in
      let room : Bool = ltb p.queue_len (p.max_workers * 2) in
      if-IsInRange (ltb 0 p.idle && p.queue_len == 0) handed (if room then queued else p)
        (record { same_min = h.same_min; same_max = h.same_max; lower = h.lower; upper = h.upper })
        (if-IsInRange room queued p
          (record {
            same_min = h.same_min;
            same_max = h.same_max;
            lower = h.lower;
            upper = h.upper;
          })
          h)
  step-IsInRange scales p h = scale_workers-IsInRange p h
  step-IsInRange takes p h =
      if-IsInRange _ _ p
        (record { same_min = h.same_min; same_max = h.same_max; lower = h.lower; upper = h.upper })
        h
  step-IsInRange finishes p h =
      if-IsInRange _ _ p
        (if-IsInRange _ _ _
          (record {
            same_min = h.same_min;
            same_max = h.same_max;
            lower = h.lower;
            upper = h.upper;
          })
          (record {
            same_min = h.same_min;
            same_max = h.same_max;
            lower = h.lower;
            upper = h.upper;
          }))
        h

  -- The counter of the active workers stays between the two configured numbers, whatever happens.
  pub run-IsInRange : (as' : List Action) (p : Pool) → IsInRange p → IsInRange (run as' p)
  unfolding run
  run-IsInRange [] p h = h
  run-IsInRange (a ∷ as') p h = run-IsInRange as' (step a p) (step-IsInRange a p h)
