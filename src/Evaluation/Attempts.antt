-- ===== src/Evaluation/Attempts.antt =====
-- internal/adapter/queue/redpanda/evaluation_handler.go: the loop over the attempts.
use ai_cv_evaluator.Base.{◌*◌, ◌≡◌, ◌⊎◌, ◌∷◌, arith, second}
use ai_cv_evaluator.Domain.{ok, EvaluationResult}
use ai_cv_evaluator.Effects.{Env, EvaluationInput, World, evaluate_job, sleep}
use ai_cv_evaluator.Evaluation.{evaluate_attempts}

module _ (env : Env) where
  -- The loop makes three attempts at most, and stops at the first success. The history is that of
  -- the failed attempts, with a sleep of 2 and one of 4 seconds, and of the successful one; the
  -- value is the answer to the last attempt.
  pub evaluate_attempts_lem :
      (input : EvaluationInput) (w : World)
      → let (r, w') = evaluate_attempts env 2 1 input w in
        let h = w.history in
        let h1 = evaluate_job input ∷ h in
        let h2 = evaluate_job input ∷ sleep (2 * second) ∷ h1 in
        let h3 = evaluate_job input ∷ sleep (4 * second) ∷ h2 in
        ((w'.history ≡ h1)
          × (r ≡ env.evaluate_reply h input)
          × ((x : EvaluationResult) × (r ≡ ok x)))
        ⊎ ((w'.history ≡ h2)
            × (r ≡ env.evaluate_reply (sleep (2 * second) ∷ h1) input)
            × ((x : EvaluationResult) × (r ≡ ok x)))
        ⊎ ((w'.history ≡ h3) × (r ≡ env.evaluate_reply (sleep (4 * second) ∷ h2) input))
  unfolding evaluate_attempts
  evaluate_attempts_lem input w = ground arith
