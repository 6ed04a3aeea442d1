-- ===== src/RetryManager/Routing.antt =====
-- internal/adapter/queue/redpanda/retry_manager.go: where a failed job goes.
use ai_cv_evaluator.Base.{
  ℕ, ◌+◌, ◌-◌, min, String, ◌≡◌, inl, inr, true, none, some, ◌∷◌, arith, ltb, if◌then◌else◌, half,
  inc, time_sub-pos, time_add, Bytes, codes,
}
use ai_cv_evaluator.Float.{Float64}
use ai_cv_evaluator.Domain.{ok, Result-cases, job_queued, job_failed, EvaluateTaskPayload}
use ai_cv_evaluator.Retry.{
  RetryConfig, RetryInfo, DlqJob, dlq, retrying, should_retry, calculate_next_retry_delay,
  mark_as_dlq,
}
use ai_cv_evaluator.Retry.Policy.{should_retry_iff}
use ai_cv_evaluator.Failure.{classify_failure_code}
use ai_cv_evaluator.Effects.{
  Env, World, History, update_status, enqueue_dlq, start_schedule_retry, start_requeue,
}
use ai_cv_evaluator.RetryManager.{
  is_upstream, move_to_dlq, schedule, retry_job, process_dlq_job, requeue_from_dlq,
  is_rate_limit_or_timeout, cooldown,
}

-- The calls of a job that went to the dead-letter queue, newest first.
abbrev pub dlq_calls : String → Bytes → Bytes → History → History
dlq_calls job_id reason data_sent h =
    update_status job_id job_failed (some reason) ∷ enqueue_dlq job_id data_sent ∷ h

-- What is sent for a job that is given up at the n-th reading of the clock.
abbrev pub dlq_job_at : ℕ → String → EvaluateTaskPayload → RetryInfo → Bytes → DlqJob
dlq_job_at moved_at job_id payload ri reason = record {
  job_id = job_id;
  original_payload = payload;
  retry_info = ri;
  failure_reason = reason;
  moved_to_dlq_at = moved_at;
  can_be_reprocessed = true;
}

module _ (env : Env) where
  -- The job was sent to the dead-letter queue as it was before the call, may be reprocessed, and
  -- was then marked failed with the same reason.
  abbrev pub WentToDlq :
      String → EvaluateTaskPayload → RetryInfo → Bytes → World → RetryInfo → World → Type 0
  WentToDlq job_id payload ri reason w ri' w' =
      (sent : Bytes) × (env.marshal_dlq_job
          (dlq_job_at (env.clock w.readings) job_id payload ri reason)
        ≡ ok sent)
      × (w'.history ≡ dlq_calls job_id reason sent w.history)
      × (ri'.retry_status ≡ dlq)

  pub move_to_dlq-handled :
      (job_id : String) (payload : EvaluateTaskPayload) (ri : RetryInfo) (reason : Bytes)
      (w : World)
      → let ((e, ri'), w') = move_to_dlq env job_id payload ri reason w in
        e ≡ none → WentToDlq job_id payload ri reason w ri' w'
  unfolding move_to_dlq mark_as_dlq
  move_to_dlq-handled job_id payload ri reason w h =
      elim (Result-cases
        (env.marshal_dlq_job (dlq_job_at (env.clock w.readings) job_id payload ri reason))) [
          | inl (sent, e) ↦ (sent, e, ground arith, ground arith)
          | inr (f, e) ↦ ground arith
        ]

  module _ (float : Float64) (config : RetryConfig) where
    -- The job was set back to queued and a goroutine was started that enqueues it after the delay;
    -- one more attempt is counted.
    abbrev pub WasScheduled :
        String → EvaluateTaskPayload → RetryInfo → World → RetryInfo → World → Type 0
    WasScheduled job_id payload ri w ri' w' =
        (w'.history
          ≡ start_schedule_retry job_id payload ri'
            ∷ update_status job_id job_queued none
            ∷ w.history)
        × (ri'.retry_status ≡ retrying)
        × (ri'.attempt_count ≡ inc ri.attempt_count)
        × (ri'.next_retry_at
            ≡ time_add (env.clock w.readings) (calculate_next_retry_delay float ri config))

    -- The third test of `RetryJob` never passes: a job that is to be retried has attempts left.
    -- So a job goes to the dead-letter queue for its upstream error, or as one that should not be
    -- retried, and every other is scheduled.
    pub retry_job_lem :
        (job_id : String) (payload : EvaluateTaskPayload) (ri : RetryInfo) (w : World)
        → retry_job env float config job_id ri payload w ≡ (
            if is_upstream (classify_failure_code ri.last_error)
            then move_to_dlq env job_id payload ri ri.last_error w
            else if should_retry ri ri.last_error config
            then schedule env float config job_id ri payload w
            else move_to_dlq env job_id payload ri (codes "job should not be retried") w)
    unfolding retry_job
    retry_job_lem job_id payload ri w = ground (arith, (should_retry_iff ri ri.last_error config).0)

  -- A reprocessable job of the dead-letter queue that names a rate limit or a timeout is enqueued
  -- again at once if 30 seconds have passed since it was moved there. Before that, the only call
  -- is to start a goroutine that enqueues it after the rest of the 30 seconds.
  pub process_dlq_job_cooling :
      (job : DlqJob) (w : World)
      → job.can_be_reprocessed ≡ true
      → is_rate_limit_or_timeout job ≡ true
      → let reading = env.clock w.readings in
        let until = job.moved_to_dlq_at + cooldown in
        let w' : World = record w { readings = w.readings + 1 } in
        process_dlq_job env job w ≡ (
          if ltb reading until
          then (
            none,
            record w' {
              history = start_requeue job (min (until - reading) (half - 1)) ∷ w.history;
            },
          )
          else requeue_from_dlq env job w')
  unfolding process_dlq_job
  process_dlq_job_cooling job w can limited =
      ground (arith, time_sub-pos (job.moved_to_dlq_at + cooldown) (env.clock w.readings))
