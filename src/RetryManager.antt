-- ===== src/RetryManager.antt =====
-- internal/adapter/queue/redpanda/retry_manager.go: the automatic retries and the dead-letter
-- queue. A method returns its error, if any; `*RetryInfo` is passed back where the caller sees it.
pub mod Routing
use ai_cv_evaluator.Base.{
  ℕ, ◌+◌, ◌-◌, ◌*◌, ◌/◌, max, String, ap, Bool, true, false, not, ◌||◌, Option, none, some, ◌∷◌,
  ◌++◌, if◌then◌else◌, any, all, wrap, slt, sle, time_sub, time_add, second, Bytes, codes, to_lower,
  has_infix,
}
use ai_cv_evaluator.Float.{Float64}
use ai_cv_evaluator.Domain.{
  Error, wrap_error, plain_error, Result, ok, err, JobStatus, job_queued, job_failed, status_eq,
  EvaluateTaskPayload,
}
use ai_cv_evaluator.Retry.{
  RetryConfig, RetryInfo, DlqJob, should_retry, calculate_next_retry_delay, mark_as_dlq,
  mark_as_retrying, mark_as_exhausted, update_retry_attempt,
}
use ai_cv_evaluator.Failure.{
  FailureCode, upstream_rate_limit, upstream_timeout, schema_invalid, not_found, invalid_argument,
  internal, classify_failure_code,
}
use ai_cv_evaluator.Effects.{
  Env, World, M, ◌>>=◌, ◌>>◌, pure, note, now, do_update_status, do_get_job, do_enqueue_evaluate,
  do_enqueue_dlq, sleep, start_schedule_retry, start_requeue,
}

-- The codes that are sent to the dead-letter queue at once.
abbrev pub is_upstream : FailureCode → Bool
is_upstream upstream_rate_limit = true
is_upstream upstream_timeout = true
is_upstream schema_invalid = false
is_upstream not_found = false
is_upstream invalid_argument = false
is_upstream internal = false

abbrev pub cooldown : ℕ
cooldown = 30 * second

-- The test of `ProcessDLQJob` on the reason and the last error.
unfoldable pub is_rate_limit_or_timeout : DlqJob → Bool
is_rate_limit_or_timeout job =
    let combined = to_lower job.failure_reason ++ 32 ∷ to_lower job.retry_info.last_error in
    has_infix combined (codes "rate limit")
    || has_infix combined (codes "timeout")
    || has_infix combined (codes "deadline exceeded")

module _ (env : Env) where
  -- After the DLQ message is sent, a failure to update the status is only logged.
  unfoldable pub send_to_dlq : String → Bytes → Bytes → M (Option Error)
  send_to_dlq job_id reason dlq_data = do
    sent ← do_enqueue_dlq env job_id dlq_data
    elim sent [
      | some e ↦ pure (some (wrap_error (codes "enqueue to DLQ: ") e))
      | none ↦ do do_update_status env job_id job_failed (some reason); pure none
    ]

  unfoldable pub move_to_dlq :
      String → EvaluateTaskPayload → RetryInfo → Bytes → M (Option Error × RetryInfo)
  unfolding send_to_dlq
  move_to_dlq job_id payload retry_info reason = do
    moved_at ← now env
    let dlq_job : DlqJob = record {
      job_id = job_id;
      original_payload = payload;
      retry_info = retry_info;
      failure_reason = reason;
      moved_to_dlq_at = moved_at;
      can_be_reprocessed = true;
    }
    marked_at ← now env
    let retry_info' = mark_as_dlq marked_at retry_info
    elim (env.marshal_dlq_job dlq_job) [
      | err e ↦ pure (some (wrap_error (codes "marshal DLQ job: ") e), retry_info')
      | ok dlq_data ↦ do failed ← send_to_dlq job_id reason dlq_data; pure (failed, retry_info')
    ]

  unfoldable pub requeue_from_dlq : DlqJob → M (Option Error)
  requeue_from_dlq job = do
    updated ← do_update_status env job.job_id job_queued none
    elim updated [
      | some e ↦ pure (some (wrap_error (codes "update job status for DLQ reprocessing: ") e))
      | none ↦ do
        sent ← do_enqueue_evaluate env job.original_payload
        elim sent [
          | err e ↦ pure (some (wrap_error (codes "enqueue DLQ job for reprocessing: ") e))
          | ok task ↦ pure none
        ]
    ]

  unfoldable pub process_dlq_job : DlqJob → M (Option Error)
  process_dlq_job job =
      if not job.can_be_reprocessed
      then pure (some (plain_error (codes "DLQ job cannot be reprocessed")))
      else if is_rate_limit_or_timeout job
      then (do
        read ← now env
        let delay = time_sub (time_add job.moved_to_dlq_at cooldown) read
        if slt 0 delay then note (start_requeue job delay) >> pure none else requeue_from_dlq job)
      else requeue_from_dlq job

  -- The goroutine that `ProcessDLQJob` starts: its error is only logged.
  unfoldable pub requeue_after : DlqJob → ℕ → M (Unit {0})
  unfolding requeue_from_dlq
  requeue_after job delay = do note (sleep delay); requeue_from_dlq job; pure tt

  module _ (float : Float64) (config : RetryConfig) where
    -- The last part of `RetryJob`, from the computation of the delay on.
    unfoldable pub schedule :
        String → RetryInfo → EvaluateTaskPayload → M (Option Error × RetryInfo)
    schedule job_id retry_info payload = do
      started ← now env
      let next = time_add started (calculate_next_retry_delay float retry_info config)
      marked ← now env
      let waiting = mark_as_retrying marked (record retry_info { next_retry_at = next })
      first ← now env
      second_reading ← now env
      let counted = update_retry_attempt first second_reading none waiting
      updated ← do_update_status env job_id job_queued none
      elim updated [
        | some e ↦ pure (some (wrap_error (codes "update job status for retry: ") e), counted)
        | none ↦ do note (start_schedule_retry job_id payload counted); pure (none, counted)
      ]

    unfoldable pub retry_job :
        String → RetryInfo → EvaluateTaskPayload → M (Option Error × RetryInfo)
    unfolding schedule move_to_dlq
    retry_job job_id retry_info payload =
        if is_upstream (classify_failure_code retry_info.last_error)
        then move_to_dlq job_id payload retry_info retry_info.last_error
        else if not (should_retry retry_info retry_info.last_error config)
        then move_to_dlq job_id payload retry_info (codes "job should not be retried")
        else if sle config.max_retries retry_info.attempt_count
        then move_to_dlq job_id payload retry_info (codes "max retries reached")
        else schedule job_id retry_info payload

    -- The goroutine that `RetryJob` starts.
    unfoldable pub schedule_retry : String → EvaluateTaskPayload → RetryInfo → M RetryInfo
    schedule_retry job_id payload retry_info = do
      note (sleep (calculate_next_retry_delay float retry_info config))
      found ← do_get_job env job_id
      elim found [
        | err e ↦ pure retry_info
        | ok job ↦ if not (status_eq job.status job_queued) then pure retry_info else (do
          sent ← do_enqueue_evaluate env payload
          elim sent [
            | ok task ↦ pure retry_info
            | err e ↦ do
              marked ← now env
              do_update_status env job_id job_failed (some (codes "failed to enqueue for retry"))
              pure (mark_as_exhausted marked retry_info)
          ])
      ]
