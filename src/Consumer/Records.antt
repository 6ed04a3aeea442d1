-- ===== src/Consumer/Records.antt =====
-- internal/adapter/queue/redpanda/consumer.go and dlq_consumer.go: which records are retried, and
-- which dead-letter records are processed.
use ai_cv_evaluator.Base.{
  ◌+◌, String, ◌≡◌, refl, inl, inr, Option, none, some, List, arith, if◌then◌else◌, Bytes, lookup,
}
use ai_cv_evaluator.Float.{Float64}
use ai_cv_evaluator.Domain.{Error, ok, Result-cases, EvaluateTaskPayload}
use ai_cv_evaluator.Retry.{RetryConfig}
use ai_cv_evaluator.Failure.{classify_failure_code}
use ai_cv_evaluator.Effects.{Env, World}
use ai_cv_evaluator.RetryManager.{is_upstream, move_to_dlq}
use ai_cv_evaluator.RetryManager.Routing.{retry_job_lem}
use ai_cv_evaluator.Consumer.{
  fresh_retry_info, route_failure, Dynamic, is_byte_slice, as_byte_slice, DlqDecoder,
  process_dlq_record,
}

module _ (env : Env) (float : Float64) where
  -- A failed evaluation whose error is a rate limit or a timeout goes to the dead-letter queue at
  -- once, whatever the retry configuration: the consumer never has a job retried in place. Any
  -- other failure makes no further call.
  pub route_failure_lem :
      (config : RetryConfig) (payload : EvaluateTaskPayload) (e : Error) (w : World)
      → let n = w.readings in
        let info =
          fresh_retry_info e.message (env.clock n) (env.clock (n + 1)) (env.clock (n + 2)) in
        (route_failure env float (some config) payload e w).1 ≡ (
          if is_upstream (classify_failure_code e.message)
          then (move_to_dlq env payload.job_id payload info e.message
              (record w { readings = n + 3 })).1
          else w)
  unfolding route_failure fresh_retry_info
  route_failure_lem config payload e w =
      let n = w.readings in
      let later : World = record w { readings = n + 3 } in
      ground (
        arith,
        retry_job_lem env float config payload.job_id payload
            (fresh_retry_info e.message (env.clock n) (env.clock (n + 1)) (env.clock (n + 2)))
            later,
      )

module _ (env : Env) (decoder : DlqDecoder) where
  byte_slice-none :
      (value : Bytes) (m : List (String × Dynamic)) (key : String)
      → decoder.decode_message value ≡ ok m
      → as_byte_slice (lookup key m) ≡ none
  byte_slice-none value m key e = go (lookup key m) refl
    where
      go : (d : Option Dynamic) → lookup key m ≡ d → as_byte_slice d ≡ none
      go none f = refl
      go (some (is_byte_slice b)) f = absurd (decoder.decode_message_type value m key b e f)
      go (some _) f = refl

  -- No record of the dead-letter topic is processed: the decoded message never holds a byte slice,
  -- so the record is dropped before any call, whatever was written to the topic.
  pub process_dlq_record_drops :
      (value : Bytes) (w : World) → process_dlq_record env decoder value w ≡ (tt, w)
  unfolding process_dlq_record
  process_dlq_record_drops value w = elim (Result-cases (decoder.decode_message value)) [
    | inr (f, e) ↦ rw (e, process_dlq_record)
    | inl (m, e) ↦ ground (arith, e, byte_slice-none value m "dlq_data" e)
  ]
