-- ===== src/Examples/Queue.antt =====
-- The theorems on evaluation, retries and the consumers at concrete inputs.
use ai_cv_evaluator.Base.{
  ◌+◌, ◌*◌, ◌/◌, ◌≤◌, ◌<◌, min, String, ◌≡◌, refl, sym, ◌≢◌, ◌⊎◌, true, false, some, List, [], ◌∷◌,
  arith, if◌then◌else◌, second, Bytes, codes, has_infix, lookup,
}
use ai_cv_evaluator.Float.{tenths}
use ai_cv_evaluator.Domain.{ok}
use ai_cv_evaluator.Retry.{
  RetryConfig, default_retry_config, pow, pow_loop, should_retry, calculate_next_retry_delay,
}
use ai_cv_evaluator.Retry.Policy.{wrapped_error_retried}
use ai_cv_evaluator.Retry.Delay.{TenthRounds, grown_delay, delay_bounded}
use ai_cv_evaluator.Failure.{
  classify_failure_code, error_code_from_job_error, normalise, invalid_argument, internal,
}
use ai_cv_evaluator.Failure.Codes.{codes_agree_or}
use ai_cv_evaluator.Effects.{get_job}
use ai_cv_evaluator.RetryManager.{is_upstream, move_to_dlq, schedule, retry_job}
use ai_cv_evaluator.RetryManager.Routing.{retry_job_lem}
use ai_cv_evaluator.Evaluation.{
  evaluate_attempts, handle_evaluate, process_job, load_uploads, run_attempts, store_result,
  is_done,
}
use ai_cv_evaluator.Evaluation.Outcome.{Completed, handle_evaluate-Completed}
use ai_cv_evaluator.Consumer.{DlqDecoder, Dynamic, is_byte_slice, process_dlq_record, is_string}
use ai_cv_evaluator.Consumer.Records.{process_dlq_record_drops}
use ai_cv_evaluator.Examples.Fixtures.{env_up, start, payload, retry_info, dead_job}

handle_evaluate-Completed_example :
    ((is_done (env_up.get_job_reply [] "job-1") ≡ true)
      × ((handle_evaluate env_up payload start).1.history ≡ get_job "job-1" ∷ []))
    ⊎ Completed env_up payload (handle_evaluate env_up payload start).1.history
unfolding handle_evaluate process_job load_uploads run_attempts evaluate_attempts store_result
handle_evaluate-Completed_example = handle_evaluate-Completed env_up payload start refl

retry_job_lem_example :
    retry_job env_up tenths default_retry_config "job-1" retry_info payload start ≡ (
      if is_upstream (classify_failure_code retry_info.last_error)
      then move_to_dlq env_up "job-1" payload retry_info retry_info.last_error start
      else if should_retry retry_info retry_info.last_error default_retry_config
      then schedule env_up tenths default_retry_config "job-1" retry_info payload start
      else move_to_dlq env_up "job-1" payload retry_info (codes "job should not be retried") start)
retry_job_lem_example =
    retry_job_lem env_up tenths default_retry_config "job-1" payload retry_info start

-- A decoder that finds the two keys of a message, the data as a string.
abbrev message : List (String × Dynamic)
message = ("job_id", is_string "job-1") ∷ ("dlq_data", is_string "am9i") ∷ []

message-strings :
    (m : List (String × Dynamic)) (key : String) (b : Bytes)
    → ok message ≡ ok m
    → lookup key m ≢ some (is_byte_slice b)
unfolding lookup
message-strings m key b h = let same : message ≡ m = cc in rw (sym same) (ground arith)

abbrev decoder : DlqDecoder
decoder = record {
  decode_message = λ value. ok message;
  decode_dlq_job = λ bytes. ok dead_job;
  decode_message_type = λ value m key b h. message-strings m key b h;
}

process_dlq_record_drops_example :
    process_dlq_record env_up decoder (codes "{}") start ≡ (tt, start)
process_dlq_record_drops_example = process_dlq_record_drops env_up decoder (codes "{}") start

wrapped_error_retried_example :
    should_retry retry_info (codes "evaluation: invalid argument") default_retry_config ≡ true
wrapped_error_retried_example =
    wrapped_error_retried retry_info b'e' (codes "valuation: invalid argument") refl (omega arith)
      (ground arith)

tenths-TenthRounds : TenthRounds tenths
tenths-TenthRounds = record {
  word = λ x. omega arith;
  tenth = λ d small. omega (arith, small);
  tenth_low = λ d small. omega (arith, small);
}

delay_bounded_example :
    let delay = min (grown_delay tenths retry_info default_retry_config) (30 * second) in
    let plain : RetryConfig = record default_retry_config { jitter = false } in
    let jittered : RetryConfig = record default_retry_config { jitter = true } in
    (calculate_next_retry_delay tenths retry_info plain ≡ delay)
    × (delay + delay / 10 ≤ calculate_next_retry_delay tenths retry_info jittered)
    × (calculate_next_retry_delay tenths retry_info jittered ≤ delay + delay / 10 + 1)
    × ((grown_delay tenths retry_info default_retry_config < 30 * second)
        ⊎ (30 * second < 10)
        ⊎ (30 * second < calculate_next_retry_delay tenths retry_info jittered))
unfolding default_retry_config pow pow_loop
delay_bounded_example =
    delay_bounded tenths retry_info default_retry_config tenths-TenthRounds (omega arith)
      (omega arith)

codes_agree_or_example :
    (classify_failure_code (codes "ids required")
      ≡ error_code_from_job_error (codes "ids required"))
    ⊎ ((has_infix (normalise (codes "ids required")) (codes "ids required") ≡ true)
        × (classify_failure_code (codes "ids required") ≡ invalid_argument)
        × (error_code_from_job_error (codes "ids required") ≡ internal))
codes_agree_or_example = codes_agree_or (codes "ids required")
