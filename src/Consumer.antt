-- ===== src/Consumer.antt =====
-- internal/adapter/queue/redpanda/consumer.go and dlq_consumer.go: what the consumers do with one
-- record. The decoding of JSON is a parameter.
pub mod Records
pub mod Workers
use ai_cv_evaluator.Base.{
  ℕ, ◌-◌, ◌/◌, max, String, ◌≡◌, ap, ◌≢◌, Bool, Option, none, some, List, [], ◌∷◌, map,
  if◌then◌else◌, drop, wrap, dec, Bytes, codes, lookup,
}
use ai_cv_evaluator.Float.{Float64}
use ai_cv_evaluator.Domain.{Error, wrap_error, Result, ok, err, EvaluateTaskPayload}
use ai_cv_evaluator.Retry.{RetryConfig, RetryInfo, retry_none, DlqJob}
use ai_cv_evaluator.Failure.{classify_failure_code}
use ai_cv_evaluator.Effects.{Env, M, ◌>>=◌, ◌>>◌, pure, now}
use ai_cv_evaluator.RetryManager.{is_upstream, retry_job, process_dlq_job}
use ai_cv_evaluator.Evaluation.{handle_evaluate}

-- The retry info that the consumer makes up for a failure; the three times are clock readings.
unfoldable pub fresh_retry_info : Bytes → ℕ → ℕ → ℕ → RetryInfo
fresh_retry_info message attempted created updated = record {
  attempt_count = 0;
  max_attempts = 0;
  last_attempt_at = attempted;
  next_retry_at = 0;
  retry_status = retry_none;
  last_error = message;
  error_history = message ∷ [];
  created_at = created;
  updated_at = updated;
}

module _ (env : Env) (float : Float64) where
  -- The part of `processRecord` after a failed evaluation; the retry manager's own error is logged.
  unfoldable pub route_failure : Option RetryConfig → EvaluateTaskPayload → Error → M (Unit {0})
  route_failure none payload e = pure tt
  route_failure (some config) payload e =
      if is_upstream (classify_failure_code e.message)
      then (do
        attempted ← now env
        created ← now env
        updated ← now env
        retry_job env float config payload.job_id
            (fresh_retry_info e.message attempted created updated) payload
        pure tt)
      else pure tt

  unfoldable pub process_record :
      (Bytes → Result EvaluateTaskPayload) → Option RetryConfig → Bytes → M (Option Error)
  process_record unmarshal retry_manager value = elim (unmarshal value) [
    | err e ↦ pure (some (wrap_error (codes "unmarshal payload: ") e))
    | ok payload ↦ do
      failed ← handle_evaluate env payload
      elim failed [
        | none ↦ pure none
        | some e ↦ do route_failure retry_manager payload e; pure (some e)
      ]
  ]

-- The dynamic types that an `interface{}` may hold here: those of decoded JSON, and `[]byte`.
pub data Dynamic : Type 0 where
  is_nil : Dynamic
  is_bool : Bool → Dynamic
  is_float64 : Bytes → Dynamic
  is_string : String → Dynamic
  is_slice : Dynamic
  is_map : Dynamic
  is_byte_slice : Bytes → Dynamic

-- `dlqMessage["job_id"].(string)` and `dlqMessage["dlq_data"].([]byte)`, on a missing key too.
abbrev pub as_string : Option Dynamic → Option String
as_string (some (is_string s)) = some s
as_string _ = none

abbrev pub as_byte_slice : Option Dynamic → Option Bytes
as_byte_slice (some (is_byte_slice b)) = some b
as_byte_slice _ = none

-- What `json.Unmarshal` does for the two targets of the dead-letter consumer. It stores one of the
-- types bool, float64, string, []interface{}, map[string]interface{} and nil in an interface.
pub record DlqDecoder : Type 0 where
  pub decode_message : Bytes → Result (List (String × Dynamic))
  pub decode_dlq_job : Bytes → Result DlqJob
  pub decode_message_type :
      (value : Bytes) (m : List (String × Dynamic)) (key : String) (b : Bytes)
      → decode_message value ≡ ok m
      → lookup key m ≢ some (is_byte_slice b)

module _ (env : Env) (decoder : DlqDecoder) where
  -- `processDLQRecord`; whatever fails is logged and the record is dropped.
  unfoldable pub process_dlq_record : Bytes → M (Unit {0})
  process_dlq_record value = elim (decoder.decode_message value) [
    | err e ↦ pure tt
    | ok m ↦ elim (as_string (lookup "job_id" m)) [
      | none ↦ pure tt
      | some job_id ↦ elim (as_byte_slice (lookup "dlq_data" m)) [
        | none ↦ pure tt
        | some dlq_data ↦ elim (decoder.decode_dlq_job dlq_data) [
          | err e ↦ pure tt
          | ok job ↦ process_dlq_job env job >> pure tt
        ]
      ]
    ]
  ]
