-- ===== src/Failure.antt =====
-- internal/adapter/queue/redpanda/failure_codes.go and `errorCodeFromJobError` of
-- internal/usecase/result.go: the stable code of a job's error message.
pub mod Codes
use ai_cv_evaluator.Base.{
  ◌-◌, ◌/◌, ap, not, ◌||◌, [], if◌then◌else◌, Bytes, codes, to_lower, has_infix, trim_space,
  bytes_eq,
}

pub data FailureCode : Type 0 where
  schema_invalid upstream_rate_limit upstream_timeout not_found : FailureCode
  invalid_argument internal : FailureCode

unfoldable pub normalise : Bytes → Bytes
normalise msg = to_lower (trim_space msg)

unfoldable pub classify_failure_code : Bytes → FailureCode
unfolding normalise bytes_eq
classify_failure_code msg =
    let s = normalise msg in
    if bytes_eq s []
    then internal
    else if has_infix s (codes "schema invalid")
        || has_infix s (codes "invalid json")
        || has_infix s (codes "out of range")
        || has_infix s (codes "empty")
    then schema_invalid
    else if has_infix s (codes "rate limit")
    then upstream_rate_limit
    else if has_infix s (codes "timeout") || has_infix s (codes "deadline exceeded")
    then upstream_timeout
    else if has_infix s (codes "not found")
    then not_found
    else if has_infix s (codes "invalid argument") || has_infix s (codes "ids required")
    then invalid_argument
    else internal

unfoldable pub error_code_from_job_error : Bytes → FailureCode
unfolding normalise
error_code_from_job_error msg =
    let s = normalise msg in
    if has_infix s (codes "schema invalid")
      || has_infix s (codes "invalid json")
      || has_infix s (codes "out of range")
      || has_infix s (codes "empty")
    then schema_invalid
    else if has_infix s (codes "rate limit")
    then upstream_rate_limit
    else if has_infix s (codes "timeout") || has_infix s (codes "deadline exceeded")
    then upstream_timeout
    else if has_infix s (codes "not found")
    then not_found
    else if has_infix s (codes "invalid argument")
    then invalid_argument
    else internal
