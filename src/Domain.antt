-- ===== src/Domain.antt =====
-- internal/domain/entities.go: the error taxonomy, jobs, results, uploads and the payload of an
-- evaluation task. An `error` is its message with the sentinel that its chain of wrapped errors
-- ends in, if any. Scores are floats, which stay abstract: `Score` is the type of a float's bits.
use ai_cv_evaluator.Base.{
  ℕ, String, ◌≡◌, refl, ◌⊎◌, inl, inr, Bool, true, false, Option, none, ◌++◌, Bytes, codes,
}

pub data Sentinel : Type 0 where
  err_invalid_argument err_not_found err_conflict err_rate_limited : Sentinel
  err_upstream_timeout err_upstream_rate_limit err_schema_invalid err_internal : Sentinel

-- The messages that `errors.New` gives the sentinels.
unfoldable pub sentinel_message : Sentinel → Bytes
sentinel_message err_invalid_argument = codes "invalid argument"
sentinel_message err_not_found = codes "not found"
sentinel_message err_conflict = codes "conflict"
sentinel_message err_rate_limited = codes "rate limited"
sentinel_message err_upstream_timeout = codes "upstream timeout"
sentinel_message err_upstream_rate_limit = codes "upstream rate limit"
sentinel_message err_schema_invalid = codes "schema invalid"
sentinel_message err_internal = codes "internal error"

pub record Error : Type 0 where
  pub cause : Option Sentinel
  pub message : Bytes

-- `fmt.Errorf("text: %w", err)` with `prefix` for the text up to the verb.
abbrev pub wrap_error : Bytes → Error → Error
wrap_error prefix e = record e { message = prefix ++ e.message }

-- `fmt.Errorf` with no error wrapped.
abbrev pub plain_error : Bytes → Error
plain_error m = record { cause = none; message = m }

pub data Result {ℓ} (A : Type ℓ) : Type ℓ where
  ok : A → Result A
  err : Error → Result A

pub data JobStatus : Type 0 where
  job_queued job_processing job_completed job_failed : JobStatus

abbrev pub status_eq : JobStatus → JobStatus → Bool
status_eq job_queued job_queued = true
status_eq job_processing job_processing = true
status_eq job_completed job_completed = true
status_eq job_failed job_failed = true
status_eq _ _ = false

pub record Job : Type 0 where
  pub id : String
  pub status : JobStatus
  pub error : Bytes
  pub created_at : ℕ
  pub updated_at : ℕ
  pub cv_id : String
  pub project_id : String
  pub idem_key : Option String

pub record Upload : Type 0 where
  pub id : String
  pub kind : Bytes
  pub text : Bytes
  pub filename : Bytes
  pub mime : Bytes
  pub size : ℕ
  pub created_at : ℕ

pub record EvaluationResult : Type 0 where
  pub job_id : String
  pub cv_match_rate : ℕ
  pub cv_feedback : Bytes
  pub project_score : ℕ
  pub project_feedback : Bytes
  pub overall_summary : Bytes
  pub created_at : ℕ

pub record EvaluateTaskPayload : Type 0 where
  pub job_id : String
  pub cv_id : String
  pub project_id : String
  pub job_description : Bytes
  pub study_case_brief : Bytes
  pub scoring_rubric : Bytes
  pub request_id : String

pub Result-cases {ℓ} :
    {A : Type ℓ} (r : Result A) → ((a : A) × (r ≡ ok a)) ⊎ ((e : Error) × (r ≡ err e))
Result-cases (ok a) = inl (a, refl)
Result-cases (err e) = inr (e, refl)
