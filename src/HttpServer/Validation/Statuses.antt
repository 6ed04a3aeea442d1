-- ===== src/HttpServer/Validation/Statuses.antt =====
-- internal/adapter/httpserver/validation.go: the filter by status against the statuses of a job.
use ai_cv_evaluator.Base.{
  ◌≡◌, refl, ◌⊎◌, inl, inr, true, [], ◌∷◌, arith, Bool-cases, any, Bytes, codes, bytes_eq,
  bytes_eq_iff,
}
use ai_cv_evaluator.Domain.{JobStatus, job_queued, job_processing, job_completed, job_failed}
use ai_cv_evaluator.HttpServer.Validation.{validate_status, valid_statuses}

-- The constants of `JobStatus` in internal/domain/entities.go.
abbrev pub status_text : JobStatus → Bytes
status_text job_queued = codes "queued"
status_text job_processing = codes "processing"
status_text job_completed = codes "completed"
status_text job_failed = codes "failed"

status_of :
    (s : Bytes) → any (bytes_eq s) valid_statuses ≡ true → (st : JobStatus) × (s ≡ status_text st)
status_of s h = elim (Bool-cases (bytes_eq s (codes "queued"))) [
  | inl e ↦ (job_queued, (bytes_eq_iff s (codes "queued")).0 e)
  | inr n1 ↦ elim (Bool-cases (bytes_eq s (codes "processing"))) [
    | inl e ↦ (job_processing, (bytes_eq_iff s (codes "processing")).0 e)
    | inr n2 ↦ elim (Bool-cases (bytes_eq s (codes "completed"))) [
      | inl e ↦ (job_completed, (bytes_eq_iff s (codes "completed")).0 e)
      | inr n3 ↦ (job_failed, (bytes_eq_iff s (codes "failed")).0 (ground arith))
    ]
  ]
]

-- The filter accepts the text of every status, and a text that it accepts is empty or the text of a
-- status.
validate_status-status_text :
    ((st : JobStatus) → (validate_status (status_text st)).valid ≡ true)
    × ((s : Bytes)
        → (validate_status s).valid ≡ true
        → (s ≡ []) ⊎ ((st : JobStatus) × (s ≡ status_text st)))
unfolding validate_status bytes_eq
validate_status-status_text = (texts, converse)
  where
    texts : (st : JobStatus) → (validate_status (status_text st)).valid ≡ true
    texts job_queued = refl
    texts job_processing = refl
    texts job_completed = refl
    texts job_failed = refl

    converse :
        (s : Bytes)
        → (validate_status s).valid ≡ true
        → (s ≡ []) ⊎ ((st : JobStatus) × (s ≡ status_text st))
    converse [] h = inl refl
    converse (c ∷ s) h = inr (status_of (c ∷ s) (ground arith))
