-- ===== src/Failure/Codes.antt =====
-- internal/adapter/queue/redpanda/failure_codes.go says that its codes mirror those of
-- internal/usecase/result.go: where they agree, and where they do not.
use ai_cv_evaluator.Base.{
  ℕ, ◌≡◌, refl, sym, ◌⊎◌, inl, inr, true, false, [], ◌∷◌, arith, Bool-cases, Bytes, codes,
  has_prefix, has_infix, bytes_eq,
}
use ai_cv_evaluator.Failure.{
  internal, invalid_argument, normalise, classify_failure_code, error_code_from_job_error,
}

infix-nil : (c : ℕ) (p : Bytes) → has_infix [] (c ∷ p) ≡ false
unfolding has_infix has_prefix
infix-nil c p = refl

bytes_eq-nil : (s : Bytes) → bytes_eq s [] ≡ true → s ≡ []
unfolding bytes_eq
bytes_eq-nil [] h = refl
bytes_eq-nil (c ∷ s) h = cc

-- An empty message has the code of an internal error on both sides.
codes-nil : (msg : Bytes) → normalise msg ≡ [] → error_code_from_job_error msg ≡ internal
unfolding error_code_from_job_error
codes-nil msg e = simp (e, infix-nil)

-- The two classifications agree on every message, unless the message names the missing ids and
-- nothing that an earlier case looks for: that is an invalid argument for the metrics, and an
-- internal error for the API.
pub codes_agree_or :
    (msg : Bytes)
    → (classify_failure_code msg ≡ error_code_from_job_error msg)
      ⊎ ((has_infix (normalise msg) (codes "ids required") ≡ true)
          × (classify_failure_code msg ≡ invalid_argument)
          × (error_code_from_job_error msg ≡ internal))
codes_agree_or msg = elim (Bool-cases (bytes_eq (normalise msg) [])) [
  | inl none_left ↦ inl (
      unfold classify_failure_code in
      rw none_left (sym (codes-nil msg (bytes_eq-nil (normalise msg) none_left))))
  | inr some_left ↦ unfold classify_failure_code error_code_from_job_error in ground arith
]
