-- ===== src/HttpServer/Validation/Sanitizing.antt =====
-- internal/adapter/httpserver/validation.go: the cleaned texts against the checks.
use ai_cv_evaluator.Base.{
  ℕ, ◌-◌, ◌≡◌, refl, sym, ◌∙◌, Bool, true, false, ◌&&◌, Option, none, some, [], ◌∷◌, arith, ltb,
  leb, ◌==◌, length, any, all, keep, length-append, all-keep, keep-all, length-keep-pos,
  length-at_most, all-at_most, at_most-all, half, sle, Bytes,
}
use ai_cv_evaluator.HttpServer.Validation.{
  is_id_byte, validate_job_id, sanitize_job_id, page_errors, limit_errors, validate_pagination,
}

-- The job ids that the check accepts, apart from the code.
unfoldable pub is_job_id : Bytes → Bool
is_job_id s = ltb 0 (length s) && leb (length s) 100 && all is_id_byte s

validate_job_id-valid : (s : Bytes) → (validate_job_id s).valid ≡ is_job_id s
unfolding validate_job_id is_job_id
validate_job_id-valid s = ground arith

sanitize_job_id-is_job_id :
    (s : Bytes) → any is_id_byte s ≡ true → is_job_id (sanitize_job_id s) ≡ true
unfolding sanitize_job_id is_job_id
sanitize_job_id-is_job_id s h =
    let kept : Bytes = keep is_id_byte s in
    ground (
      arith,
      length-at_most 100 kept,
      length-keep-pos is_id_byte s h,
      all-at_most is_id_byte 100 kept (all-keep is_id_byte s),
    )

is_job_id-sanitize : (s : Bytes) → is_job_id s ≡ true → sanitize_job_id s ≡ s
unfolding sanitize_job_id is_job_id
is_job_id-sanitize s h =
    rw (keep-all is_id_byte s (ground arith)) (at_most-all 100 s (ground arith))

-- A valid job id is left as it is, and a text with an allowed character gives a valid job id.
pub sanitize_job_id-valid :
    (s : Bytes)
    → ((validate_job_id s).valid ≡ true → sanitize_job_id s ≡ s)
      × (any is_id_byte s ≡ true → (validate_job_id (sanitize_job_id s)).valid ≡ true)
sanitize_job_id-valid s = (
  λ e. is_job_id-sanitize s (sym (validate_job_id-valid s) ∙ e),
  λ h. validate_job_id-valid (sanitize_job_id s) ∙ sanitize_job_id-is_job_id s h,
)

-- The value of a parameter of the pagination that the check is meant to accept.
unfoldable pub in_range : (Bytes → Option ℕ) → ℕ → ℕ → Bytes → Bool
in_range atoi lo hi [] = true
in_range atoi lo hi (c ∷ s) = elim (atoi (c ∷ s)) [ none ↦ false | some n ↦ sle lo n && sle n hi ]

validate_pagination-valid :
    (atoi : Bytes → Option ℕ) (page limit : Bytes)
    → (validate_pagination atoi page limit).valid
      ≡ (length (page_errors atoi page) == 0 && length (limit_errors atoi limit) == 0)
unfolding validate_pagination
validate_pagination-valid atoi page limit =
    ground (arith, length-append (page_errors atoi page) (limit_errors atoi limit))

page_errors-in_range :
    (atoi : Bytes → Option ℕ) (page : Bytes)
    → (length (page_errors atoi page) == 0) ≡ in_range atoi 1 (half - 1) page
unfolding page_errors in_range
page_errors-in_range atoi [] = refl
page_errors-in_range atoi (c ∷ s) = ground arith

limit_errors-in_range :
    (atoi : Bytes → Option ℕ) (limit : Bytes)
    → (length (limit_errors atoi limit) == 0) ≡ in_range atoi 1 100 limit
unfolding limit_errors in_range
limit_errors-in_range atoi [] = refl
limit_errors-in_range atoi (c ∷ s) = ground arith

-- A pagination is valid exactly when the page, if given, is a positive integer and the limit, if
-- given, lies from 1 to 100.
pub validate_pagination-in_range :
    (atoi : Bytes → Option ℕ) (page limit : Bytes)
    → (validate_pagination atoi page limit).valid
      ≡ (in_range atoi 1 (half - 1) page && in_range atoi 1 100 limit)
validate_pagination-in_range atoi page limit =
    validate_pagination-valid atoi page limit
    ∙ rw (page_errors-in_range atoi page, limit_errors-in_range atoi limit) (refl)
