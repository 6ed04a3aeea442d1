-- ===== src/HttpServer/Validation.antt =====
-- internal/adapter/httpserver/validation.go: the checks of the parameters of a request, and the
-- functions that clean them. `strconv.Atoi` is a parameter, whose result is a word of 64 bits;
-- the conversion to valid UTF-8 is one too.
pub mod Sanitizing
pub mod Statuses
use ai_cv_evaluator.Base.{
  ℕ, ◌+◌, ◌-◌, ◌/◌, max, ap, Bool, true, false, not, ◌&&◌, ◌||◌, Option, none, some, List, [], ◌∷◌,
  ◌++◌, ltb, leb, ◌==◌, if◌then◌else◌, length, any, all, keep, at_most, slt, Bytes, codes,
  trim_space, bytes_eq,
}

pub record ValidationError : Type 0 where
  pub field : Bytes
  pub code : Bytes
  pub message : Bytes

pub record ValidationResult : Type 0 where
  pub valid : Bool
  pub errors : List ValidationError

abbrev pub accepted : ValidationResult
accepted = record { valid = true; errors = [] }

abbrev pub rejected : Bytes → Bytes → Bytes → ValidationResult
rejected field code message = record {
  valid = false;
  errors = record { field = field; code = code; message = message } ∷ [];
}

abbrev pub between : ℕ → ℕ → ℕ → Bool
between lo hi c = leb lo c && leb c hi

-- The class `[a-zA-Z0-9_-]`, and `\s` of the package `regexp`.
unfoldable pub is_id_byte : ℕ → Bool
is_id_byte c = between 97 122 c || between 65 90 c || between 48 57 c || c == 95 || c == 45

unfoldable pub is_query_byte : ℕ → Bool
is_query_byte c = is_id_byte c || c == 32 || c == 9 || c == 10 || c == 12 || c == 13

unfoldable pub validate_job_id : Bytes → ValidationResult
validate_job_id job_id =
    if length job_id == 0
    then rejected (codes "id") (codes "REQUIRED") (codes "Job ID is required")
    else if ltb 100 (length job_id)
    then rejected (codes "id") (codes "TOO_LONG") (codes "Job ID is too long (max 100 characters)")
    else if not (all is_id_byte job_id)
    then rejected (codes "id") (codes "INVALID_FORMAT") (codes "Job ID contains invalid characters")
    else accepted

module _ (atoi : Bytes → Option ℕ) where
  unfoldable pub page_errors : Bytes → List ValidationError
  page_errors [] = []
  page_errors (c ∷ s) =
      let failure =
        (rejected (codes "page") (codes "INVALID_FORMAT")
          (codes "Page must be a positive integer")).errors in
      elim (atoi (c ∷ s)) [ none ↦ failure | some n ↦ if slt n 1 then failure else [] ]

  unfoldable pub limit_errors : Bytes → List ValidationError
  limit_errors [] = []
  limit_errors (c ∷ s) =
      let failure =
        (rejected (codes "limit") (codes "INVALID_FORMAT")
          (codes "Limit must be between 1 and 100")).errors in
      elim (atoi (c ∷ s)) [ none ↦ failure | some n ↦ if slt n 1 || slt 100 n then failure else [] ]

  unfoldable pub validate_pagination : Bytes → Bytes → ValidationResult
  validate_pagination page limit =
      let errors = page_errors page ++ limit_errors limit in
      if ltb 0 (length errors) then record { valid = false; errors = errors } else accepted

unfoldable pub validate_search_query : Bytes → ValidationResult
validate_search_query query =
    if length query == 0
    then accepted
    else if ltb 200 (length query)
    then rejected (codes "search") (codes "TOO_LONG")
        (codes "Search query is too long (max 200 characters)")
    else if not (all is_query_byte query)
    then rejected (codes "search") (codes "INVALID_FORMAT")
        (codes "Search query contains invalid characters")
    else accepted

abbrev pub valid_statuses : List Bytes
valid_statuses = codes "queued" ∷ codes "processing" ∷ codes "completed" ∷ codes "failed" ∷ []

unfoldable pub validate_status : Bytes → ValidationResult
validate_status status =
    if length status == 0
    then accepted
    else if any (bytes_eq status) valid_statuses
    then accepted
    else rejected (codes "status") (codes "INVALID_VALUE")
        (codes "Status must be one of: queued, processing, completed, failed")

-- `strings.ToValidUTF8` gives back a valid text, so that the test before it changes nothing.
unfoldable pub sanitize_string : (Bytes → Bool) → (Bytes → Bytes) → Bytes → Bytes
sanitize_string valid_string to_valid_utf8 input =
    let limited = at_most 1000 (trim_space (keep (λ c. not (c == 0)) input)) in
    if not (valid_string limited) then to_valid_utf8 limited else limited

unfoldable pub sanitize_job_id : Bytes → Bytes
sanitize_job_id job_id = at_most 100 (keep is_id_byte job_id)
