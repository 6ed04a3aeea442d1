-- ===== src/HttpServer/Handlers.antt =====
-- internal/adapter/httpserver/handlers.go and responses.go: the handlers of the three public
-- requests. The children hold one handler each; a request is what the handler reads of it, and a
-- reply is its status, its ETag header where one is set, and the content that is encoded as JSON.
pub mod UploadHandler
pub mod EvaluateHandler
pub mod ResultHandler
use ai_cv_evaluator.Base.{
  ℕ, ◌+◌, ◌-◌, ◌*◌, ◌/◌, ◌%◌, max, String, ◌≡◌, refl, ap, Bool, false, not, ◌||◌, Option, none,
  some, List, [], ◌∷◌, ◌++◌, ◌==◌, length, Bytes, codes, has_infix, bytes_eq,
}
use ai_cv_evaluator.Domain.{
  Error, Sentinel, err_invalid_argument, err_not_found, err_conflict, err_rate_limited,
  err_upstream_timeout, err_upstream_rate_limit, err_schema_invalid, err_internal, sentinel_message,
}
use ai_cv_evaluator.Usecase.Fetch.{Body}

-- The details of an error, as the handlers give them.
pub data Details : Type 0 where
  no_details : Details
  fields : List (Bytes × Bytes) → Details
  max_mb : ℕ → Details

pub data Content : Type 0 where
  problem : Bytes → Bytes → Details → Content
  ids : String → String → Content
  queued : String → Content
  result_of : Body → Content
  no_content : Content

pub record Reply : Type 0 where
  pub status : ℕ
  pub etag : Option Bytes
  pub content : Content

abbrev pub write_json : ℕ → Content → Reply
write_json status content = record { status = status; etag = none; content = content }

abbrev pub invalid_argument : Bytes
invalid_argument = codes "INVALID_ARGUMENT"

-- The status and the code that `writeError` gives an error.
unfoldable pub status_of : Option Sentinel → ℕ × Bytes
status_of (some err_invalid_argument) = (400, invalid_argument)
status_of (some err_not_found) = (404, codes "NOT_FOUND")
status_of (some err_conflict) = (409, codes "CONFLICT")
status_of (some err_rate_limited) = (429, codes "RATE_LIMITED")
status_of (some err_upstream_timeout) = (503, codes "UPSTREAM_TIMEOUT")
status_of (some err_upstream_rate_limit) = (503, codes "UPSTREAM_RATE_LIMIT")
status_of (some err_schema_invalid) = (503, codes "SCHEMA_INVALID")
status_of (some err_internal) = (500, codes "INTERNAL")
status_of none = (500, codes "INTERNAL")

unfoldable pub write_error : Error → Details → Reply
write_error e details =
    write_json (status_of e.cause).0 (problem (status_of e.cause).1 e.message details)

-- `fmt.Errorf("%w: text", domain.ErrInvalidArgument)`.
abbrev pub bad_request : Bytes → Error
bad_request text = record {
  cause = some err_invalid_argument;
  message = sentinel_message err_invalid_argument ++ codes ": " ++ text;
}

-- Accept negotiation: only JSON is given.
unfoldable pub is_acceptable : Bytes → Bool
is_acceptable accept =
    length accept == 0
    || bytes_eq accept (codes "*/*")
    || has_infix accept (codes "application/json")

abbrev pub not_acceptable : Bytes → Reply
not_acceptable accept =
    write_json 406
      (problem invalid_argument (codes "not acceptable") (fields ((codes "accept", accept) ∷ [])))

-- No error is answered with 200.
pub status_of-error : (c : Option Sentinel) → ((status_of c).0 == 200) ≡ false
unfolding status_of
status_of-error none = refl
status_of-error (some err_invalid_argument) = refl
status_of-error (some err_not_found) = refl
status_of-error (some err_conflict) = refl
status_of-error (some err_rate_limited) = refl
status_of-error (some err_upstream_timeout) = refl
status_of-error (some err_upstream_rate_limit) = refl
status_of-error (some err_schema_invalid) = refl
status_of-error (some err_internal) = refl

pub bad_request_refused :
    (text : Bytes) (d : Details) → (write_error (bad_request text) d).status ≡ 400
unfolding write_error status_of
bad_request_refused text d = refl
