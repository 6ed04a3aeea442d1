-- ===== src/HttpServer/Handlers/UploadHandler/Checking.antt =====
-- internal/adapter/httpserver/handlers.go: the checks of `UploadHandler`, up to the two texts, and
-- pkg/textx/textx.go. A check that fails answers the request.
use ai_cv_evaluator.Base.{
  ℕ, Bool, not, ◌&&◌, ◌||◌, Option, none, some, [], ◌∷◌, ◌++◌, leb, ◌==◌, if◌then◌else◌, keep,
  Bytes, codes, to_lower, has_prefix, has_infix, trim_space, bytes_eq,
}
use mathlib.Core.List.{List, reverse}
use ai_cv_evaluator.Domain.{Result, ok, err}
use ai_cv_evaluator.Usecase.Ingest.{has_suffix}
use ai_cv_evaluator.HttpServer.Handlers.{
  Reply, problem, no_details, fields, max_mb, invalid_argument, write_json, write_error,
  bad_request, is_acceptable, not_acceptable,
}

pub data Check {ℓ} (A : Type ℓ) : Type ℓ where
  stop : Reply → Check A
  pass : A → Check A

infixl 5 ◌>>=◌ ◌>>◌
abbrev pub ◌>>=◌ {ℓ} : {A B : Type ℓ} → Check A → (A → Check B) → Check B
◌>>=◌ (stop r) f = stop r
◌>>=◌ (pass a) f = f a

abbrev pub ◌>>◌ {ℓ} : {A B : Type ℓ} → Check A → Check B → Check B
◌>>◌ (stop r) k = stop r
◌>>◌ (pass a) k = k

-- A file of the form: its name, and what reading it gives.
pub record Part : Type 0 where
  pub filename : Bytes
  pub data_read : Result Bytes

pub record Form : Type 0 where
  pub cv : Option Part
  pub project : Option Part

-- `form` is what `ParseMultipartForm` gives, under the limit on the body.
pub record UploadRequest : Type 0 where
  pub accept : Bytes
  pub content_type : Bytes
  pub form : Result Form

pub record Texts : Type 0 where
  pub cv_text : Bytes
  pub project_text : Bytes
  pub cv_name : Bytes
  pub project_name : Bytes

-- `SanitizeText`.
abbrev is_text_byte : ℕ → Bool
is_text_byte c = c == 10 || c == 13 || c == 9 || (leb 32 c && not (c == 127))

unfoldable pub sanitize_text : Bytes → Bytes
sanitize_text s = trim_space (keep is_text_byte s)

unfoldable pub allowed_ext : Bytes → Bool
allowed_ext name =
    let n = to_lower name in
    has_suffix n (codes ".txt") || has_suffix n (codes ".pdf") || has_suffix n (codes ".docx")

unfoldable pub allowed_mime_for : Bytes → Bytes → Bool
allowed_mime_for mime filename =
    let m = to_lower mime in
    (has_suffix (to_lower filename) (codes ".txt") && has_prefix m (codes "text/"))
    || has_prefix m (codes "text/plain")
    || bytes_eq m (codes "application/pdf")
    || bytes_eq m (codes "application/vnd.openxmlformats-officedocument.wordprocessingml.document")

-- `filepath.Ext`: from the last dot of the last element of the path.
abbrev ext_before : Bytes → Bytes → Bytes
ext_before [] found = []
ext_before (c ∷ s) found =
    if c == b'/' then [] else if c == b'.' then c ∷ found else ext_before s (c ∷ found)

unfoldable pub ext : Bytes → Bytes
ext name = ext_before (reverse name) []

-- `strings.TrimPrefix(ext, ".")` of an extension.
abbrev format_of : Bytes → Bytes
format_of [] = []
format_of (c ∷ s) = s

abbrev pub read_part : Bytes → Part → Check Bytes
read_part which part = elim part.data_read [
  | err e ↦ stop (write_error (bad_request (which ++ codes " read: " ++ e.message)) no_details)
  | ok bytes ↦ pass bytes
]

abbrev pub find_part : Bytes → Option Part → Check Part
find_part which none = stop (
    write_error (bad_request (which ++ codes " file required"))
      (fields ((codes "field", which) ∷ [])))
find_part which (some part) = pass part

abbrev unsupported : Bytes → List (Bytes × Bytes) → Reply
unsupported text details =
    write_json 415
      (problem invalid_argument (codes "unsupported media type for " ++ text) (fields details))

abbrev pub check_ext : Bytes → Bytes → Check Bytes
check_ext which name =
    if allowed_ext name
    then pass name
    else stop (unsupported (which ++ codes " (extension)") ((codes "filename", name) ∷ []))

abbrev pub check_mime : Bytes → Bytes → Bytes → Check Bytes
check_mime which mime name =
    if allowed_mime_for mime name
    then pass mime
    else stop (
        unsupported (which ++ codes " (content)")
          ((codes "mime", mime) ∷ (codes "filename", name) ∷ []))

abbrev pub parse_form : ℕ → Result Form → Check Form
parse_form max_upload_mb (ok form) = pass form
parse_form max_upload_mb (err e) =
    if has_infix (to_lower e.message) (codes "too large")
    then stop (
        write_json 413
          (problem invalid_argument (codes "payload too large") (max_mb max_upload_mb)))
    else stop (write_error (bad_request e.message) no_details)

-- `mimetype.Detect`, and the extractor with the temporary file it reads, where there is one.
module _ (max_upload_mb : ℕ) (detect : Bytes → Bytes)
    (extractor : Option (Bytes → Bytes → Result Bytes)) where
  unfoldable pub extract_uploaded_text : Bytes → Bytes → Result Bytes
  extract_uploaded_text filename bytes =
      let kind = to_lower (ext filename) in
      if bytes_eq kind (codes ".pdf") || bytes_eq kind (codes ".docx")
      then elim extractor [
        | none ↦ err (bad_request (format_of kind ++ codes " requires extractor"))
        | some extract ↦ extract filename bytes
      ]
      else ok (sanitize_text bytes)

  abbrev pub extract_part : Bytes → Bytes → Bytes → Check Bytes
  extract_part which filename bytes = elim (extract_uploaded_text filename bytes) [
    | err e ↦ stop (write_error (bad_request (which ++ codes " extract: " ++ e.message)) no_details)
    | ok text ↦ pass text
  ]

  unfoldable pub check_form : Form → Check Texts
  check_form form = do
    cv ← find_part (codes "cv") form.cv
    project ← find_part (codes "project") form.project
    cv_bytes ← read_part (codes "cv") cv
    project_bytes ← read_part (codes "project") project
    check_ext (codes "cv") cv.filename
    check_ext (codes "project") project.filename
    check_mime (codes "cv") (detect cv_bytes) cv.filename
    check_mime (codes "project") (detect project_bytes) project.filename
    cv_text ← extract_part (codes "cv") cv.filename cv_bytes
    project_text ← extract_part (codes "project") project.filename project_bytes
    pass (record {
      cv_text = cv_text;
      project_text = project_text;
      cv_name = cv.filename;
      project_name = project.filename;
    })

  unfoldable pub check_upload : UploadRequest → Check Texts
  check_upload r =
      if not (is_acceptable r.accept)
      then stop (not_acceptable r.accept)
      else if not (has_infix r.content_type (codes "multipart/form-data"))
      then stop
          (write_error (bad_request (codes "content-type must be multipart/form-data")) no_details)
      else (parse_form max_upload_mb r.form >>= check_form)
