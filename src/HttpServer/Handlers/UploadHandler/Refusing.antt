-- ===== src/HttpServer/Handlers/UploadHandler/Refusing.antt =====
-- internal/adapter/httpserver/handlers.go: no check of `UploadHandler` that fails answers 200.
use ai_cv_evaluator.Base.{
  ℕ, ◌≡◌, refl, inl, inr, Bool, true, not, Option, none, some, [], ◌∷◌, ◌++◌, arith, ◌==◌, Bytes,
  codes,
}
use ai_cv_evaluator.Domain.{Result, ok, err, Result-cases}
use ai_cv_evaluator.HttpServer.Handlers.{bad_request_refused, fields, no_details}
use ai_cv_evaluator.HttpServer.Handlers.UploadHandler.Checking.{
  Check, stop, pass, ◌>>=◌, ◌>>◌, UploadRequest, Form, Part, parse_form, read_part, find_part,
  check_ext, check_mime, extract_part, check_form, check_upload, extract_uploaded_text,
}

abbrev pub refuses {ℓ} : {A : Type ℓ} → Check A → Bool
refuses (stop r) = not (r.status == 200)
refuses (pass a) = true

refuses-bind {ℓ} :
    {A B : Type ℓ} (c : Check A) (f : A → Check B)
    → refuses c ≡ true
    → ((a : A) → refuses (f a) ≡ true)
    → refuses (c >>= f) ≡ true
refuses-bind (stop r) f h k = h
refuses-bind (pass a) f h k = k a

refuses-then {ℓ} :
    {A B : Type ℓ} (c : Check A) (k : Check B)
    → refuses c ≡ true
    → refuses k ≡ true
    → refuses (c >> k) ≡ true
refuses-then (stop r) k h l = h
refuses-then (pass a) k h l = l

refuses-find_part : (which : Bytes) (o : Option Part) → refuses (find_part which o) ≡ true
refuses-find_part which none = ground (
  arith,
  bad_request_refused (which ++ codes " file required") (fields ((codes "field", which) ∷ [])),
)
refuses-find_part which (some p) = refl

refuses-read_part : (which : Bytes) (p : Part) → refuses (read_part which p) ≡ true
refuses-read_part which p = elim (Result-cases p.data_read) [
  | inl (a, e) ↦ ground (arith, e)
  | inr (x, e) ↦
      ground (arith, e, bad_request_refused (which ++ codes " read: " ++ x.message) no_details)
]

refuses-parse_form :
    (max_upload_mb : ℕ) (r : Result Form) → refuses (parse_form max_upload_mb r) ≡ true
refuses-parse_form max_upload_mb (ok form) = refl
refuses-parse_form max_upload_mb (err e) = ground (arith, bad_request_refused e.message no_details)

refuses-check_ext : (which name : Bytes) → refuses (check_ext which name) ≡ true
refuses-check_ext which name = ground arith

refuses-check_mime : (which mime name : Bytes) → refuses (check_mime which mime name) ≡ true
refuses-check_mime which mime name = ground arith

module _ (max_upload_mb : ℕ) (detect : Bytes → Bytes)
    (extractor : Option (Bytes → Bytes → Result Bytes)) where
  refuses-extract_part :
      (which name bytes : Bytes)
      → refuses (extract_part max_upload_mb detect extractor which name bytes) ≡ true
  refuses-extract_part which name bytes =
      elim (Result-cases (extract_uploaded_text max_upload_mb detect extractor name bytes)) [
        | inl (a, e) ↦ ground (arith, e)
        | inr (x, e) ↦
            ground
              (arith, e, bad_request_refused (which ++ codes " extract: " ++ x.message) no_details)
      ]

  refuses-check_form :
      (form : Form) → refuses (check_form max_upload_mb detect extractor form) ≡ true
  unfolding check_form
  refuses-check_form form =
      refuses-bind (find_part (codes "cv") form.cv) _ (refuses-find_part (codes "cv") form.cv) λ cv.
        refuses-bind (find_part (codes "project") form.project) _
          (refuses-find_part (codes "project") form.project)
          λ project.
            refuses-bind (read_part (codes "cv") cv) _ (refuses-read_part (codes "cv") cv)
              λ cv_bytes.
                refuses-bind (read_part (codes "project") project) _
                  (refuses-read_part (codes "project") project)
                  λ pr_bytes.
                    refuses-then (check_ext (codes "cv") cv.filename) _
                      (refuses-check_ext (codes "cv") cv.filename)
                      (refuses-then (check_ext (codes "project") project.filename) _
                        (refuses-check_ext (codes "project") project.filename)
                        (refuses-then (check_mime (codes "cv") (detect cv_bytes) cv.filename) _
                          (refuses-check_mime (codes "cv") (detect cv_bytes) cv.filename)
                          (refuses-then
                            (check_mime (codes "project") (detect pr_bytes) project.filename) _
                            (refuses-check_mime (codes "project") (detect pr_bytes)
                              project.filename)
                            (refuses-bind
                              (extract_part max_upload_mb detect extractor (codes "cv") cv.filename
                                cv_bytes)
                              _ (refuses-extract_part (codes "cv") cv.filename cv_bytes)
                              λ cv_text.
                                refuses-bind
                                  (extract_part max_upload_mb detect extractor (codes "project")
                                    project.filename pr_bytes)
                                  _
                                  (refuses-extract_part (codes "project") project.filename pr_bytes)
                                  λ pr_text. refl))))

  pub refuses-check_upload :
      (r : UploadRequest) → refuses (check_upload max_upload_mb detect extractor r) ≡ true
  unfolding check_upload
  refuses-check_upload r = ground (
    arith,
    bad_request_refused (codes "content-type must be multipart/form-data") no_details,
    refuses-bind (parse_form max_upload_mb r.form) (check_form max_upload_mb detect extractor)
        (refuses-parse_form max_upload_mb r.form) refuses-check_form,
  )
