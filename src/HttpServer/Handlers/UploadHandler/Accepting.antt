-- ===== src/HttpServer/Handlers/UploadHandler/Accepting.antt =====
-- internal/adapter/httpserver/handlers.go: the uploads that `UploadHandler` accepts, and what it has
-- stored.
use mathlib.Core.Path.{subst}
use ai_cv_evaluator.Base.{
  ℕ, ◌≡◌, refl, inl, inr, true, Option, none, some, arith, Bool-cases, Bytes, codes, to_lower,
  has_infix,
}
use ai_cv_evaluator.Domain.{Result, ok, err, Result-cases}
use ai_cv_evaluator.HttpServer.Handlers.{is_acceptable}
use ai_cv_evaluator.HttpServer.Handlers.UploadHandler.Checking.{
  Check, stop, pass, ◌>>=◌, ◌>>◌, Texts, UploadRequest, Form, Part, parse_form, read_part,
  find_part, check_ext, check_mime, extract_part, check_form, check_upload, allowed_ext,
  allowed_mime_for, extract_uploaded_text,
}

bind-pass {ℓ} :
    {A B G : Type ℓ} (c : Check A) {f : A → Check B} {b : B}
    → (c >>= f) ≡ pass b
    → ((a : A) → c ≡ pass a → f a ≡ pass b → G)
    → G
bind-pass (stop r) h go = ground (arith, h)
bind-pass (pass a) h go = go a refl h

pass-injective {ℓ} : {A : Type ℓ} {a b : A} → pass a ≡ pass b → a ≡ b
pass-injective h = ground (arith, h)

then-pass {ℓ} :
    {A B G : Type ℓ} (c : Check A) {k : Check B} {b : B}
    → (c >> k) ≡ pass b
    → ((a : A) → c ≡ pass a → k ≡ pass b → G)
    → G
then-pass (stop r) h go = ground (arith, h)
then-pass (pass a) h go = go a refl h

read_part-ok :
    (which : Bytes) (p : Part) {bytes : Bytes}
    → read_part which p ≡ pass bytes
    → p.data_read ≡ ok bytes
read_part-ok which p h = elim (Result-cases p.data_read) [
  | inl (a, e) ↦ ground (arith, h, e)
  | inr (x, e) ↦ ground (arith, h, e)
]

parse_form-ok :
    (max_upload_mb : ℕ) (r : Result Form) {form : Form}
    → parse_form max_upload_mb r ≡ pass form
    → r ≡ ok form
parse_form-ok max_upload_mb (ok form) h = ground (arith, h)
parse_form-ok max_upload_mb (err e) h =
    elim (Bool-cases (has_infix (to_lower e.message) (codes "too large"))) [
      | inl k ↦ ground (arith, h, k)
      | inr k ↦ ground (arith, h, k)
    ]

module _ (max_upload_mb : ℕ) (detect : Bytes → Bytes)
    (extractor : Option (Bytes → Bytes → Result Bytes)) where
  -- A file of the form that was read, has an extension and a content of the lists, and gave a text.
  pub record IsAllowed (part : Option Part) (name text : Bytes) : Type 0 where
    pub bytes : Bytes
    pub found : part ≡ some (record { filename = name; data_read = ok bytes })
    pub by_name : allowed_ext name ≡ true
    pub by_content : allowed_mime_for (detect bytes) name ≡ true
    pub extracted : extract_uploaded_text max_upload_mb detect extractor name bytes ≡ ok text

  -- A request for JSON with a form of two such files.
  pub record IsUpload (r : UploadRequest) (t : Texts) : Type 0 where
    pub form : Form
    pub acceptable : is_acceptable r.accept ≡ true
    pub parsed : r.form ≡ ok form
    pub cv_allowed : IsAllowed form.cv t.cv_name t.cv_text
    pub project_allowed : IsAllowed form.project t.project_name t.project_text

  part-IsAllowed :
      (which : Bytes) (o : Option Part) (p : Part) {bytes name mime text : Bytes}
      → find_part which o ≡ pass p
      → read_part which p ≡ pass bytes
      → check_ext which p.filename ≡ pass name
      → check_mime which (detect bytes) p.filename ≡ pass mime
      → extract_part max_upload_mb detect extractor which p.filename bytes ≡ pass text
      → IsAllowed o p.filename text
  part-IsAllowed which none p e1 e2 e3 e4 e5 = ground (arith, e1)
  part-IsAllowed which (some part) p {bytes} {text} e1 e2 e3 e4 e5 = record {
    bytes = bytes;
    found = ground (arith, e1, read_part-ok which p e2);
    by_name = ground (arith, e3);
    by_content = ground (arith, e4);
    extracted =
        elim (Result-cases
          (extract_uploaded_text max_upload_mb detect extractor p.filename bytes)) [
            | inl (a, e) ↦ ground (arith, e5, e)
            | inr (x, e) ↦ ground (arith, e5, e)
          ];
  }

  check_form-IsAllowed :
      (form : Form) (t : Texts)
      → check_form max_upload_mb detect extractor form ≡ pass t
      → IsAllowed form.cv t.cv_name t.cv_text × IsAllowed form.project t.project_name t.project_text
  unfolding check_form
  check_form-IsAllowed form t h = bind-pass (find_part (codes "cv") form.cv) h λ cv e1 h1.
      bind-pass (find_part (codes "project") form.project) h1 λ project e2 h2.
        bind-pass (read_part (codes "cv") cv) h2 λ cv_bytes e3 h3.
          bind-pass (read_part (codes "project") project) h3 λ pr_bytes e4 h4.
            then-pass (check_ext (codes "cv") cv.filename) h4 λ name5 e5 h5.
              then-pass (check_ext (codes "project") project.filename) h5 λ name6 e6 h6.
                then-pass (check_mime (codes "cv") (detect cv_bytes) cv.filename) h6 λ mime7 e7 h7.
                  then-pass (check_mime (codes "project") (detect pr_bytes) project.filename) h7
                    λ mime8 e8 h8.
                      bind-pass
                        (extract_part max_upload_mb detect extractor (codes "cv") cv.filename
                          cv_bytes)
                        h8
                        λ cv_text e9 h9.
                          bind-pass
                            (extract_part max_upload_mb detect extractor (codes "project")
                              project.filename pr_bytes)
                            h9
                            λ pr_text e10 h10.
                              subst
                                (λ (u : Texts).
                                  IsAllowed form.cv u.cv_name u.cv_text
                                  × IsAllowed form.project u.project_name u.project_text)
                                (pass-injective h10)
                                (
                                  part-IsAllowed (codes "cv") form.cv cv e1 e3 e5 e7 e9,
                                  part-IsAllowed (codes "project") form.project project e2 e4 e6 e8
                                      e10,
                                )

  pub check_upload-IsUpload :
      (r : UploadRequest) (t : Texts)
      → check_upload max_upload_mb detect extractor r ≡ pass t
      → IsUpload r t
  unfolding check_upload
  check_upload-IsUpload r t h = elim (Bool-cases (is_acceptable r.accept)) [
    | inr e ↦ ground (arith, h, e)
    | inl e ↦ elim (Bool-cases (has_infix r.content_type (codes "multipart/form-data"))) [
      | inr k ↦ ground (arith, h, e, k)
      | inl k ↦
          bind-pass (parse_form max_upload_mb r.form)
            {f = check_form max_upload_mb detect extractor} {b = t} (ground (arith, h, e, k))
            λ form e1 h1.
              let both : IsAllowed form.cv t.cv_name t.cv_text
                  × IsAllowed form.project t.project_name t.project_text =
                check_form-IsAllowed form t h1 in
              record {
                form = form;
                acceptable = e;
                parsed = parse_form-ok max_upload_mb r.form e1;
                cv_allowed = both.0;
                project_allowed = both.1;
              }
    ]
  ]
