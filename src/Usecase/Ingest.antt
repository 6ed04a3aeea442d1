-- ===== src/Usecase/Ingest.antt =====
-- internal/usecase/upload.go: `Ingest` stores the extracted texts of a CV and a project.
use ai_cv_evaluator.Base.{
  ℕ, ◌+◌, String, ◌≡◌, ◌≢◌, Bool, true, false, ◌||◌, some, [], ◌∷◌, ◌++◌, arith, if◌then◌else◌,
  length, Bytes, codes, to_lower, has_prefix, trim_space,
}
use mathlib.Core.List.{reverse}
use ai_cv_evaluator.Domain.{Error, Result, ok, err, err_invalid_argument, sentinel_message, Upload}
use ai_cv_evaluator.Effects.{Env, World, M, ◌>>=◌, pure, now, do_create_upload, create_upload}

abbrev pub sanitize : Bytes → Bytes
sanitize = trim_space

abbrev pub has_suffix : Bytes → Bytes → Bool
has_suffix s p = has_prefix (reverse s) (reverse p)

unfoldable pub mime_from_name : Bytes → Bytes
mime_from_name name =
    let n = to_lower name in
    if has_suffix n (codes ".pdf")
    then codes "application/pdf"
    else if has_suffix n (codes ".docx")
    then codes "application/vnd.openxmlformats-officedocument.wordprocessingml.document"
    else codes "text/plain"

unfoldable pub upload_of : Bytes → Bytes → Bytes → ℕ → Upload
upload_of kind text name created = record {
  id = "";
  kind = kind;
  text = text;
  filename = name;
  mime = mime_from_name name;
  size = length text;
  created_at = created;
}

unfoldable pub empty_text : Error
unfolding sentinel_message
empty_text = record {
  cause = some err_invalid_argument;
  message = sentinel_message err_invalid_argument ++ codes ": empty extracted text";
}

abbrev is_empty : Bytes → Bool
is_empty [] = true
is_empty (c ∷ s) = false

module _ (env : Env) where
  unfoldable pub store_both : Bytes → Bytes → Bytes → Bytes → M (Result (String × String))
  store_both cv_text proj_text cv_name proj_name = do
    cv_time ← now env
    cv ← do_create_upload env (upload_of (codes "cv") cv_text cv_name cv_time)
    elim cv [
      | err e ↦ pure (err e)
      | ok cv_id ↦ do
        project_time ← now env
        project ←
            do_create_upload env (upload_of (codes "project") proj_text proj_name project_time)
        elim project [ err e ↦ pure (err e) | ok project_id ↦ pure (ok (cv_id, project_id)) ]
    ]

  unfoldable pub ingest : Bytes → Bytes → Bytes → Bytes → M (Result (String × String))
  ingest cv_text proj_text cv_name proj_name =
      if is_empty (sanitize cv_text) || is_empty (sanitize proj_text)
      then pure (err empty_text)
      else store_both (sanitize cv_text) (sanitize proj_text) cv_name proj_name

  -- The uploads of a request, in the order of their creation.
  abbrev pub cv_upload : Bytes → Bytes → World → Upload
  cv_upload text name w = upload_of (codes "cv") (sanitize text) name (env.clock w.readings)

  abbrev pub project_upload : Bytes → Bytes → World → Upload
  project_upload text name w =
      upload_of (codes "project") (sanitize text) name (env.clock (w.readings + 1))

  -- When `Ingest` succeeds, neither text is blank, and exactly the two uploads were created, the
  -- CV first, with the trimmed texts and under the ids that are returned.
  pub ingest-ok :
      (cv proj cv_name proj_name : Bytes) (w : World) {cv_id project_id : String}
      → (ingest cv proj cv_name proj_name w).0 ≡ ok (cv_id, project_id)
      → let first = cv_upload cv cv_name w in
        let second_upload = project_upload proj proj_name w in
        (sanitize cv ≢ [])
        × (sanitize proj ≢ [])
        × (env.create_upload_reply w.history first ≡ ok cv_id)
        × (env.create_upload_reply (create_upload first ∷ w.history) second_upload ≡ ok project_id)
        × ((ingest cv proj cv_name proj_name w).1.history
            ≡ create_upload second_upload ∷ create_upload first ∷ w.history)
  unfolding ingest store_both
  ingest-ok cv proj cv_name proj_name w h =
      (ground arith, ground arith, ground arith, ground arith, ground arith)
