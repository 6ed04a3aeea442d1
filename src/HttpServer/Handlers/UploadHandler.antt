-- ===== src/HttpServer/Handlers/UploadHandler.antt =====
-- internal/adapter/httpserver/handlers.go: `UploadHandler`, which checks a request, extracts the two
-- texts and has them stored.
pub mod Checking
pub mod Accepting
pub mod Refusing
pub mod Storing
use ai_cv_evaluator.Base.{ℕ, ◌-◌, ◌/◌, max, ap, Option, wrap, Bytes, codes}
use ai_cv_evaluator.Domain.{Error, Result, ok, err, wrap_error}
use ai_cv_evaluator.Effects.{Env, World, M, ◌>>=◌, pure}
use ai_cv_evaluator.Usecase.Ingest.{ingest}
use ai_cv_evaluator.HttpServer.Handlers.{Reply, ids, no_details, write_json, write_error}
use Checking.{stop, pass, Texts, UploadRequest, check_upload}

module _ (env : Env) (max_upload_mb : ℕ) (detect : Bytes → Bytes)
    (extractor : Option (Bytes → Bytes → Result Bytes)) where
  abbrev pub store_texts : Texts → M Reply
  store_texts t = do
    stored ← ingest env t.cv_text t.project_text t.cv_name t.project_name
    elim stored [
      | err e ↦ pure (write_error (wrap_error (codes "upload ingest: ") e) no_details)
      | ok both ↦ pure (write_json 200 (ids both.0 both.1))
    ]

  unfoldable pub upload_handler : UploadRequest → M Reply
  upload_handler r = elim (check_upload max_upload_mb detect extractor r) [
    | stop reply ↦ pure reply
    | pass texts ↦ store_texts texts
  ]
