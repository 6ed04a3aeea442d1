-- ===== src/HttpServer/Handlers/UploadHandler/Storing.antt =====
-- internal/adapter/httpserver/handlers.go: what `UploadHandler` has stored when it answers 200.
use ai_cv_evaluator.Base.{ℕ, String, ◌≡◌, Option, ◌∷◌, Bytes}
use ai_cv_evaluator.Domain.{Result, ok}
use ai_cv_evaluator.Effects.{Env, World, create_upload}
use ai_cv_evaluator.Usecase.Ingest.{cv_upload, project_upload}
use ai_cv_evaluator.HttpServer.Handlers.{Reply, ids, write_json}
use ai_cv_evaluator.HttpServer.Handlers.UploadHandler.Checking.{Texts}

module _ (max_upload_mb : ℕ) (detect : Bytes → Bytes)
    (extractor : Option (Bytes → Bytes → Result Bytes)) where
  -- The texts of the form were stored as two uploads, the CV first, and the ids of the reply are those
  -- that the repository gave for them.
  pub record IsStored (env : Env) (t : Texts) (w : World) (answered : Reply × World) : Type 0 where
    pub cv_id : String
    pub project_id : String
    pub reply : answered.0 ≡ write_json 200 (ids cv_id project_id)
    pub calls :
        answered.1.history
        ≡ create_upload (project_upload env t.project_text t.project_name w)
          ∷ create_upload (cv_upload env t.cv_text t.cv_name w)
          ∷ w.history
    pub cv_created :
        env.create_upload_reply w.history (cv_upload env t.cv_text t.cv_name w) ≡ ok cv_id
    pub project_created :
        env.create_upload_reply
          (create_upload (cv_upload env t.cv_text t.cv_name w) ∷ w.history)
          (project_upload env t.project_text t.project_name w)
        ≡ ok project_id
