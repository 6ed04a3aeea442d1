-- ===== src/Examples/Services.antt =====
-- The theorems on the use cases at concrete inputs.
use ai_cv_evaluator.Base.{Bytes, codes}
use ai_cv_evaluator.Usecase.Enqueue.{Request}
use ai_cv_evaluator.Usecase.Fetch.{Body}

abbrev request : Request
request = record {
  cv_id = "cv-1";
  project_id = "pr-1";
  job_desc = codes "go";
  study_case = codes "go";
  scoring_rubric = codes "go";
  idem_key = "";
  request_id = "req-1";
}

-- A tag for a body.
abbrev make_etag : Body → Bytes
make_etag body = codes "tag"
