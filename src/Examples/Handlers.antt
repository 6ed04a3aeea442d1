-- ===== src/Examples/Handlers.antt =====
-- The theorems on the handlers of the public requests at concrete inputs.
use ai_cv_evaluator.Base.{◌≡◌, refl, ◌⊎◌, some, [], Bytes, codes, bytes_eq}
use ai_cv_evaluator.Domain.{ok}
use ai_cv_evaluator.Usecase.Enqueue.{
  Request, enqueue, create_and_enqueue, NothingLeft, created_job, looked_up,
}
use ai_cv_evaluator.Usecase.Fetch.{Body, fetch, fetch_pending, respond, is_stale}
use ai_cv_evaluator.HttpServer.Handlers.{no_content, is_acceptable, write_error, status_of}
use ai_cv_evaluator.HttpServer.Handlers.ResultHandler.{
  result_handler, result_handler-result_handler,
}
use ai_cv_evaluator.HttpServer.Handlers.EvaluateHandler.{
  EvaluateRequest, Defaults, violations, request_of, evaluate_handler, evaluate_handler_refused,
}
use ai_cv_evaluator.HttpServer.Handlers.UploadHandler.Checking.{UploadRequest, Part}
use ai_cv_evaluator.Examples.Fixtures.{env_up, env_down, start}

abbrev tag_of : Body → Bytes
tag_of body = codes "tag"

result_handler-result_handler_example :
    result_handler env_up tag_of [] "job-1" (codes "tag") start ≡ (
      record { status = 304; etag = some (codes "tag"); content = no_content },
      (result_handler env_up tag_of [] "job-1" [] start).1,
    )
unfolding result_handler is_acceptable fetch fetch_pending is_stale respond bytes_eq
result_handler-result_handler_example =
    result_handler-result_handler env_up tag_of [] [] (codes "tag") "job-1" start refl refl

abbrev defaults : Defaults
defaults = record {
  job_description = codes "go";
  study_case_brief = codes "go";
  scoring_rubric = codes "go";
}

abbrev evaluation : EvaluateRequest
evaluation = record {
  cv_id = "cv-1";
  project_id = "pr-1";
  job_description = [];
  study_case_brief = codes "study";
  scoring_rubric = [];
}

evaluate_handler_refused_example :
    ((evaluate_handler env_down defaults [] (some evaluation) "" "req-1" start).1 ≡ start)
    ⊎ ((r : Request) × NothingLeft env_down r
          (created_job env_down r start)
          (looked_up env_down r start.history)
          (evaluate_handler env_down defaults [] (some evaluation) "" "req-1" start).1.history)
unfolding evaluate_handler is_acceptable violations request_of enqueue create_and_enqueue
    write_error status_of
evaluate_handler_refused_example =
    evaluate_handler_refused env_down defaults [] (some evaluation) "" "req-1" start refl

abbrev text_file : Bytes → Bytes → Part
text_file name text = record { filename = name; data_read = ok text }

abbrev detect : Bytes → Bytes
detect s = codes "text/plain; charset=utf-8"

abbrev upload : UploadRequest
upload = record {
  accept = codes "application/json";
  content_type = codes "multipart/form-data; boundary=x";
  form = ok (record {
    cv = some (text_file (codes "cv.txt") (codes "a"));
    project = some (text_file (codes "p.TXT") (codes "b"));
  });
}
