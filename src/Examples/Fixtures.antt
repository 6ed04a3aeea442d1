-- ===== src/Examples/Fixtures.antt =====
-- Environments, jobs and other data that the examples share.
use ai_cv_evaluator.Base.{◌+◌, ◌*◌, true, none, [], second, codes}
use ai_cv_evaluator.Domain.{
  Error, plain_error, ok, err, Job, job_queued, Upload, EvaluationResult, EvaluateTaskPayload,
}
use ai_cv_evaluator.Retry.{RetryInfo, retry_none, DlqJob}
use ai_cv_evaluator.Effects.{Env, World}

abbrev pub queued_job : Job
queued_job = record {
  id = "job-1";
  status = job_queued;
  error = [];
  created_at = 0;
  updated_at = 0;
  cv_id = "cv-1";
  project_id = "pr-1";
  idem_key = none;
}

abbrev pub cv : Upload
cv = record {
  id = "cv-1";
  kind = codes "cv";
  text = codes "text";
  filename = codes "cv.pdf";
  mime = codes "application/pdf";
  size = 4;
  created_at = 0;
}

abbrev pub answer : EvaluationResult
answer = record {
  job_id = "job-1";
  cv_match_rate = 0;
  cv_feedback = codes "good";
  project_score = 7;
  project_feedback = codes "good";
  overall_summary = codes "good";
  created_at = 0;
}

abbrev pub payload : EvaluateTaskPayload
payload = record {
  job_id = "job-1";
  cv_id = "cv-1";
  project_id = "pr-1";
  job_description = codes "go";
  study_case_brief = codes "go";
  scoring_rubric = codes "go";
  request_id = "req-1";
}

-- Every collaborator answers, and a reading of the clock takes a second.
abbrev pub env_up : Env
env_up = record {
  create_job_reply = λ h j. ok "job-1";
  update_status_reply = λ h id s e. none;
  get_job_reply = λ h id. ok queued_job;
  find_by_idempotency_key_reply = λ h key. ok queued_job;
  create_upload_reply = λ h u. ok "cv-1";
  get_upload_reply = λ h id. ok cv;
  upsert_result_reply = λ h r. none;
  get_result_reply = λ h id. ok answer;
  enqueue_evaluate_reply = λ h p. ok "task-1";
  enqueue_dlq_reply = λ h id d. none;
  evaluate_reply = λ h id. ok answer;
  marshal_dlq_job = λ j. ok (codes "job");
  clock = λ n. 1_000 * second + n * second;
}

abbrev pub timed_out : Error
timed_out = plain_error (codes "upstream timeout")

-- The AI pipeline and the broker fail.
abbrev pub env_down : Env
env_down = record env_up {
  evaluate_reply = λ h id. err timed_out;
  enqueue_evaluate_reply = λ h p. err timed_out;
}

abbrev pub start : World
start = record { history = []; readings = 0 }

abbrev pub retry_info : RetryInfo
retry_info = record {
  attempt_count = 1;
  max_attempts = 3;
  last_attempt_at = 0;
  next_retry_at = 0;
  retry_status = retry_none;
  last_error = codes "upstream timeout";
  error_history = [];
  created_at = 0;
  updated_at = 0;
}

-- Moved to the dead-letter queue ten seconds before the clock of `env_up` starts.
abbrev pub dead_job : DlqJob
dead_job = record {
  job_id = "job-1";
  original_payload = payload;
  retry_info = retry_info;
  failure_reason = codes "upstream timeout";
  moved_to_dlq_at = 990 * second;
  can_be_reprocessed = true;
}
