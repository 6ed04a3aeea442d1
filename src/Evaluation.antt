-- ===== src/Evaluation.antt =====
-- internal/adapter/queue/redpanda/evaluation_handler.go: `HandleEvaluate`, which takes a job from
-- queued to completed or failed. The AI pipeline is a call whose answer is arbitrary. The checks
-- for nil dependencies and the Prometheus counters are left out.
pub mod Attempts
pub mod Outcome
use ai_cv_evaluator.Base.{
  ℕ, zero, suc, ◌+◌, ◌-◌, ◌*◌, ◌/◌, min, String, ap, Bool, false, not, ◌&&◌, ◌||◌, Option, none,
  some, ◌==◌, if◌then◌else◌, take, all, wrap, sle, second, Bytes, codes, to_lower, has_infix,
}
use ai_cv_evaluator.Domain.{
  Error, wrap_error, Result, ok, err, Job, JobStatus, job_processing, job_completed, job_failed,
  status_eq, Upload, EvaluationResult, EvaluateTaskPayload,
}
use ai_cv_evaluator.Effects.{
  Env, EvaluationInput, M, ◌>>=◌, ◌>>◌, pure, note, do_update_status, do_get_job, do_get_upload,
  do_evaluate, do_upsert_result, sleep, start_timeout_watch,
}

-- The message that is stored with a job whose attempts all failed.
unfoldable pub failure_message : Error → Bytes
failure_message last =
    let lower = to_lower last.message in
    if has_infix lower (codes "rate limit")
    then if has_infix lower (codes "groq chat failed")
        && has_infix lower (codes "openrouter chat failed")
      then codes "ai providers rate limited; groq and openrouter temporarily unavailable"
      else codes
          "ai providers rate limited; one or more upstream AI providers temporarily unavailable"
    else codes "enhanced evaluation failed after retries"

abbrev pub is_terminal : JobStatus → Bool
is_terminal s = status_eq s job_completed || status_eq s job_failed

-- `err == nil && (job.Status == JobCompleted || job.Status == JobFailed)`.
abbrev pub is_done : Result Job → Bool
is_done (ok job) = is_terminal job.status
is_done (err e) = false

-- What the pipeline is given: the texts of the two uploads and those of the payload.
unfoldable pub input_of : EvaluateTaskPayload → Upload → Upload → EvaluationInput
input_of payload cv_upload project_upload = record {
  cv_text = cv_upload.text;
  project_text = project_upload.text;
  job_description = payload.job_description;
  study_case_brief = payload.study_case_brief;
  scoring_rubric = payload.scoring_rubric;
  job_id = payload.job_id;
}

module _ (env : Env) where
  -- The rounds that are left of the loop over the attempts; `attempt` is the current one.
  unfoldable pub evaluate_attempts : ℕ → ℕ → EvaluationInput → M (Result EvaluationResult)
  evaluate_attempts zero attempt input = do r ← do_evaluate env input; pure r
  evaluate_attempts (suc left) attempt input = do
    r ← do_evaluate env input
    elim r [
      | ok result ↦ pure (ok result)
      | err e ↦ do note (sleep (attempt * 2 * second)); evaluate_attempts left (attempt + 1) input
    ]

  -- `UpdateStatus(..., JobFailed, &msg)`, whose error is ignored or logged, before the return.
  unfoldable pub fail_with : String → Bytes → Error → M (Option Error)
  fail_with job_id msg e = do do_update_status env job_id job_failed (some msg); pure (some e)

  -- From the stored result on.
  unfoldable pub store_result : String → EvaluationResult → M (Option Error)
  unfolding fail_with
  store_result job_id result = do
    stored ← do_upsert_result env result
    elim stored [
      | some e ↦
          fail_with job_id (codes "failed to store evaluation result")
            (wrap_error (codes "store result: ") e)
      | none ↦ do
        completed ← do_update_status env job_id job_completed none
        elim completed [
          | some e ↦
              fail_with job_id (codes "failed to mark job as completed after evaluation")
                (wrap_error (codes "update job status: ") e)
          | none ↦ pure none
        ]
    ]

  -- From the attempts on.
  unfoldable pub run_attempts : EvaluationInput → M (Option Error)
  unfolding fail_with
  run_attempts input = do
    outcome ← evaluate_attempts 2 1 input
    elim outcome [
      | err e ↦
          fail_with input.job_id (failure_message e)
            (wrap_error (codes "enhanced evaluation failed after 3 attempts: ") e)
      | ok result ↦ store_result input.job_id result
    ]

  -- The two uploads must be there; their texts go to the AI pipeline.
  unfoldable pub load_uploads : EvaluateTaskPayload → M (Option Error)
  unfolding fail_with
  load_uploads payload = do
    cv ← do_get_upload env payload.cv_id
    elim cv [
      | err e ↦
          fail_with payload.job_id (codes "failed to get CV content")
            (wrap_error (codes "get CV content: ") e)
      | ok cv_upload ↦ do
        project ← do_get_upload env payload.project_id
        elim project [
          | err e ↦
              fail_with payload.job_id (codes "failed to get project content")
                (wrap_error (codes "get project content: ") e)
          | ok project_upload ↦ run_attempts (input_of payload cv_upload project_upload)
        ]
    ]

  -- From the change to processing up to the return.
  unfoldable pub process_job : EvaluateTaskPayload → M (Option Error)
  process_job payload = do
    updated ← do_update_status env payload.job_id job_processing none
    elim updated [
      | some e ↦ pure (some (wrap_error (codes "update job status: ") e))
      | none ↦ do note (start_timeout_watch payload.job_id); load_uploads payload
    ]

  -- The deferred function, where the job did not succeed.
  unfoldable pub deferred_cleanup : String → M (Unit {0})
  deferred_cleanup job_id = do
    found ← do_get_job env job_id
    elim found [
      | err e ↦ pure tt
      | ok job ↦ if not (status_eq job.status job_processing) then pure tt else (do
        do_update_status env job_id job_failed
            (some (codes "job failed: evaluation did not reach a terminal state"))
        pure tt)
    ]

  unfoldable pub handle_evaluate : EvaluateTaskPayload → M (Option Error)
  handle_evaluate payload = do
    found ← do_get_job env payload.job_id
    if is_done found then pure none else (do
      failed ← process_job payload
      elim failed [ none ↦ pure none | some e ↦ do deferred_cleanup payload.job_id; pure (some e) ])

  -- The goroutine that waits for the deadline, once the deadline has passed.
  unfoldable pub timeout_watch : String → Bytes → M (Unit {0})
  timeout_watch job_id timeout_msg = do
    do_update_status env job_id job_failed (some timeout_msg)
    pure tt
