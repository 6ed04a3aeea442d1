-- ===== src/Effects.antt =====
-- What the queue and use-case code asks of its collaborators: the ports of
-- internal/domain/entities.go, the producer, the clock, sleeps and started goroutines. The
-- collaborators are an environment that answers a call from the whole history of calls, so a theorem
-- holds for any behaviour of the database, the broker and the other goroutines. A history has its
-- newest call first.
use ai_cv_evaluator.Base.{ℕ, ◌+◌, String, Option, List, ◌∷◌, Bytes}
use ai_cv_evaluator.Domain.{
  Error, Result, Job, JobStatus, Upload, EvaluationResult, EvaluateTaskPayload,
}
use ai_cv_evaluator.Retry.{RetryInfo, DlqJob}

-- The arguments of `PerformIntegratedEvaluation`.
pub record EvaluationInput : Type 0 where
  pub cv_text : Bytes
  pub project_text : Bytes
  pub job_description : Bytes
  pub study_case_brief : Bytes
  pub scoring_rubric : Bytes
  pub job_id : String

pub data Call : Type 0 where
  create_job : Job → Call
  update_status : String → JobStatus → Option Bytes → Call
  get_job : String → Call
  find_by_idempotency_key : String → Call
  create_upload : Upload → Call
  get_upload : String → Call
  upsert_result : EvaluationResult → Call
  get_result : String → Call
  enqueue_evaluate : EvaluateTaskPayload → Call
  enqueue_dlq : String → Bytes → Call
  evaluate_job : EvaluationInput → Call
  sleep : ℕ → Call
  -- `go rm.scheduleRetry(...)`, and the goroutine of `ProcessDLQJob` that requeues after a sleep.
  start_schedule_retry : String → EvaluateTaskPayload → RetryInfo → Call
  start_requeue : DlqJob → ℕ → Call
  -- The goroutine of `HandleEvaluate` that waits for its deadline.
  start_timeout_watch : String → Call

abbrev pub History : Type 0
History = List Call

pub record Env : Type 0 where
  pub create_job_reply : History → Job → Result String
  pub update_status_reply : History → String → JobStatus → Option Bytes → Option Error
  pub get_job_reply : History → String → Result Job
  pub find_by_idempotency_key_reply : History → String → Result Job
  pub create_upload_reply : History → Upload → Result String
  pub get_upload_reply : History → String → Result Upload
  pub upsert_result_reply : History → EvaluationResult → Option Error
  pub get_result_reply : History → String → Result EvaluationResult
  pub enqueue_evaluate_reply : History → EvaluateTaskPayload → Result String
  pub enqueue_dlq_reply : History → String → Bytes → Option Error
  pub evaluate_reply : History → EvaluationInput → Result EvaluationResult
  -- `json.Marshal` of a job for the dead-letter queue.
  pub marshal_dlq_job : DlqJob → Result Bytes
  -- The n-th reading of the clock.
  pub clock : ℕ → ℕ

pub record World : Type 0 where
  pub history : History
  pub readings : ℕ

abbrev pub M : Type 0 → Type 0
M A = World → A × World

infixl 5 ◌>>=◌ ◌>>◌
abbrev pub ◌>>=◌ : {A B : Type 0} → M A → (A → M B) → M B
◌>>=◌ m f w = let (a, w') = m w in f a w'

abbrev pub ◌>>◌ : {A B : Type 0} → M A → M B → M B
◌>>◌ m k w = let (a, w') = m w in k w'

abbrev pub pure : {A : Type 0} → A → M A
pure a w = (a, w)

-- A call enters the history after it is answered.
abbrev pub call : {A : Type 0} → (History → A) → Call → M A
call reply c w = (reply w.history, record w { history = c ∷ w.history })

abbrev pub note : Call → M (Unit {0})
note c w = (tt, record w { history = c ∷ w.history })

abbrev pub now : Env → M ℕ
now env w = (env.clock w.readings, record w { readings = w.readings + 1 })

module _ (env : Env) where
  abbrev pub do_update_status : String → JobStatus → Option Bytes → M (Option Error)
  do_update_status id s e = call (λ h. env.update_status_reply h id s e) (update_status id s e)

  abbrev pub do_get_job : String → M (Result Job)
  do_get_job id = call (λ h. env.get_job_reply h id) (get_job id)

  abbrev pub do_create_job : Job → M (Result String)
  do_create_job j = call (λ h. env.create_job_reply h j) (create_job j)

  abbrev pub do_find_by_idempotency_key : String → M (Result Job)
  do_find_by_idempotency_key key =
      call (λ h. env.find_by_idempotency_key_reply h key) (find_by_idempotency_key key)

  abbrev pub do_create_upload : Upload → M (Result String)
  do_create_upload u = call (λ h. env.create_upload_reply h u) (create_upload u)

  abbrev pub do_get_result : String → M (Result EvaluationResult)
  do_get_result id = call (λ h. env.get_result_reply h id) (get_result id)

  abbrev pub do_get_upload : String → M (Result Upload)
  do_get_upload id = call (λ h. env.get_upload_reply h id) (get_upload id)

  abbrev pub do_upsert_result : EvaluationResult → M (Option Error)
  do_upsert_result r = call (λ h. env.upsert_result_reply h r) (upsert_result r)

  abbrev pub do_evaluate : EvaluationInput → M (Result EvaluationResult)
  do_evaluate input = call (λ h. env.evaluate_reply h input) (evaluate_job input)

  abbrev pub do_enqueue_evaluate : EvaluateTaskPayload → M (Result String)
  do_enqueue_evaluate p = call (λ h. env.enqueue_evaluate_reply h p) (enqueue_evaluate p)

  abbrev pub do_enqueue_dlq : String → Bytes → M (Option Error)
  do_enqueue_dlq id d = call (λ h. env.enqueue_dlq_reply h id d) (enqueue_dlq id d)
