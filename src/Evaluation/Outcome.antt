-- ===== src/Evaluation/Outcome.antt =====
-- internal/adapter/queue/redpanda/evaluation_handler.go: what has been called when
-- `HandleEvaluate` returns.
use ai_cv_evaluator.Base.{
  ℕ, zero, suc, ◌+◌, ◌*◌, String, ◌≡◌, refl, ◌⊎◌, inl, inr, Bool, true, false, none, some, ◌∷◌,
  arith, if◌then◌else◌, Bool-cases, Option-cases, second, codes,
}
use ai_cv_evaluator.Domain.{
  Error, Result, ok, err, Result-cases, Job, job_processing, job_completed, job_failed, status_eq,
  EvaluationResult, EvaluateTaskPayload, Upload,
}
use ai_cv_evaluator.Effects.{
  Env, EvaluationInput, World, History, update_status, get_job, upsert_result, evaluate_job,
  get_upload, sleep, start_timeout_watch,
}
use ai_cv_evaluator.Evaluation.{
  evaluate_attempts, store_result, run_attempts, load_uploads, process_job, deferred_cleanup,
  is_done, handle_evaluate, input_of,
}

module _ (env : Env) where
  -- The last call is to the AI pipeline, and the loop gives its answer.
  attempts-last :
      (left attempt : ℕ) (input : EvaluationInput) (w : World)
      → let (r, w') = evaluate_attempts env left attempt input w in
        (rest : History) × (w'.history ≡ evaluate_job input ∷ rest)
        × (r ≡ env.evaluate_reply rest input)
  unfolding evaluate_attempts
  attempts-last zero attempt input w = (w.history, refl, refl)
  attempts-last (suc left) attempt input w =
      elim (Result-cases (env.evaluate_reply w.history input)) [
        | inl (x, e) ↦ (w.history, ground arith, ground arith)
        | inr (f, e) ↦
            rw (e, evaluate_attempts)
              (attempts-last left (attempt + 1) input (record w {
                history = sleep (attempt * 2 * second) ∷ evaluate_job input ∷ w.history;
              }))
      ]

  -- The newest calls marked the job completed, after a result was stored, both without an error, and
  -- that result was the answer of the AI pipeline to `input`.
  pub record Stored (input : EvaluationInput) (h : History) : Type 0 where
    pub before : History
    pub result : EvaluationResult
    pub calls :
        h
        ≡ update_status input.job_id job_completed none
          ∷ upsert_result result
          ∷ evaluate_job input
          ∷ before
    pub answered : env.evaluate_reply before input ≡ ok result
    pub stored : env.upsert_result_reply (evaluate_job input ∷ before) result ≡ none
    pub marked :
        env.update_status_reply
          (upsert_result result ∷ evaluate_job input ∷ before)
          input.job_id
          job_completed
          none
        ≡ none

  -- The two uploads of the payload were found, one after the other, and the pipeline was given their
  -- texts and those of the payload.
  pub record Completed (payload : EvaluateTaskPayload) (h : History) : Type 0 where
    pub loaded : History
    pub cv_upload : Upload
    pub project_upload : Upload
    pub cv_found : env.get_upload_reply loaded payload.cv_id ≡ ok cv_upload
    pub project_found :
        env.get_upload_reply (get_upload payload.cv_id ∷ loaded) payload.project_id
        ≡ ok project_upload
    pub finished :
        Stored
          (record {
            cv_text = cv_upload.text;
            project_text = project_upload.text;
            job_description = payload.job_description;
            study_case_brief = payload.study_case_brief;
            scoring_rubric = payload.scoring_rubric;
            job_id = payload.job_id;
          })
          h

  store_result-calls :
      (job_id : String) (x : EvaluationResult) (w : World)
      → let (e, w') = store_result env job_id x w in
        e ≡ none
        → (w'.history ≡ update_status job_id job_completed none ∷ upsert_result x ∷ w.history)
          × (env.upsert_result_reply w.history x ≡ none)
          × (env.update_status_reply (upsert_result x ∷ w.history) job_id job_completed none ≡ none)
  unfolding store_result
  store_result-calls job_id x w h = (ground arith, ground arith, ground arith)

  run_attempts-Stored :
      (input : EvaluationInput) (w : World)
      → let (e, w') = run_attempts env input w in e ≡ none → Stored input w'.history
  unfolding run_attempts evaluate_attempts
  run_attempts-Stored input w =
      let (r, w') = evaluate_attempts env 2 1 input w in
      let (rest, calls, answer) = attempts-last 2 1 input w in
      elim (Result-cases r) [
        | inl (x, e) ↦
            rw (e, run_attempts)
              λ h. record {
                before = rest;
                result = x;
                calls = ground (arith, calls, store_result-calls input.job_id x w' h);
                answered = ground (arith, answer, e);
                stored = ground (arith, calls, store_result-calls input.job_id x w' h);
                marked = ground (arith, calls, store_result-calls input.job_id x w' h);
              }
        | inr (f, e) ↦ rw (e, run_attempts) λ h. ground arith
      ]

  load_uploads-Completed :
      (payload : EvaluateTaskPayload) (w : World)
      → let (e, w') = load_uploads env payload w in e ≡ none → Completed payload w'.history
  unfolding load_uploads input_of
  load_uploads-Completed payload w =
      elim (Result-cases (env.get_upload_reply w.history payload.cv_id)) [
        | inr (f, e) ↦ rw (e, load_uploads) λ h. ground arith
        | inl (cv, e) ↦
            let h1 : History = get_upload payload.cv_id ∷ w.history in
            elim (Result-cases (env.get_upload_reply h1 payload.project_id)) [
              | inr (f, d) ↦ rw (e, d, load_uploads) λ h. ground arith
              | inl (project, d) ↦
                  rw (e, d, load_uploads)
                    λ h. record {
                      loaded = w.history;
                      cv_upload = cv;
                      project_upload = project;
                      cv_found = e;
                      project_found = d;
                      finished =
                          run_attempts-Stored _
                            (record w { history = get_upload payload.project_id ∷ h1 }) h;
                    }
            ]
      ]

  process_job-Completed :
      (payload : EvaluateTaskPayload) (w : World)
      → let (e, w') = process_job env payload w in e ≡ none → Completed payload w'.history
  unfolding process_job
  process_job-Completed payload w =
      elim (Option-cases (env.update_status_reply w.history payload.job_id job_processing none)) [
        | inr (f, e) ↦ rw (e, process_job) λ h. ground arith
        | inl e ↦
            rw (e, process_job)
              (load_uploads-Completed payload (record w {
                history =
                    start_timeout_watch payload.job_id
                    ∷ update_status payload.job_id job_processing none
                    ∷ w.history;
              }))
      ]

  -- When `HandleEvaluate` returns no error, either the job was found completed or failed and
  -- nothing else was called; or both uploads of the payload were found, the AI pipeline was given
  -- their texts, and the last calls stored the pipeline's answer and then marked the job completed,
  -- each answered without an error.
  pub handle_evaluate-Completed :
      (payload : EvaluateTaskPayload) (w : World)
      → (handle_evaluate env payload w).0 ≡ none
      → let w' = (handle_evaluate env payload w).1 in
        ((is_done (env.get_job_reply w.history payload.job_id) ≡ true)
          × (w'.history ≡ get_job payload.job_id ∷ w.history))
        ⊎ Completed payload w'.history
  unfolding handle_evaluate process_job
  handle_evaluate-Completed payload w =
      let w1 : World = record w { history = get_job payload.job_id ∷ w.history } in
      elim (Bool-cases (is_done (env.get_job_reply w.history payload.job_id))) [
        | inl d ↦ rw (d, handle_evaluate) λ h. inl (refl, refl)
        | inr n ↦ elim (Option-cases (process_job env payload w1).0) [
          | inl e ↦ rw (n, e, handle_evaluate) λ h. inr (process_job-Completed payload w1 e)
          | inr (f, e) ↦ rw (n, e, handle_evaluate) λ h. ground arith
        ]
      ]

  abbrev is_processing : Result Job → Bool
  is_processing (ok job) = status_eq job.status job_processing
  is_processing (err e) = false

  -- The calls of the deferred function after `before`: it reads the job again, and marks it
  -- failed if it is found in processing.
  abbrev pub cleanup_calls : String → History → History
  cleanup_calls job_id before =
      if is_processing (env.get_job_reply before job_id)
      then update_status job_id job_failed
          (some (codes "job failed: evaluation did not reach a terminal state"))
        ∷ get_job job_id
        ∷ before
      else get_job job_id ∷ before

  deferred_cleanup-calls :
      (job_id : String) (w : World)
      → (deferred_cleanup env job_id w).1.history ≡ cleanup_calls job_id w.history
  unfolding deferred_cleanup
  deferred_cleanup-calls job_id w = ground arith

  -- When `HandleEvaluate` returns an error, its last calls read the job again, and mark it failed
  -- if it is found in processing.
  pub handle_evaluate_cleans :
      (payload : EvaluateTaskPayload) (w : World) {e : Error}
      → (handle_evaluate env payload w).0 ≡ some e
      → (before : History) × ((handle_evaluate env payload w).1.history
          ≡ cleanup_calls payload.job_id before)
  unfolding handle_evaluate process_job
  handle_evaluate_cleans payload w =
      let w1 : World = record w { history = get_job payload.job_id ∷ w.history } in
      let w2 : World = (process_job env payload w1).1 in
      elim (Bool-cases (is_done (env.get_job_reply w.history payload.job_id))) [
        | inl d ↦ rw (d, handle_evaluate) λ h. ground arith
        | inr n ↦ elim (Option-cases (process_job env payload w1).0) [
          | inl e ↦ rw (n, e, handle_evaluate) λ h. ground arith
          | inr (f, e) ↦
              rw (n, e, handle_evaluate) λ h. (w2.history, deferred_cleanup-calls payload.job_id w2)
        ]
      ]
