-- ===== src/Usecase/Enqueue.antt =====
-- internal/usecase/evaluate.go: `Enqueue` creates a job and enqueues its evaluation. The request
-- identifier that the source reads from the context is an argument.
use ai_cv_evaluator.Base.{
  ℕ, ◌+◌, String, ◌≡◌, refl, ◌⊎◌, inl, inr, ◌||◌, Option, none, some, [], ◌∷◌, ◌++◌, arith, str_eq,
  if◌then◌else◌, Bool-cases, Option-cases, Bytes, codes,
}
use ai_cv_evaluator.Domain.{
  Error, Result, ok, err, Result-cases, err_invalid_argument, sentinel_message, Job, job_queued,
  job_failed, EvaluateTaskPayload,
}
use ai_cv_evaluator.Effects.{
  Env, World, History, M, ◌>>=◌, ◌>>◌, pure, now, do_find_by_idempotency_key, do_create_job,
  do_enqueue_evaluate, do_update_status, find_by_idempotency_key, create_job, enqueue_evaluate,
  update_status,
}

pub record Request : Type 0 where
  pub cv_id : String
  pub project_id : String
  pub job_desc : Bytes
  pub study_case : Bytes
  pub scoring_rubric : Bytes
  pub idem_key : String
  pub request_id : String

unfoldable pub ids_required : Error
unfolding sentinel_message
ids_required = record {
  cause = some err_invalid_argument;
  message = sentinel_message err_invalid_argument ++ codes ": ids required";
}

unfoldable pub new_job : Request → ℕ → ℕ → Job
new_job r created updated = record {
  id = "";
  status = job_queued;
  error = [];
  created_at = created;
  updated_at = updated;
  cv_id = r.cv_id;
  project_id = r.project_id;
  idem_key = if str_eq r.idem_key "" then none else some r.idem_key;
}

unfoldable pub payload_of : Request → String → EvaluateTaskPayload
payload_of r job_id = record {
  job_id = job_id;
  cv_id = r.cv_id;
  project_id = r.project_id;
  job_description = r.job_desc;
  study_case_brief = r.study_case;
  scoring_rubric = r.scoring_rubric;
  request_id = r.request_id;
}

-- `err == nil && j.ID != ""`.
abbrev pub known_job : Result Job → Option String
known_job (ok j) = if str_eq j.id "" then none else some j.id
known_job (err e) = none

module _ (env : Env) where
  unfoldable pub create_and_enqueue : Request → M (Result String)
  create_and_enqueue r = do
    created ← now env
    updated ← now env
    made ← do_create_job env (new_job r created updated)
    elim made [
      | err e ↦ pure (err e)
      | ok job_id ↦ do
        sent ← do_enqueue_evaluate env (payload_of r job_id)
        elim sent [
          | err e ↦ do
            do_update_status env job_id job_failed (some (codes "enqueue failed"))
            pure (err e)
          | ok task ↦ pure (ok job_id)
        ]
    ]

  unfoldable pub enqueue : Request → M (Result String)
  enqueue r =
      if str_eq r.cv_id "" || str_eq r.project_id ""
      then pure (err ids_required)
      else if str_eq r.idem_key ""
      then create_and_enqueue r
      else (do
        found ← do_find_by_idempotency_key env r.idem_key
        elim (known_job found) [ some job_id ↦ pure (ok job_id) | none ↦ create_and_enqueue r ])

  -- The history when the job is created: the key was looked up if there is one.
  abbrev pub looked_up : Request → History → History
  looked_up r h = if str_eq r.idem_key "" then h else find_by_idempotency_key r.idem_key ∷ h

  abbrev pub created_job : Request → World → Job
  created_job r w = new_job r (env.clock w.readings) (env.clock (w.readings + 1))

  -- The job was created under this id and its evaluation was enqueued, both without an error.
  abbrev pub Enqueued : Request → Job → History → String → History → Type 0
  Enqueued r j h job_id h' =
      (env.create_job_reply h j ≡ ok job_id)
      × ((task : String) × (env.enqueue_evaluate_reply (create_job j ∷ h) (payload_of r job_id)
            ≡ ok task))
      × (h' ≡ enqueue_evaluate (payload_of r job_id) ∷ create_job j ∷ h)

  -- The creation of the job was answered with an error and was the last call; or the job was created,
  -- the call that enqueues it was answered with an error, and the call that marks it failed followed,
  -- whose answer the code ignores.
  abbrev pub NothingLeft : Request → Job → History → History → Type 0
  NothingLeft r j h h' =
      ((e : Error) × (env.create_job_reply h j ≡ err e) × (h' ≡ create_job j ∷ h))
      ⊎ ((job_id : String) × (env.create_job_reply h j ≡ ok job_id)
          × ((f : Error) × (env.enqueue_evaluate_reply (create_job j ∷ h) (payload_of r job_id)
                ≡ err f))
          × (h'
              ≡ update_status job_id job_failed (some (codes "enqueue failed"))
                ∷ enqueue_evaluate (payload_of r job_id)
                ∷ create_job j
                ∷ h))

  create_and_enqueue-err :
      (r : Request) (w : World) {e : Error}
      → (create_and_enqueue r w).0 ≡ err e
      → NothingLeft r (created_job r w) w.history (create_and_enqueue r w).1.history
  unfolding create_and_enqueue
  create_and_enqueue-err r w {e = f} =
      elim (Result-cases (env.create_job_reply w.history (created_job r w))) [
        | inr (g, e) ↦ rw (e, create_and_enqueue) λ h. inl (g, refl, refl)
        | inl (job_id, e) ↦ λ h.
            elim (Result-cases (
              env.enqueue_evaluate_reply (create_job (created_job r w) ∷ w.history)
                (payload_of r job_id))) [
                  | inl (task, d) ↦ ground (arith, e, d, h)
                  | inr (g, d) ↦ inr (job_id, e, (g, d), ground (arith, e, d, h))
                ]
      ]

  -- When a request fails, nothing was called, or the creation of the job was answered with an error and
  -- was the last call, or the job was created, the call that enqueues it was answered with an error,
  -- and the call that marks it failed followed, whose answer the code ignores.
  pub enqueue-err :
      (r : Request) (w : World) {e : Error}
      → (enqueue r w).0 ≡ err e
      → ((enqueue r w).1 ≡ w)
        ⊎ NothingLeft r (created_job r w) (looked_up r w.history) (enqueue r w).1.history
  unfolding enqueue
  enqueue-err r w {e = f} =
      let w1 : World = record w { history = find_by_idempotency_key r.idem_key ∷ w.history } in
      elim (Bool-cases (str_eq r.cv_id "" || str_eq r.project_id "")) [
        | inl c ↦ rw (c, enqueue) λ h. inl refl
        | inr c ↦ elim (Bool-cases (str_eq r.idem_key "")) [
          | inl k ↦ rw (c, k, enqueue) λ h. inr (create_and_enqueue-err r w h)
          | inr k ↦
              elim (Option-cases
                (known_job (env.find_by_idempotency_key_reply w.history r.idem_key))) [
                  | inl e ↦ rw (c, k, e, enqueue) λ h. inr (create_and_enqueue-err r w1 h)
                  | inr (known, e) ↦ rw (c, k, e, enqueue) λ h. ground arith
                ]
        ]
      ]
