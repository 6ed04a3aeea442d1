-- ===== src/Usecase/Fetch.antt =====
-- internal/usecase/result.go: `Fetch` answers a request for a job's result. A JSON body is a data
-- type, and `makeETag`, the hash of its encoding, is a parameter.
use ai_cv_evaluator.Base.{
  ℕ, ◌*◌, String, ◌≡◌, refl, ap, ◌∙◌, inl, inr, Bool, true, false, ◌&&◌, ◌||◌, Option, none, some,
  [], ◌∷◌, ◌++◌, arith, if◌then◌else◌, Bool-cases, slt, time_sub, second, Bytes, codes, to_lower,
  has_prefix, has_infix, trim_space, bytes_eq, bytes_eq_refl,
}
use ai_cv_evaluator.Domain.{
  Error, ok, err, Result-cases, Sentinel, err_not_found, sentinel_message, Job, JobStatus,
  job_queued, job_processing, job_completed, job_failed, status_eq, EvaluationResult,
}
use ai_cv_evaluator.Failure.{FailureCode, upstream_timeout, error_code_from_job_error}
use ai_cv_evaluator.Effects.{
  Env, World, M, ◌>>=◌, ◌>>◌, pure, now, do_get_job, do_update_status, do_get_result, get_job,
  update_status,
}

pub data Body : Type 0 where
  pending : String → JobStatus → Body
  failed : String → FailureCode → Bytes → Body
  completed : String → EvaluationResult → Body

-- The status code, the body if any, the ETag, and the error if any.
pub record Response : Type 0 where
  pub code : ℕ
  pub body : Option Body
  pub etag : Bytes
  pub failure : Option Error

abbrev is_not_found : Option Sentinel → Bool
is_not_found (some err_not_found) = true
is_not_found _ = false

unfoldable pub job_not_found : Error
unfolding sentinel_message
job_not_found = record {
  cause = some err_not_found;
  message = sentinel_message err_not_found ++ codes ": job not found";
}

unfoldable pub job_error : Error → Response
job_error e =
    if is_not_found e.cause
    then record { code = 404; body = none; etag = []; failure = some job_not_found }
    else record { code = 500; body = none; etag = []; failure = some e }

abbrev pub stale_after : ℕ
stale_after = 300 * second

-- Queued since its creation, or processing since its last update, for more than five minutes.
unfoldable pub is_stale : Job → ℕ → Bool
is_stale job read =
    (status_eq job.status job_queued && slt stale_after (time_sub read job.created_at))
    || (status_eq job.status job_processing && slt stale_after (time_sub read job.updated_at))

abbrev pub stale_message : Bytes
stale_message = codes "timeout: job exceeded 5 minutes"

unfoldable pub status_body : String → Job → Body
status_body id job =
    if status_eq job.status job_failed
    then failed id (error_code_from_job_error job.error) job.error
    else pending id job.status

-- What the service knows of a job, before it looks at the client's tag.
pub data Outcome : Type 0 where
  body_of : Body → Outcome
  job_failure : Error → Outcome
  result_failure : Error → Outcome

module _ (env : Env) (make_etag : Body → Bytes) where
  -- The conditional answer: 304 without a body where the client's tag is the current one.
  unfoldable pub respond : Body → Bytes → Response
  respond body if_none_match =
      let tag = make_etag body in
      if bytes_eq tag if_none_match
      then record { code = 304; body = none; etag = tag; failure = none }
      else record { code = 200; body = some body; etag = tag; failure = none }

  unfoldable pub fetch_pending : String → Bytes → Job → M Response
  fetch_pending id if_none_match job = do
    read ← now env
    if is_stale job read
        then (do
          do_update_status env id job_failed (some stale_message)
          let job' : Job = record job { status = job_failed; error = stale_message }
          pure (respond (status_body id job') if_none_match))
        else pure (respond (status_body id job) if_none_match)

  unfoldable pub fetch_completed : String → Bytes → M Response
  fetch_completed id if_none_match = do
    found ← do_get_result env id
    elim found [
      | err e ↦ pure (record { code = 500; body = none; etag = []; failure = some e })
      | ok result ↦ pure (respond (completed id result) if_none_match)
    ]

  unfoldable pub fetch : String → Bytes → M Response
  fetch id if_none_match = do
    found ← do_get_job env id
    elim found [
      | err e ↦ pure (job_error e)
      | ok job ↦
          if status_eq job.status job_completed
          then fetch_completed id if_none_match
          else fetch_pending id if_none_match job
    ]

  -- The answer to a client that already holds the tag of an answer with status 200.
  abbrev pub not_modified : Response → Response
  not_modified r = record { code = 304; body = none; etag = r.etag; failure = none }

  outcome_pending : String → Job → M Outcome
  outcome_pending id job = do
    read ← now env
    if is_stale job read
        then (do
          do_update_status env id job_failed (some stale_message)
          let job' : Job = record job { status = job_failed; error = stale_message }
          pure (body_of (status_body id job')))
        else pure (body_of (status_body id job))

  outcome_completed : String → M Outcome
  outcome_completed id = do
    found ← do_get_result env id
    elim found [
      | err e ↦ pure (result_failure e)
      | ok result ↦ pure (body_of (completed id result))
    ]

  outcome : String → M Outcome
  outcome id = do
    found ← do_get_job env id
    elim found [
      | err e ↦ pure (job_failure e)
      | ok job ↦
          if status_eq job.status job_completed
          then outcome_completed id
          else outcome_pending id job
    ]

  answer : Outcome → Bytes → Response
  answer (body_of b) tag = respond b tag
  answer (job_failure e) tag = job_error e
  answer (result_failure e) tag = record { code = 500; body = none; etag = []; failure = some e }

  answer_again :
      (o : Outcome) (tag : Bytes)
      → (answer o tag).code ≡ 200
      → answer o (answer o tag).etag ≡ not_modified (answer o tag)
  unfolding answer respond job_error
  answer_again (body_of b) tag h = ground (arith, bytes_eq_refl (make_etag b))
  answer_again (job_failure e) tag h = ground arith
  answer_again (result_failure e) tag h = ground arith

  pending-answer :
      (id : String) (tag : Bytes) (job : Job) (w : World)
      → fetch_pending id tag job w
        ≡ (answer (outcome_pending id job w).0 tag, (outcome_pending id job w).1)
  unfolding fetch_pending outcome_pending answer
  pending-answer id tag job w = ground arith

  completed-answer :
      (id : String) (tag : Bytes) (w : World)
      → fetch_completed id tag w
        ≡ (answer (outcome_completed id w).0 tag, (outcome_completed id w).1)
  unfolding fetch_completed outcome_completed answer
  completed-answer id tag w = ground arith

  fetch-answer :
      (id : String) (tag : Bytes) (w : World)
      → fetch id tag w ≡ (answer (outcome id w).0 tag, (outcome id w).1)
  unfolding fetch outcome answer
  fetch-answer id tag w =
      let w1 : World = record w { history = get_job id ∷ w.history } in
      elim (Result-cases (env.get_job_reply w.history id)) [
        | inr (f, e) ↦ rw (e, fetch, outcome)
        | inl (job, e) ↦ elim (Bool-cases (status_eq job.status job_completed)) [
          | inl c ↦ rw (e, fetch, outcome) (rw c (completed-answer id tag w1))
          | inr c ↦ rw (e, fetch, outcome) (rw c (pending-answer id tag job w1))
        ]
      ]

  -- A conditional request round-trips: asked again at the same moment with the tag that came with
  -- a body, the service makes the same calls, and answers 304 with the tag and no body.
  pub fetch-fetch :
      (id : String) (tag : Bytes) (w : World)
      → (fetch id tag w).0.code ≡ 200
      → fetch id (fetch id tag w).0.etag w ≡ (not_modified (fetch id tag w).0, (fetch id tag w).1)
  fetch-fetch id tag w =
      rw (fetch-answer id tag w) λ h.
        fetch-answer id _ w ∙ ap (λ (r : Response). (r, (outcome id w).1)) (answer_again _ tag h)

  code_of_stale : error_code_from_job_error stale_message ≡ upstream_timeout
  unfolding error_code_from_job_error trim_space to_lower has_infix has_prefix
  code_of_stale = refl

  stale-not_completed :
      (job : Job) (read : ℕ) → is_stale job read ≡ true → status_eq job.status job_completed ≡ false
  unfolding is_stale
  stale-not_completed job read h = ground arith

  body_of_stale :
      (id : String) (job : Job)
      → status_body id (record job { status = job_failed; error = stale_message })
        ≡ failed id upstream_timeout stale_message
  unfolding status_body
  body_of_stale id job = ap (λ c. failed id c stale_message) code_of_stale

  -- A job that has been queued or processing for more than five minutes is marked failed by the
  -- request, and is reported as failed by a timeout of the upstream.
  pub fetch_stale :
      (id : String) (tag : Bytes) (w : World) (job : Job)
      → env.get_job_reply w.history id ≡ ok job
      → is_stale job (env.clock w.readings) ≡ true
      → ((fetch id tag w).1.history
          ≡ update_status id job_failed (some stale_message) ∷ get_job id ∷ w.history)
        × ((fetch id tag w).0 ≡ respond (failed id upstream_timeout stale_message) tag)
  unfolding fetch fetch_pending
  fetch_stale id tag w job found old =
      ground (
        arith,
        found,
        old,
        stale-not_completed job (env.clock w.readings) old,
        body_of_stale id job,
      )
