-- ===== src/HttpServer/Handlers/EvaluateHandler.antt =====
-- internal/adapter/httpserver/handlers.go: `EvaluateHandler`, which validates a request, fills in the
-- defaults and has the evaluation enqueued. Reading the body as JSON is a parameter of a call, and the
-- runes of a text are counted for valid UTF-8.
use ai_cv_evaluator.Base.{
  ℕ, String, ◌≡◌, refl, ◌⊎◌, inl, inr, true, false, not, ◌&&◌, Option, none, some, List, [], ◌∷◌,
  ◌++◌, arith, str_eq, ltb, leb, ◌==◌, if◌then◌else◌, Bool-cases, length, keep, Bytes, codes,
}
use ai_cv_evaluator.Domain.{Error, ok, err, Result-cases, wrap_error}
use ai_cv_evaluator.Effects.{Env, World, M, ◌>>=◌, pure}
use ai_cv_evaluator.Usecase.Enqueue.{
  Request, enqueue, enqueue-err, NothingLeft, created_job, looked_up,
}
use ai_cv_evaluator.HttpServer.Handlers.{
  bad_request_refused, status_of-error, Reply, queued, no_details, fields, write_json, write_error,
  bad_request, is_acceptable, not_acceptable,
}

pub record EvaluateRequest : Type 0 where
  pub cv_id : String
  pub project_id : String
  pub job_description : Bytes
  pub study_case_brief : Bytes
  pub scoring_rubric : Bytes

-- The fields that `validate` rejects, with the tag of the rule.
abbrev required : Bytes → String → List (Bytes × Bytes)
required field s = if str_eq s "" then (field, codes "required") ∷ [] else []

-- The bytes that begin a rune: all but those from 128 to 191.
abbrev rune_count : Bytes → ℕ
rune_count s = length (keep (λ c. not (leb 128 c && ltb c 192)) s)

abbrev at_most_runes : ℕ → Bytes → Bytes → List (Bytes × Bytes)
at_most_runes bound field s = if ltb bound (rune_count s) then (field, codes "max") ∷ [] else []

unfoldable pub violations : EvaluateRequest → List (Bytes × Bytes)
violations d =
    required (codes "cvid") d.cv_id
    ++ (required (codes "projectid") d.project_id
        ++ (at_most_runes 5_000 (codes "jobdescription") d.job_description
            ++ (at_most_runes 5_000 (codes "studycasebrief") d.study_case_brief
                ++ at_most_runes 10_000 (codes "scoringrubric") d.scoring_rubric)))

-- The texts of the configuration that stand in for missing ones.
pub record Defaults : Type 0 where
  pub job_description : Bytes
  pub study_case_brief : Bytes
  pub scoring_rubric : Bytes

abbrev or_default : Bytes → Bytes → Bytes
or_default [] d = d
or_default (c ∷ s) d = c ∷ s

unfoldable pub request_of : Defaults → EvaluateRequest → String → String → Request
request_of defaults d idem_key request_id = record {
  cv_id = d.cv_id;
  project_id = d.project_id;
  job_desc = or_default d.job_description defaults.job_description;
  study_case = or_default d.study_case_brief defaults.study_case_brief;
  scoring_rubric = or_default d.scoring_rubric defaults.scoring_rubric;
  idem_key = idem_key;
  request_id = request_id;
}

module _ (env : Env) (defaults : Defaults) where
  abbrev enqueue_request : Request → M Reply
  enqueue_request r = do
    enqueued ← enqueue env r
    elim enqueued [
      | err e ↦ pure (write_error (wrap_error (codes "enqueue: ") e) no_details)
      | ok job_id ↦ pure (write_json 200 (queued job_id))
    ]

  -- `idem_key` is the header `Idempotency-Key`, and `request_id` the id in the context.
  unfoldable pub evaluate_handler : Bytes → Option EvaluateRequest → String → String → M Reply
  evaluate_handler accept decoded idem_key request_id =
      if not (is_acceptable accept) then pure (not_acceptable accept) else elim decoded [
        | none ↦ pure (write_error (bad_request (codes "invalid json")) no_details)
        | some d ↦
            if not (length (violations d) == 0)
            then pure
                (write_error (bad_request (codes "validation failed")) (fields (violations d)))
            else enqueue_request (request_of defaults d idem_key request_id)
      ]

  enqueue_request-world : (r : Request) (w : World) → (enqueue_request r w).1 ≡ (enqueue env r w).1
  enqueue_request-world r w = elim (Result-cases (enqueue env r w).0) [
    | inl (a, e) ↦ ground (arith, e)
    | inr (x, e) ↦ ground (arith, e)
  ]

  refused_enqueue :
      (x : Error)
      → ((write_error (wrap_error (codes "enqueue: ") x) no_details).status == 200) ≡ false
  unfolding write_error
  refused_enqueue x = status_of-error x.cause

  evaluate_handler_passed :
      (accept : Bytes) (d : EvaluateRequest) (idem_key request_id : String) (w : World)
      → is_acceptable accept ≡ true
      → (length (violations d) == 0) ≡ true
      → evaluate_handler accept (some d) idem_key request_id w
        ≡ enqueue_request (request_of defaults d idem_key request_id) w
  unfolding evaluate_handler
  evaluate_handler_passed accept d idem_key request_id w h k = ground (arith, h, k)

  -- When a request is not answered with 200, nothing was called, or the creation of the job was answered
  -- with an error and was the last call, or the job was created, the call that enqueues it was answered
  -- with an error, and the call that marks it failed followed, whose answer the code ignores.
  pub evaluate_handler_refused :
      (accept : Bytes) (decoded : Option EvaluateRequest) (idem_key request_id : String) (w : World)
      → ((evaluate_handler accept decoded idem_key request_id w).0.status == 200) ≡ false
      → ((evaluate_handler accept decoded idem_key request_id w).1 ≡ w)
        ⊎ ((r : Request) × NothingLeft env r
              (created_job env r w)
              (looked_up env r w.history)
              (evaluate_handler accept decoded idem_key request_id w).1.history)
  unfolding evaluate_handler
  evaluate_handler_refused accept none idem_key request_id w h = ground (arith, h)
  evaluate_handler_refused accept (some d) idem_key request_id w h =
      let r = request_of defaults d idem_key request_id in
      elim (Bool-cases (is_acceptable accept)) [
        | inr a ↦ ground (arith, a)
        | inl a ↦ elim (Bool-cases (length (violations d) == 0)) [
          | inr v ↦ ground (arith, a, v)
          | inl v ↦ elim (Result-cases (enqueue env r w).0) [
            | inl (job_id, e) ↦
                ground (arith, h, e, evaluate_handler_passed accept d idem_key request_id w a v)
            | inr (x, e) ↦
                rw
                  (
                    evaluate_handler_passed accept d idem_key request_id w a v,
                    enqueue_request-world r w,
                  )
                  (elim (enqueue-err env r w e) [ inl same ↦ inl same | inr left ↦ inr (r, left) ])
          ]
        ]
      ]

  -- An answer of 200 carries the id that the use case returned, for a request that was decoded, breaks no
  -- rule of the validation, and had the defaults put in for its missing texts.
  pub evaluate_handler_queued :
      (accept : Bytes) (decoded : Option EvaluateRequest) (idem_key request_id : String) (w : World)
      → (evaluate_handler accept decoded idem_key request_id w).0.status ≡ 200
      → (d : EvaluateRequest) × (job_id : String) × (decoded ≡ some d)
        × (violations d ≡ [])
        × ((evaluate_handler accept decoded idem_key request_id w).0
            ≡ write_json 200 (queued job_id))
        × (enqueue env (request_of defaults d idem_key request_id) w
            ≡ (ok job_id, (evaluate_handler accept decoded idem_key request_id w).1))
  unfolding evaluate_handler
  evaluate_handler_queued accept none idem_key request_id w h =
      elim (Bool-cases (is_acceptable accept)) [
        | inr a ↦ ground (arith, h, a)
        | inl a ↦ ground (arith, h, a, bad_request_refused (codes "invalid json") no_details)
      ]
  evaluate_handler_queued accept (some d) idem_key request_id w h =
      let r = request_of defaults d idem_key request_id in
      elim (Bool-cases (is_acceptable accept)) [
        | inr a ↦ ground (arith, h, a)
        | inl a ↦ elim (Bool-cases (length (violations d) == 0)) [
          | inr v ↦ ground (
            arith,
            h,
            a,
            v,
            bad_request_refused (codes "validation failed") (fields (violations d)),
          )
          | inl v ↦ elim (Result-cases (enqueue env r w).0) [
            | inr (x, e) ↦ ground (
              arith,
              h,
              e,
              evaluate_handler_passed accept d idem_key request_id w a v,
              refused_enqueue x,
            )
            | inl (job_id, e) ↦ (
              d,
              job_id,
              refl,
              ground (arith, v),
              ground (arith, e, evaluate_handler_passed accept d idem_key request_id w a v),
              ground (arith, e, evaluate_handler_passed accept d idem_key request_id w a v),
            )
          ]
        ]
      ]
