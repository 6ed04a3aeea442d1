-- ===== src/HttpServer/Handlers/ResultHandler.antt =====
-- internal/adapter/httpserver/handlers.go: `ResultHandler`, and what a client that asks twice is told.
use ai_cv_evaluator.Base.{
  String, ◌≡◌, inl, inr, not, Option, none, some, arith, str_eq, ◌==◌, if◌then◌else◌, Bool-cases,
  Option-cases, Bytes, codes,
}
use ai_cv_evaluator.Effects.{Env, World, M, ◌>>=◌, pure}
use ai_cv_evaluator.Usecase.Fetch.{Body, Response, fetch, fetch-fetch, not_modified}
use ai_cv_evaluator.HttpServer.Handlers.{
  Reply, Content, result_of, no_content, no_details, write_error, bad_request, is_acceptable,
  not_acceptable,
}

-- `writeJSON(w, status, res)`, where a missing body is the JSON `null`.
abbrev content_of : Option Body → Content
content_of none = no_content
content_of (some body) = result_of body

abbrev reply_of : Response → Reply
reply_of r = elim r.failure [
  | some e ↦ write_error e no_details
  | none ↦
      if r.code == 304
      then record { status = 304; etag = some r.etag; content = no_content }
      else record { status = r.code; etag = some r.etag; content = content_of r.body }
]

reply_of-found :
    (r : Response) (etag : Bytes)
    → (reply_of r).status ≡ 200
    → (reply_of r).etag ≡ some etag
    → (r.code ≡ 200) × (r.etag ≡ etag)
unfolding write_error
reply_of-found r etag h k = elim (Option-cases r.failure) [
  | inl e ↦ elim (Bool-cases (r.code == 304)) [
    | inl c ↦ ground (arith, h, e, c)
    | inr c ↦ (ground (arith, h, e, c), ground (arith, k, e, c))
  ]
  | inr (x, e) ↦ ground (arith, k, e)
]

module _ (env : Env) (make_etag : Body → Bytes) where
  -- `id` is the path's parameter.
  unfoldable pub result_handler : Bytes → String → Bytes → M Reply
  result_handler accept id if_none_match =
      if not (is_acceptable accept)
      then pure (not_acceptable accept)
      else if str_eq id ""
      then pure (write_error (bad_request (codes "id missing")) no_details)
      else (do r ← fetch env make_etag id if_none_match; pure (reply_of r))

  -- A client that sends the ETag of an answer with status 200 back, at the same moment, gets 304 with that
  -- ETag and no content, and the same calls are made.
  pub result_handler-result_handler :
      (accept tag etag : Bytes) (id : String) (w : World)
      → (result_handler accept id tag w).0.status ≡ 200
      → (result_handler accept id tag w).0.etag ≡ some etag
      → result_handler accept id etag w ≡ (
        record { status = 304; etag = some etag; content = no_content },
        (result_handler accept id tag w).1,
      )
  unfolding result_handler write_error
  result_handler-result_handler accept tag etag id w h k =
      let r = (fetch env make_etag id tag w).0 in
      elim (Bool-cases (is_acceptable accept)) [
        | inr e ↦ ground (arith, h, e)
        | inl e ↦ elim (Bool-cases (str_eq id "")) [
          | inl c ↦ ground (arith, k, e, c)
          | inr c ↦
              let found : (r.code ≡ 200) × (r.etag ≡ etag) =
                reply_of-found r etag (ground (arith, h, e, c)) (ground (arith, k, e, c)) in
              let again : fetch env make_etag id r.etag w
                  ≡ (not_modified env make_etag r, (fetch env make_etag id tag w).1) =
                fetch-fetch env make_etag id tag w found.0 in
              ground (arith, again, found.1, e, c)
        ]
      ]
