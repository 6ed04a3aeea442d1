-- ===== src/AiClient/GroqRequests.antt =====
-- internal/adapter/ai/real/client.go: `callGroqChatWithModel`, one request for one model of Groq. The
-- limiter and the provider answer from the state, as for OpenRouter; the provider's part takes in
-- the update of the limiter from the headers.
use ai_cv_evaluator.Base.{
  ℕ, zero, suc, ◌+◌, String, ◌≡◌, refl, ap, ◌∙◌, Bool, not, ◌&&◌, ◌||◌, Option, List, [], ◌∷◌, ◌++◌,
  ltb, leb, ◌==◌, if◌then◌else◌, slt, Bytes, codes, has_prefix, has_infix, trim_space, bytes_eq,
}
use ai_cv_evaluator.Domain.{Error, plain_error, wrap_error, Result, ok, err}
use ai_cv_evaluator.AiClient.Accounts.{
  Config, block_groq_account, is_groq_account_blocked, is_groq_configured, wait_over,
  block_groq_account-blocked,
}
use ai_cv_evaluator.AiClient.Switching.{State, Caller}
use ai_cv_evaluator.AiClient.Requests.{
  Gate, admitted, denied, HttpReply, no_connection, response, Body, streamed, unreadable,
  undecodable, decoded, Attempt, again, done, permanent,
}
use ai_cv_evaluator.AiClient.Providers.{try_groq_models}

module _ (clock : ℕ → ℕ) (decimal : ℕ → Bytes) (cfg : Config)
    (limiter : Bytes → State → Gate × State)
    (provider : Bytes → String → State → HttpReply × State) where
  abbrev pub block_groq : Bytes → ℕ → State → State
  block_groq key d s = record s {
    accounts = block_groq_account cfg (clock s.readings) key d s.accounts;
    readings = s.readings + 1;
  }

  abbrev pub read_groq_body : Body → Attempt
  read_groq_body (streamed (err e)) = again e
  read_groq_body (streamed (ok [])) =
      again (plain_error (codes "empty content from Groq streaming response"))
  read_groq_body (streamed (ok (c ∷ content))) = done ((c ∷ content) ∷ [])
  read_groq_body (unreadable e) = again e
  read_groq_body (undecodable e) = again e
  read_groq_body (decoded choices) = done choices

  abbrev pub groq_rate_limited : Error
  groq_rate_limited = plain_error (codes "rate limited: " ++ decimal 429)

  unfoldable pub on_groq_reply : Bytes → HttpReply → State → Attempt × State
  on_groq_reply key (no_connection e) s = (again e, s)
  on_groq_reply key (response status retry_after body) s =
      if status == 429
      then (permanent groq_rate_limited, block_groq key retry_after s)
      else if leb 400 status && ltb status 500
      then (permanent (plain_error (codes "chat status " ++ decimal status)), s)
      else if ltb status 200 || leb 300 status
      then (again (plain_error (codes "chat status " ++ decimal status)), s)
      else (read_groq_body body, s)

  unfoldable pub groq_attempt : Bytes → String → State → Attempt × State
  groq_attempt key model s =
      let (gate, s1) = limiter key s in
      elim gate [
        | denied retry_after ↦ (
          permanent (plain_error (codes "rate limited: global limiter")),
          block_groq key retry_after s1,
        )
        | admitted ↦ let (reply, s2) = provider key model s1 in on_groq_reply key reply s2
      ]

  -- `backoff.Retry`.
  unfoldable pub groq_retry : ℕ → Bytes → String → State → Result (List Bytes) × State
  groq_retry zero key model s =
      let (a, s') = groq_attempt key model s in
      elim a [ done choices ↦ (ok choices, s') | again e ↦ (err e, s') | permanent e ↦ (err e, s') ]
  groq_retry (suc n) key model s =
      let (a, s') = groq_attempt key model s in
      let rest = groq_retry n key model s' in
      elim a [ done choices ↦ (ok choices, s') | again e ↦ rest | permanent e ↦ (err e, s') ]

  unfoldable pub call_groq_with_model : ℕ → Bytes → String → State → Result Bytes × State
  call_groq_with_model retries key model s =
      let (result, s') = groq_retry retries key model s in
      elim result [
        | err e ↦ (err (wrap_error (codes "groq api failed: ") e), s')
        | ok choices ↦ elim choices [
          | [] ↦ (err (plain_error (codes "empty choices from Groq API")), s')
          | text ∷ others ↦ (ok text, s')
        ]
      ]

  groq_retry-rate_limited :
      (n : ℕ) (key : Bytes) (model : String) (s : State) (e : Error)
      → (groq_attempt key model s).0 ≡ permanent e
      → groq_retry n key model s ≡ (err e, (groq_attempt key model s).1)
  unfolding groq_retry
  groq_retry-rate_limited zero key model s e h = rw (h, groq_retry) (refl)
  groq_retry-rate_limited (suc n) key model s e h = rw (h, groq_retry) (refl)

  groq_attempt-rate_limited :
      (key : Bytes) (model : String) (s : State) (retry_after : ℕ) (body : Body)
      → (limiter key s).0 ≡ admitted
      → (provider key model (limiter key s).1).0 ≡ response 429 retry_after body
      → groq_attempt key model s ≡ (
        permanent groq_rate_limited,
        block_groq key retry_after (provider key model (limiter key s).1).1,
      )
  unfolding groq_attempt on_groq_reply
  groq_attempt-rate_limited key model s retry_after body gate_open limited =
      rw (gate_open, limited, groq_attempt) (refl)

  call_groq-rate_limited :
      (n : ℕ) (key : Bytes) (model : String) (s : State) (retry_after : ℕ) (body : Body)
      → (limiter key s).0 ≡ admitted
      → (provider key model (limiter key s).1).0 ≡ response 429 retry_after body
      → call_groq_with_model n key model s ≡ (
        err (wrap_error (codes "groq api failed: ") groq_rate_limited),
        block_groq key retry_after (provider key model (limiter key s).1).1,
      )
  unfolding call_groq_with_model
  call_groq-rate_limited n key model s retry_after body gate_open limited =
      let attempted : _ =
        groq_attempt-rate_limited key model s retry_after body gate_open limited in
      let stopped : groq_retry n key model s
          ≡ (err groq_rate_limited, (groq_attempt key model s).1) =
        groq_retry-rate_limited n key model s groq_rate_limited (ap (λ r. r.0) attempted) in
      let failure : Error = wrap_error (codes "groq api failed: ") groq_rate_limited in
      rw (ap (λ (r : Result (List Bytes) × State). r.0) stopped, call_groq_with_model)
        (ap (λ (t : State). (err failure, t))
          (ap (λ (r : Result (List Bytes) × State). r.1) stopped
            ∙ ap (λ (r : Attempt × State). r.1) attempted))

  tried-rate_limited :
      (is_test : Bool) (groq_models : Bytes → State → List String × State)
      (call_model : Bytes → Caller) (get_free_models : State → Result (List String) × State)
      (refresh : State → Option Error × State) (retries : ℕ) (key : Bytes) (last : Option Error)
      (model : String) (models : List String) (s : State) (retry_after : ℕ) (body : Body)
      → (limiter key s).0 ≡ admitted
      → (provider key model (limiter key s).1).0 ≡ response 429 retry_after body
      → try_groq_models clock cfg is_test decimal groq_models
          (call_groq_with_model retries)
          call_model
          get_free_models
          refresh
          key
          last
          (model ∷ models)
          s
        ≡ (
          err (wrap_error (codes "groq api failed: ") groq_rate_limited),
          block_groq key retry_after (provider key model (limiter key s).1).1,
        )
  unfolding try_groq_models call_groq_with_model has_infix has_prefix
  tried-rate_limited is_test groq_models call_model get_free_models refresh retries key last model
        models s retry_after body gate_open limited =
      let ended : _ =
        call_groq-rate_limited retries key model s retry_after body gate_open limited in
      let failure : Error = wrap_error (codes "groq api failed: ") groq_rate_limited in
      rw (ap (λ (r : Result Bytes × State). r.0) ended, try_groq_models)
        (ap (λ (t : State). (err failure, t)) (ap (λ (r : Result Bytes × State). r.1) ended))

  -- A response 429 of Groq ends the call of Groq at once: the request is not repeated, no further model
  -- is tried, and the caller is given the error of a rate limit. The account of a configured key is
  -- blocked until the time of the block plus the time that the response names, or plus a minute when it
  -- names none, in 64 bits (a sum of 0 stands for no block); the other account is left as it was, and
  -- nothing else of the state changes but the count of the clock's readings.
  pub rate_limit_ends :
      (is_test : Bool) (groq_models : Bytes → State → List String × State)
      (call_model : Bytes → Caller) (get_free_models : State → Result (List String) × State)
      (refresh : State → Option Error × State) (retries : ℕ) (key other : Bytes)
      (last : Option Error) (model : String) (models : List String) (s : State)
      (retry_after later : ℕ) (body : Body)
      → (limiter key s).0 ≡ admitted
      → (provider key model (limiter key s).1).0 ≡ response 429 retry_after body
      → let (result, left) =
          try_groq_models clock cfg is_test decimal groq_models
            (call_groq_with_model retries)
            call_model
            get_free_models
            refresh
            key
            last
            (model ∷ models)
            s in
        let answered : State = (provider key model (limiter key s).1).1 in
        (result
          ≡ err (
              wrap_error
                (codes "groq api failed: ")
                (plain_error (codes "rate limited: " ++ decimal 429))))
        × (is_groq_account_blocked cfg later other left.accounts ≡ (
            if is_groq_configured cfg key && bytes_eq (trim_space key) (trim_space other)
            then not (wait_over (clock answered.readings) retry_after == 0)
              && slt later (wait_over (clock answered.readings) retry_after)
            else is_groq_account_blocked cfg later other answered.accounts))
        × (left ≡ record answered { accounts = left.accounts; readings = answered.readings + 1 })
  rate_limit_ends is_test groq_models call_model get_free_models refresh retries key other last
        model models s retry_after later body gate_open limited =
      let answered : State = (provider key model (limiter key s).1).1 in
      rw
        (tried-rate_limited is_test groq_models call_model get_free_models refresh retries key last
          model models s retry_after body gate_open limited)
        (
          refl,
          block_groq_account-blocked cfg (clock answered.readings) later key other retry_after
              answered.accounts,
          refl,
        )
