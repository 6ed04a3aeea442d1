-- ===== src/AiClient/Requests/Calls.antt =====
-- internal/adapter/ai/real/client.go: the switching between models with the requests that it makes.
use ai_cv_evaluator.Base.{
  ℕ, zero, suc, ◌+◌, ◌≤◌, String, ◌≡◌, refl, ◌∙◌, ◌⊎◌, inl, inr, List, [], ◌∷◌, arith, Bytes,
  trim_space,
}
use ai_cv_evaluator.Domain.{Error, Result, ok, err, Result-cases}
use ai_cv_evaluator.AiClient.Accounts.{Config}
use ai_cv_evaluator.AiClient.Switching.{State, chat_with_switching}
use ai_cv_evaluator.AiClient.Switching.Attempts.{IsQuiet, calls, chat_with_switching-calls}
use ai_cv_evaluator.AiClient.Requests.{
  Gate, admitted, denied, HttpReply, no_connection, response, streamed, unreadable, undecodable,
  decoded, Attempt, again, done, permanent, on_reply, attempt, retry, call_open_router_with_model,
  request,
}

Gate-cases : (g : Gate) → (g ≡ admitted) ⊎ ((d : ℕ) × (g ≡ denied d))
Gate-cases admitted = inl refl
Gate-cases (denied d) = inr (d, refl)

Attempt-cases :
    (a : Attempt)
    → ((choices : List Bytes) × (a ≡ done choices))
      ⊎ (((e : Error) × (a ≡ again e)) ⊎ ((e : Error) × (a ≡ permanent e)))
Attempt-cases (done choices) = inl (choices, refl)
Attempt-cases (again e) = inr (inl (e, refl))
Attempt-cases (permanent e) = inr (inr (e, refl))

module _ (clock : ℕ → ℕ) (decimal : ℕ → Bytes) (cfg : Config) where
  on_reply-events :
      (key : Bytes) (model : String) (r : HttpReply) (s : State)
      → (on_reply clock decimal cfg key model r s).1.events ≡ s.events
  unfolding on_reply
  on_reply-events key model (no_connection e) s = refl
  on_reply-events key model (response status retry_after (streamed (err e))) s = ground arith
  on_reply-events key model (response status retry_after (streamed (ok []))) s = ground arith
  on_reply-events key model (response status retry_after (streamed (ok (c ∷ t)))) s = ground arith
  on_reply-events key model (response status retry_after (unreadable e)) s = ground arith
  on_reply-events key model (response status retry_after (undecodable e)) s = ground arith
  on_reply-events key model (response status retry_after (decoded choices)) s = ground arith

  module _ (limiter : Bytes → State → Gate × State)
      (provider : Bytes → String → State → HttpReply × State)
      (quiet_limiter : (key : Bytes) (s : State) → (limiter key s).1.events ≡ s.events)
      (quiet_provider : (key : Bytes) (model : String) (s : State)
        → (provider key model s).1.events ≡ s.events) where
    attempt-events :
        (key : Bytes) (model : String) (s : State)
        → (attempt clock decimal cfg limiter provider key model s).1.events ≡ s.events
    unfolding attempt
    attempt-events key model s =
        let s1 : State = (limiter key s).1 in
        elim (Gate-cases (limiter key s).0) [
          | inl e ↦
              rw (e, attempt)
                (on_reply-events key model (provider key model s1).0 (provider key model s1).1
                  ∙ quiet_provider key model s1
                  ∙ quiet_limiter key s)
          | inr (d, e) ↦ rw (e, attempt) (quiet_limiter key s)
        ]

    retry-events :
        (n : ℕ) (key : Bytes) (model : String) (s : State)
        → (retry clock decimal cfg limiter provider n key model s).1.events ≡ s.events
    unfolding retry
    retry-events zero key model s =
        elim (Attempt-cases (attempt clock decimal cfg limiter provider key model s).0) [
          | inl (c, e) ↦ rw (e, retry) (attempt-events key model s)
          | inr (inl (x, e)) ↦ rw (e, retry) (attempt-events key model s)
          | inr (inr (x, e)) ↦ rw (e, retry) (attempt-events key model s)
        ]
    retry-events (suc n) key model s =
        let s' : State = (attempt clock decimal cfg limiter provider key model s).1 in
        elim (Attempt-cases (attempt clock decimal cfg limiter provider key model s).0) [
          | inl (c, e) ↦ rw (e, retry) (attempt-events key model s)
          | inr (inl (x, e)) ↦
              rw (e, retry) (retry-events n key model s' ∙ attempt-events key model s)
          | inr (inr (x, e)) ↦ rw (e, retry) (attempt-events key model s)
        ]

    call_open_router_with_model-events :
        (n : ℕ) (key : Bytes) (model : String) (s : State)
        → (call_open_router_with_model clock decimal cfg limiter provider n key model s).1.events
          ≡ s.events
    unfolding call_open_router_with_model
    call_open_router_with_model-events n key model s =
        let tried : Result (List Bytes) × State =
          retry clock decimal cfg limiter provider n (trim_space key) model s in
        let same : _ = retry-events n (trim_space key) model s in
        elim (Result-cases tried.0) [
          | inl ([], e) ↦ rw (e, call_open_router_with_model) (ground (arith, same))
          | inl (c ∷ cs, e) ↦ rw (e, call_open_router_with_model) (ground (arith, same))
          | inr (x, e) ↦ rw (e, call_open_router_with_model) (ground (arith, same))
        ]

    -- With its real requests the switching makes sixteen attempts at most, however often the back-off
    -- policy repeats each.
    pub chat_with_requests-calls :
        (retries : ℕ) (api_key : Bytes) (models : List String) (s : State)
        → calls
            (chat_with_switching clock
              (request clock decimal cfg limiter provider retries api_key)
              cfg
              api_key
              models
              s).1.events
          ≤ calls s.events + 16
    unfolding request IsQuiet
    chat_with_requests-calls retries api_key models s =
        chat_with_switching-calls clock (request clock decimal cfg limiter provider retries api_key)
          quiet cfg api_key models s
      where
        quiet : IsQuiet (request clock decimal cfg limiter provider retries api_key)
        quiet id t = call_open_router_with_model-events retries api_key id t
