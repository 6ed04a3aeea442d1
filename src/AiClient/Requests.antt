-- ===== src/AiClient/Requests.antt =====
-- internal/adapter/ai/real/client.go: `callOpenRouterWithModelForKey`, one request for one model with
-- one key. The limiter and the provider answer from the state; the answer of the provider is its
-- status, the parsed `Retry-After` and what its body gives. `retries` is the number of times that the
-- back-off policy lets the operation run again.
pub mod RateLimits
pub mod Calls
use ai_cv_evaluator.Base.{
  ℕ, zero, suc, ◌+◌, ◌-◌, ◌/◌, min, String, ap, not, ◌&&◌, ◌||◌, Option, none, some, List, [], ◌∷◌,
  ◌++◌, ltb, leb, ◌==◌, if◌then◌else◌, length, all, wrap, dec, mul64, slt, sle, time_sub, second,
  Bytes, codes, trim_space,
}
use ai_cv_evaluator.Domain.{Error, plain_error, wrap_error, Result, ok, err, err_invalid_argument}
use ai_cv_evaluator.RateLimit.{RateLimitCache, record_model_failure, record_rate_limit}
use ai_cv_evaluator.AiClient.Accounts.{Config, Accounts, block_open_router_account}
use ai_cv_evaluator.AiClient.Switching.{State, Caller, Reply, answered, failed}

-- What `c.limiter` says; without a limiter, or when it fails, the call is made.
pub data Gate : Type 0 where
  admitted : Gate
  denied : ℕ → Gate

-- The body: a stream that was read, or a body that cannot be read, cannot be decoded, or holds the
-- contents of its choices.
pub data Body : Type 0 where
  streamed : Result Bytes → Body
  unreadable undecodable : Error → Body
  decoded : List Bytes → Body

pub data HttpReply : Type 0 where
  no_connection : Error → HttpReply
  response : ℕ → ℕ → Body → HttpReply

-- `op` returns nil with the choices, an error that is retried, or one that is not.
pub data Attempt : Type 0 where
  done : List Bytes → Attempt
  again permanent : Error → Attempt

-- `strconv.Atoi` and `http.ParseTime` are parameters.
unfoldable pub parse_retry_after : (Bytes → Option ℕ) → (Bytes → Option ℕ) → ℕ → Bytes → ℕ
parse_retry_after atoi parse_time now [] = 0
parse_retry_after atoi parse_time now (c ∷ v) =
    let by_time : ℕ = elim (parse_time (c ∷ v)) [
      | none ↦ 0
      | some t ↦ if slt (time_sub t now) 0 then 0 else time_sub t now
    ] in
    elim (atoi (trim_space (c ∷ v))) [
      | none ↦ by_time
      | some secs ↦ if sle 0 secs then mul64 secs second else by_time
    ]

module _ (clock : ℕ → ℕ) (decimal : ℕ → Bytes) (cfg : Config) where
  -- `c.rlc.RecordFailure(model)`, when there is a cache.
  abbrev pub note_model_failure : String → State → State
  note_model_failure model s = record s {
    blocks = elim s.blocks [
      | none ↦ none
      | some rlc ↦ some (record_model_failure (clock s.readings) (clock (s.readings + 1)) model rlc)
    ];
    readings = s.readings + 2;
  }

  abbrev pub note_rate_limit : String → ℕ → State → State
  note_rate_limit model retry_after s = record s {
    blocks = elim s.blocks [
      | none ↦ none
      | some rlc ↦
          some (record_rate_limit (clock s.readings) (clock (s.readings + 1)) model retry_after rlc)
    ];
    readings = s.readings + 2;
  }

  abbrev pub block_account : Bytes → ℕ → State → State
  block_account key d s = record s {
    accounts = block_open_router_account cfg (clock s.readings) key d s.accounts;
    readings = s.readings + 1;
  }

  abbrev chat_status : ℕ → Error
  chat_status status = plain_error (codes "chat status " ++ decimal status)

  -- The body of a response with a status from 200 to 299.
  abbrev read_body : String → Body → State → Attempt × State
  read_body model (streamed (err e)) s = (again e, note_model_failure model s)
  read_body model (streamed (ok [])) s = (
    again (plain_error (codes "openrouter streaming response empty for model " ++ codes model)),
    note_model_failure model s,
  )
  read_body model (streamed (ok (c ∷ content))) s = (done ((c ∷ content) ∷ []), s)
  read_body model (unreadable e) s = (again e, s)
  read_body model (undecodable e) s = (again e, note_model_failure model s)
  read_body model (decoded choices) s = (done choices, s)

  -- What `op` does with the answer of the provider.
  unfoldable pub on_reply : Bytes → String → HttpReply → State → Attempt × State
  on_reply key model (no_connection e) s = (again e, s)
  on_reply key model (response status retry_after body) s =
      if status == 429
      then (
        again (plain_error (codes "rate limited: 429")),
        block_account key retry_after (note_rate_limit model retry_after s),
      )
      else if leb 400 status && ltb status 500
      then (permanent (chat_status status), note_model_failure model s)
      else if ltb status 200 || leb 300 status
      then (again (chat_status status), note_model_failure model s)
      else read_body model body s

  module _ (limiter : Bytes → State → Gate × State)
      (provider : Bytes → String → State → HttpReply × State) where
    unfoldable pub attempt : Bytes → String → State → Attempt × State
    attempt key model s =
        let (gate, s1) = limiter key s in
        elim gate [
          | denied retry_after ↦ (
            permanent (plain_error (codes "rate limited: global limiter")),
            block_account key retry_after s1,
          )
          | admitted ↦ let (reply, s2) = provider key model s1 in on_reply key model reply s2
        ]

    -- `backoff.Retry`.
    unfoldable pub retry : ℕ → Bytes → String → State → Result (List Bytes) × State
    retry zero key model s =
        let (a, s') = attempt key model s in
        elim a [
          | done choices ↦ (ok choices, s')
          | again e ↦ (err e, s')
          | permanent e ↦ (err e, s')
        ]
    retry (suc n) key model s =
        let (a, s') = attempt key model s in
        let rest = retry n key model s' in
        elim a [ done choices ↦ (ok choices, s') | again e ↦ rest | permanent e ↦ (err e, s') ]

    unfoldable pub call_open_router_with_model : ℕ → Bytes → String → State → Result Bytes × State
    call_open_router_with_model retries api_key model s =
        let key = trim_space api_key in
        let (result, s') = retry retries key model s in
        if length key == 0
        then (
          err (record {
            cause = some err_invalid_argument;
            message = codes "invalid argument: OPENROUTER_API_KEY missing";
          }),
          s,
        )
        else elim result [
          | err e ↦ (
            err (
                wrap_error (codes "openrouter api failed for model " ++ codes model ++ codes ": ")
                  e),
            s',
          )
          | ok choices ↦ elim choices [
            | [] ↦ (
              err (
                  plain_error
                    (codes "openrouter api returned empty choices for model " ++ codes model)),
              s',
            )
            | text ∷ others ↦ (ok text, s')
          ]
        ]

    abbrev reply_of : Result Bytes → Reply
    reply_of (ok text) = answered text
    reply_of (err e) = failed

    -- The call that the switching between models makes.
    unfoldable pub request : ℕ → Bytes → Caller
    request retries api_key id s =
        let (r, s') = call_open_router_with_model retries api_key id s in (reply_of r, s')
