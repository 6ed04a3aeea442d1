-- ===== src/AiClient/Providers.antt =====
-- internal/adapter/ai/real/client.go: `ChatJSONWithRetry`, which asks the accounts of Groq, then those
-- of OpenRouter, until one answers; and `callGroqChat`. The calls of a model, the models that Groq
-- serves and the service of the free models answer from the state; a number is printed by `decimal`.
pub mod Asking
pub mod Fallback
use ai_cv_evaluator.Base.{
  ℕ, ◌+◌, ◌-◌, ◌/◌, ◌%◌, ◌<◌, String, ap, Bool, not, ◌&&◌, ◌||◌, Option, none, some, List, [], ◌∷◌,
  ◌++◌, ◌==◌, if◌then◌else◌, length, any, all, dec, second, Bytes, codes, has_infix, trim_space,
}
use ai_cv_evaluator.Domain.{Error, plain_error, Result, ok, err, err_invalid_argument}
use ai_cv_evaluator.AiClient.Accounts.{
  Config, Accounts, get_open_router_keys, is_groq_account_blocked, is_open_router_account_blocked,
}
use ai_cv_evaluator.AiClient.Switching.{
  State, Caller, Outcome, answer, all_failed, panicked, chat_with_switching,
}

pub data Account : Type 0 where
  groq1 groq2 open_router1 open_router2 : Account

pub data Chat : Type 0 where
  answers : Bytes → Chat
  fails : Error → Chat
  panics : Chat

pub record Asked : Type 0 where
  pub account : Account
  pub reply : Chat

-- The state with the accounts that were asked, newest first, and the two errors of the function.
pub record Session : Type 0 where
  pub state : State
  pub log : List Asked
  pub groq_err : Option Error
  pub or_err : Option Error

abbrev pub key_of : Config → Account → Bytes
key_of cfg groq1 = trim_space cfg.groq_api_key
key_of cfg groq2 = trim_space cfg.groq_api_key2
key_of cfg open_router1 = (get_open_router_keys cfg).0
key_of cfg open_router2 = (get_open_router_keys cfg).1

abbrev pub is_configured : Config → Account → Bool
is_configured cfg a = not (length (key_of cfg a) == 0)

-- `fmt.Errorf("text: %v; %w", e, before)`, or `e` when there is no error before it.
abbrev join_errors : Bytes → Error → Option Error → Error
join_errors text e none = e
join_errors text e (some before) = record {
  cause = before.cause;
  message = text ++ e.message ++ codes "; " ++ before.message;
}

abbrev pub note : Account → Error → Session → Session
note groq1 e s = record s { groq_err = some e }
note groq2 e s = record s {
  groq_err = some (join_errors (codes "groq secondary account failed: ") e s.groq_err);
}
note open_router1 e s = record s {
  or_err = some (join_errors (codes "openrouter primary account failed: ") e s.or_err);
}
note open_router2 e s = record s {
  or_err = some (join_errors (codes "openrouter secondary account failed: ") e s.or_err);
}

abbrev pub after_reply : Account → Chat → Session → Option Chat × Session
after_reply a (answers text) s = (some (answers text), s)
after_reply a (fails e) s = (none, note a e s)
after_reply a panics s = (some panics, s)

-- What follows a part of the function that did not return.
abbrev pub then_step :
    Option Chat × Session → (Session → Option Chat × Session) → Option Chat × Session
then_step (some r, s) f = (some r, s)
then_step (none, s) f = f s

abbrev or_first : Option Error → Error → Error
or_first none e = e
or_first (some before) e = before

abbrev message_of : Option Error → Bytes
message_of none = codes "<nil>"
message_of (some e) = e.message

abbrev pub ask : Account → (State → Chat × State) → Session → Option Chat × Session
ask a call s =
    let (reply, state') = call s.state in
    after_reply a reply
      (record s { state = state'; log = record { account = a; reply = reply } ∷ s.log })

abbrev pub ask_if : Bool → Account → (State → Chat × State) → Session → Option Chat × Session
ask_if b a call s = if b then ask a call s else (none, s)

-- The calls of the two accounts of Groq; `any` tells whether there is one with a key.
unfoldable pub groq_steps :
    Bool
    → Bool
    → Bool
    → (State → Chat × State)
    → (State → Chat × State)
    → Session
    → Option Chat × Session
groq_steps free1 free2 any call1 call2 s =
    if free1 || free2
    then then_step (ask_if free1 groq1 call1 s) (λ t. ask_if free2 groq2 call2 t)
    else if any
    then (
      none,
      record s {
        groq_err = some (plain_error (codes "groq rate limited and all accounts blocked"));
      },
    )
    else (none, s)

abbrev pub or_noted : Bytes → Session → Session
or_noted text s = record s { or_err = some (or_first s.or_err (plain_error text)) }

-- The calls of the two accounts of OpenRouter, and the error when neither left one.
unfoldable pub open_router_steps :
    (Session → Option Chat × Session)
    → (Session → Option Chat × Session)
    → Session
    → Option Chat × Session
open_router_steps ask1 ask2 s = then_step (then_step (ask1 s) ask2) (λ t. (
  none,
  or_noted (codes "openrouter chat failed: all configured accounts are rate limited or blocked") t,
))

module _ (clock : ℕ → ℕ) (cfg : Config) (is_test : Bool) (decimal : ℕ → Bytes)
    (groq_models : Bytes → State → List String × State)
    (groq_call : Bytes → String → State → Result Bytes × State) (call_model : Bytes → Caller)
    (get_free_models : State → Result (List String) × State)
    (refresh : State → Option Error × State) where
  abbrev default_groq_models : List String
  default_groq_models = "llama-3.1-8b-instant" ∷ "llama-3.3-70b-versatile" ∷ []

  unfoldable pub try_groq_models : Bytes → Option Error → List String → State → Result Bytes × State
  try_groq_models key last [] s =
      (err (or_first last (plain_error (codes "groq chat failed: no models attempted"))), s)
  try_groq_models key last (model ∷ models) s =
      let (reply, s') = groq_call key model s in
      elim reply [
        | ok text ↦ (ok text, s')
        | err e ↦
            let rest = try_groq_models key (some e) models s' in
            if has_infix e.message (codes "rate limited:") then (err e, s') else rest
      ]

  unfoldable pub call_groq_chat : Bytes → State → Result Bytes × State
  call_groq_chat api_key s =
      let key = trim_space api_key in
      let (served, s') = groq_models key s in
      if length key == 0
      then (
        err (record {
          cause = some err_invalid_argument;
          message = codes "invalid argument: GROQ_API_KEY missing";
        }),
        s,
      )
      else if is_test
      then try_groq_models key none default_groq_models s
      else if length served == 0
      then try_groq_models key none default_groq_models s'
      else try_groq_models key none served s'

  abbrev chat_of_result : Result Bytes → Chat
  chat_of_result (ok text) = answers text
  chat_of_result (err e) = fails e

  abbrev chat_of_outcome : Outcome → Chat
  chat_of_outcome (answer text) = answers text
  chat_of_outcome (all_failed n) = fails (
      plain_error (
        codes "all models failed after enhanced switching (tried "
        ++ decimal n
        ++ codes " models)"))
  chat_of_outcome panicked = panics

  abbrev pub call_groq : Account → State → Chat × State
  call_groq a s = let (r, s') = call_groq_chat (key_of cfg a) s in (chat_of_result r, s')

  abbrev pub call_open_router : Account → List String → State → Chat × State
  call_open_router a models s =
      let key = key_of cfg a in
      let (r, s') = chat_with_switching clock (call_model key) cfg key models s in
      (chat_of_outcome r, s')

  abbrev pub tick : Session → Session
  tick s = record s { state = record s.state { readings = s.state.readings + 1 } }

  abbrev pub groq_is_free : Account → Session → Bool
  groq_is_free a s =
      not (is_groq_account_blocked cfg (clock s.state.readings) (key_of cfg a) s.state.accounts)

  abbrev pub open_router_is_free : Account → Session → Bool
  open_router_is_free a s =
      not (
        is_open_router_account_blocked cfg (clock s.state.readings) (key_of cfg a) s.state.accounts)

  unfoldable pub groq_accounts : Session → Option Chat × Session
  groq_accounts s =
      let free1 = is_configured cfg groq1 && groq_is_free groq1 s in
      let free2 = is_configured cfg groq2 && groq_is_free groq2 (tick s) in
      let begun = tick (tick s) in
      groq_steps free1 free2 (is_configured cfg groq1 || is_configured cfg groq2) (call_groq groq1)
        (call_groq groq2) begun

  unfoldable pub unavailable : Bytes → Error → Session → List String × Session
  unavailable text e s = ([], record s { or_err = some (record e { message = text ++ e.message }) })

  -- The free models, after one refresh when they cannot be had.
  unfoldable pub free_models : Session → List String × Session
  free_models s =
      let (models, s1) = get_free_models s.state in
      let (failure, s2) = refresh s1 in
      let (again, s3) = get_free_models s2 in
      elim models [
        | ok ids ↦ (ids, record s { state = s1 })
        | err e ↦ elim failure [
          | some e' ↦
              unavailable (codes "openrouter free models unavailable: ") e (record s { state = s2 })
          | none ↦ elim again [
            | ok ids ↦ (ids, record s { state = s3 })
            | err e' ↦
                unavailable (codes "openrouter free models unavailable after refresh: ") e'
                  (record s { state = s3 })
          ]
        ]
      ]

  unfoldable pub ask_open_router : Account → List String → Session → Option Chat × Session
  ask_open_router a models s =
      ask_if (is_configured cfg a && not (length models == 0) && open_router_is_free a s) a
        (call_open_router a models) (tick s)

  -- The models for the accounts of OpenRouter; that there are none is an error.
  unfoldable pub load_models : Session → List String × Session
  load_models s =
      let (models, t) = free_models s in
      if length models == 0
      then (models, or_noted (codes "no free models available from OpenRouter API") t)
      else (models, t)

  unfoldable pub open_router_accounts : Session → Option Chat × Session
  open_router_accounts s =
      let (models, s2) = load_models s in
      if is_configured cfg open_router1 || is_configured cfg open_router2
      then open_router_steps (ask_open_router open_router1 models)
          (ask_open_router open_router2 models) s2
      else (none, s)

  unfoldable pub error_of : Bool → Bool → Session → Error
  error_of any_groq any_or s =
      let groq_error = or_first s.groq_err (plain_error []) in
      let or_error = or_first s.or_err (plain_error []) in
      if any_groq && any_or
      then record or_error {
        message =
            codes "groq chat failed: "
            ++ message_of s.groq_err
            ++ codes "; openrouter chat failed: "
            ++ or_error.message;
      }
      else if any_groq
      then groq_error
      else if any_or
      then or_error
      else record {
        cause = some err_invalid_argument;
        message = codes "invalid argument: no AI providers configured";
      }

  abbrev pub finish : Option Chat × Session → Chat × Session
  finish (some r, s) = (r, s)
  finish (none, s) = (
    fails (
        error_of (is_configured cfg groq1 || is_configured cfg groq2)
          (is_configured cfg open_router1 || is_configured cfg open_router2) s),
    s,
  )

  unfoldable pub chat_with_retry : State → Chat × Session
  chat_with_retry state =
      let s : Session = record { state = state; log = []; groq_err = none; or_err = none } in
      finish (then_step (groq_accounts s) open_router_accounts)
