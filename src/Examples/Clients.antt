-- ===== src/Examples/Clients.antt =====
-- The theorems on the AI client, the pool of workers and the checks of a request at concrete inputs.
use ai_cv_evaluator.Base.{
  ℕ, ◌+◌, ◌-◌, ◌*◌, ◌≤◌, String, ◌≡◌, refl, true, false, not, ◌&&◌, Option, none, some, List, [],
  ◌∷◌, ◌++◌, arith, str_eq, ltb, ◌==◌, if◌then◌else◌, length, slt, time_add, second, Bytes, codes,
  to_lower, has_prefix, has_infix, trim_left, trim_right, trim_space, bytes_eq, lookup,
}
use ai_cv_evaluator.Domain.{Result, ok, err, plain_error, wrap_error}
use ai_cv_evaluator.RateLimit.{new_rate_limit_cache}
use ai_cv_evaluator.AiClient.Accounts.{
  Config, Accounts, is_open_router_account_blocked, is_configured, is_groq_account_blocked,
  is_groq_configured, wait_over,
}
use ai_cv_evaluator.AiClient.Pacing.{
  round, mark, claims, IsForward, IsSpaced, wait_round, claims-IsSpaced,
}
use ai_cv_evaluator.AiClient.Selection.{select_model, available_models, waiting_models}
use ai_cv_evaluator.AiClient.Selection.Fairness.{select_model_in_turn}
use ai_cv_evaluator.AiClient.Refusals.{
  detect_refusal, is_refusal_response, is_refusal_by_pattern, is_low_quality_response,
  has_excessive_repetition, fields, fields_from, word_count, max_count,
}
use ai_cv_evaluator.AiClient.Switching.{
  answered, failed, State, Caller, chat_with_switching, model_is_blocked, order_models,
  switch_models, try_model, try_once, judge,
}
use ai_cv_evaluator.AiClient.Switching.Attempts.{calls, IsQuiet, chat_with_switching-calls}
use ai_cv_evaluator.AiClient.Switching.Answers.{chat_with_switching-accepted}
use ai_cv_evaluator.AiClient.Providers.{try_groq_models}
use ai_cv_evaluator.AiClient.GroqRequests.{call_groq_with_model, rate_limit_ends}
use ai_cv_evaluator.Consumer.Workers.{
  Pool, arrives, scales, takes, finishes, run, new_pool, step, scale_workers, add_workers,
  remove_workers, start_worker_pool,
}
use ai_cv_evaluator.Consumer.Workers.Range.{IsInRange, run-IsInRange}
use ai_cv_evaluator.Consumer.Workers.Leak.{IsStuck, run-IsStuck}
use ai_cv_evaluator.AiClient.Requests.{Gate, admitted, HttpReply, response, decoded, on_reply}
use ai_cv_evaluator.AiClient.Requests.RateLimits.{block_time, on_reply-blocked}

abbrev accounts : Config
accounts = record {
  groq_api_key = codes "g1";
  groq_api_key2 = [];
  open_router_api_key = codes "o1";
  open_router_api_key2 = codes "o2";
}

abbrev unblocked : Accounts
unblocked = record {
  groq1_blocked = 0;
  groq2_blocked = 0;
  open_router1_blocked = 0;
  open_router2_blocked = 0;
  open_router_blocked = 0;
  open_router_key_counter = 0;
}

abbrev idle_client : State
idle_client = record {
  blocks = some new_rate_limit_cache;
  accounts = unblocked;
  model_counter = 0;
  events = [];
  readings = 0;
  model_failures = [];
  models_tried = 0;
}

abbrev each_second : ℕ → ℕ
each_second n = (n + 1) * second

abbrev reply_text : Bytes
reply_text = codes "{\"cv_match_rate\": 0.8, \"cv_feedback\": \"solid work in go\"}"

-- The model `m` answers, and every other fails.
abbrev caller : Caller
caller id s = (if str_eq id "m" then answered reply_text else failed, s)

caller-IsQuiet : IsQuiet caller
unfolding IsQuiet
caller-IsQuiet id s = refl

abbrev groq_down : Bytes → String → State → Result Bytes × State
groq_down key model s = (err (plain_error (codes "rate limited: groq")), s)

chat_with_switching-calls_example :
    calls
      (chat_with_switching each_second caller accounts
        (codes "o1")
        ("k" ∷ "m" ∷ [])
        idle_client).1.events
    ≤ calls [] + 16
chat_with_switching-calls_example =
    chat_with_switching-calls each_second caller caller-IsQuiet accounts (codes "o1")
      ("k" ∷ "m" ∷ []) idle_client

chat_with_switching-accepted_example : detect_refusal reply_text ≡ false
unfolding chat_with_switching order_models switch_models try_model try_once judge available_models
    waiting_models is_open_router_account_blocked detect_refusal is_refusal_response
    is_refusal_by_pattern is_low_quality_response has_excessive_repetition fields fields_from
    word_count max_count trim_space trim_left trim_right has_infix has_prefix to_lower bytes_eq
    lookup
chat_with_switching-accepted_example =
    chat_with_switching-accepted each_second caller accounts (codes "o1") ("m" ∷ [])
      (record idle_client { blocks = none }) reply_text refl

claims-IsSpaced_example :
    IsSpaced 5 0 (claims 5 0 (round 0 7 ∷ round 0 9 ∷ round 7 12 ∷ mark 13 ∷ []))
unfolding IsForward wait_round
claims-IsSpaced_example =
    claims-IsSpaced 5 0 (round 0 7 ∷ round 0 9 ∷ round 7 12 ∷ mark 13 ∷ []) (omega arith)
      (omega arith, tt)

-- The pool at rest.
abbrev at_rest : ℕ → ℕ → ℕ → Pool
at_rest lo hi idle = record {
  min_workers = lo;
  max_workers = hi;
  active_workers = lo;
  queue_len = 0;
  idle = idle;
  busy = 0;
}

run-IsInRange_example : IsInRange 1 3 (run (arrives ∷ scales ∷ takes ∷ []) (at_rest 1 3 1))
run-IsInRange_example =
    run-IsInRange 1 3 (arrives ∷ scales ∷ takes ∷ []) (at_rest 1 3 1)
      (record { same_min = refl; same_max = refl; lower = omega arith; upper = omega arith })

abbrev stuck_pool : Pool
stuck_pool = record (at_rest 1 2 0) { active_workers = 2; queue_len = 2 }

-- Two workers end their records while the queue is empty, and both leave.
reaches_stuck :
    run
      (arrives ∷ arrives ∷ scales ∷ takes ∷ finishes ∷ finishes ∷ arrives ∷ arrives ∷ [])
      (new_pool 1 2)
    ≡ stuck_pool
unfolding run step scale_workers add_workers remove_workers new_pool start_worker_pool
reaches_stuck = refl

run-IsStuck_example : IsStuck (run (arrives ∷ scales ∷ takes ∷ finishes ∷ []) stuck_pool)
run-IsStuck_example =
    run-IsStuck (arrives ∷ scales ∷ takes ∷ finishes ∷ []) stuck_pool
      (record { none_idle = refl; none_busy = refl; full = refl; waiting = omega arith })

abbrev digits : Bytes → Option ℕ
digits (c ∷ []) = some (c - 48)
digits s = none

select_model_in_turn_example :
    (k : ℕ) × (1 ≤ k)
    × (k ≤ length (available_models 0 none ("a" ∷ "b" ∷ [])))
    × (fallbacks : List String) × (select_model 0 (3 + k) (ok []) none ("a" ∷ "b" ∷ [])
        ≡ some (record { selected = "b"; fallbacks = fallbacks }))
unfolding available_models
select_model_in_turn_example =
    select_model_in_turn 0 3 (ok []) none ("a" ∷ "b" ∷ []) "b" refl (omega arith)

on_reply-blocked_example :
    let left : State =
      (on_reply each_second
        (λ n. [])
        accounts
        (codes "o1")
        "m"
        (response 429 60 (decoded []))
        idle_client).1 in
    (model_is_blocked 9 "k" left.blocks ≡ (
      if str_eq "m" "k"
      then ltb 9 (time_add (each_second 1) (block_time new_rate_limit_cache 60))
      else model_is_blocked 9 "k" idle_client.blocks))
    × (is_open_router_account_blocked accounts 9 (codes "o2") left.accounts ≡ (
        if is_configured accounts (codes "o1")
          && bytes_eq (trim_space (codes "o1")) (trim_space (codes "o2"))
        then not (wait_over (each_second 2) 60 == 0) && slt 9 (wait_over (each_second 2) 60)
        else is_open_router_account_blocked accounts 9 (codes "o2") idle_client.accounts))
on_reply-blocked_example =
    on_reply-blocked each_second (λ n. []) accounts (codes "o1") (codes "o2") "m" "k" 60 9
      (decoded []) idle_client new_rate_limit_cache refl

abbrev always_admitted : Bytes → State → Gate × State
always_admitted key s = (admitted, s)

abbrev always_limited : Bytes → String → State → HttpReply × State
always_limited key model s = (response 429 60 (decoded []), s)

rate_limit_ends_example :
    let (result, left) =
      try_groq_models each_second accounts true
        (λ n. [])
        (λ key s. ([], s))
        (call_groq_with_model each_second (λ n. []) accounts always_admitted always_limited 3)
        (λ key. caller)
        (λ s. (ok [], s))
        (λ s. (none, s))
        (codes "g1")
        none
        ("a" ∷ "b" ∷ [])
        idle_client in
    (result
      ≡ err (wrap_error (codes "groq api failed: ") (plain_error (codes "rate limited: " ++ []))))
    × (is_groq_account_blocked accounts 9 (codes "g1") left.accounts ≡ (
        if is_groq_configured accounts (codes "g1")
          && bytes_eq (trim_space (codes "g1")) (trim_space (codes "g1"))
        then not (wait_over (each_second 0) 60 == 0) && slt 9 (wait_over (each_second 0) 60)
        else is_groq_account_blocked accounts 9 (codes "g1") unblocked))
    × (left ≡ record idle_client { accounts = left.accounts; readings = 0 + 1 })
rate_limit_ends_example =
    rate_limit_ends each_second (λ n. []) accounts always_admitted always_limited true
      (λ key s. ([], s)) (λ key. caller) (λ s. (ok [], s)) (λ s. (none, s)) 3 (codes "g1")
      (codes "g1") none "a" ("b" ∷ []) idle_client 60 9 (decoded []) refl refl
