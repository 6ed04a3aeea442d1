-- ===== src/AiClient/Requests/RateLimits.antt =====
-- internal/adapter/ai/real/client.go: what a rate limit of the provider leaves behind.
use ai_cv_evaluator.Base.{
  ℕ, ◌+◌, String, ◌≡◌, not, ◌&&◌, some, str_eq, ltb, ◌==◌, if◌then◌else◌, slt, sle, time_add, Bytes,
  trim_space, bytes_eq,
}
use ai_cv_evaluator.RateLimit.{RateLimitCache}
use ai_cv_evaluator.RateLimit.Blocking.{record_rate_limit-blocked}
use ai_cv_evaluator.AiClient.Accounts.{
  Config, is_open_router_account_blocked, wait_over, is_configured, block_account-blocked,
}
use ai_cv_evaluator.AiClient.Switching.{State, model_is_blocked}
use ai_cv_evaluator.AiClient.Requests.{response, Body, on_reply}

-- The time for which a model is blocked: the default of the cache when the provider names none.
abbrev pub block_time : RateLimitCache → ℕ → ℕ
block_time rlc retry_after = if sle retry_after 0 then rlc.default_duration else retry_after

module _ (clock : ℕ → ℕ) (decimal : ℕ → Bytes) (cfg : Config) where
  -- A response 429 blocks the model for the time that the provider asks for, and leaves the other
  -- models as they were; it blocks the account of a configured key until the
  -- time of the block plus that time, or plus a minute, in 64 bits (a sum of 0 stands for no block), and
  -- leaves the other account as it was.
  pub on_reply-blocked :
      (key other : Bytes) (model id : String) (retry_after later : ℕ) (body : Body) (s : State)
      (rlc : RateLimitCache)
      → s.blocks ≡ some rlc
      → let left : State =
          (on_reply clock decimal cfg key model (response 429 retry_after body) s).1 in
        (model_is_blocked later id left.blocks ≡ (
          if str_eq model id
          then ltb later (time_add (clock (s.readings + 1)) (block_time rlc retry_after))
          else model_is_blocked later id s.blocks))
        × (is_open_router_account_blocked cfg later other left.accounts ≡ (
            if is_configured cfg key && bytes_eq (trim_space key) (trim_space other)
            then not (wait_over (clock (s.readings + 2)) retry_after == 0)
              && slt later (wait_over (clock (s.readings + 2)) retry_after)
            else is_open_router_account_blocked cfg later other s.accounts))
  unfolding on_reply
  on_reply-blocked key other model id retry_after later body s rlc e = (
    rw (e) (
        (record_rate_limit-blocked (clock s.readings) (clock (s.readings + 1)) later model id
          retry_after rlc).0),
    block_account-blocked cfg (clock (s.readings + 2)) later key other retry_after s.accounts,
  )
