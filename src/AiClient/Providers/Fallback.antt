-- ===== src/AiClient/Providers/Fallback.antt =====
-- internal/adapter/ai/real/client.go: which accounts `ChatJSONWithRetry` asks, and whose answer it
-- gives.
use ai_cv_evaluator.Base.{
  ℕ, String, ◌≡◌, ◌⊎◌, Bool, true, false, not, ◌&&◌, Option, none, some, List, [], ◌∷◌, ltb, ◌==◌,
  length, all, Bytes,
}
use ai_cv_evaluator.Domain.{Error, Result}
use ai_cv_evaluator.AiClient.Accounts.{Config, is_open_router_account_blocked}
use ai_cv_evaluator.AiClient.Switching.{State, Caller}
use ai_cv_evaluator.AiClient.Providers.Asking.{rank, is_asked, is_final}
use ai_cv_evaluator.AiClient.Providers.{
  Account, Asked, Chat, Session, ask_open_router, chat_with_retry, fails, finish, groq1, groq2,
  groq_accounts, is_configured, key_of, load_models, open_router1, open_router2,
  open_router_accounts,
}

-- The accounts were asked in their order, each at most once, and all of them are below `n`.
unfoldable pub is_ranked : ℕ → List Asked → Bool
is_ranked n [] = true
is_ranked n (x ∷ xs) = ltb (rank x.account) n && is_ranked (rank x.account) xs

abbrev pub is_failure : Asked → Bool
is_failure x = elim x.reply [ fails e ↦ true | _ ↦ false ]

-- An answer, or a panic, is the reply of the account asked last, and every account asked before it
-- failed; on a failure every account that was asked failed.
unfoldable pub IsFirstAnswer : Chat → List Asked → Type 0
IsFirstAnswer (fails e) xs = all is_failure xs ≡ true
IsFirstAnswer r [] = false ≡ true
IsFirstAnswer r (x ∷ xs) = (x.reply ≡ r) × (all is_failure xs ≡ true)

-- Only the accounts that have a key are asked.
unfoldable pub all_configured : Config → List Asked → Bool
all_configured cfg xs = all (λ x. is_configured cfg x.account) xs

module _ (cfg : Config) where
  unfoldable Holds : ℕ → Option Chat × Session → Type 0
  Holds n (none, s) =
      (all is_failure s.log ≡ true) × (is_ranked n s.log ≡ true) × (all_configured cfg s.log ≡ true)
  Holds n (some r, s) =
      IsFirstAnswer r s.log × (is_ranked n s.log ≡ true) × (all_configured cfg s.log ≡ true)

  module _ (clock : ℕ → ℕ) (is_test : Bool) (decimal : ℕ → Bytes)
      (groq_models : Bytes → State → List String × State)
      (groq_call : Bytes → String → State → Result Bytes × State) (call_model : Bytes → Caller)
      (get_free_models : State → Result (List String) × State)
      (refresh : State → Option Error × State) where
    abbrev pub groq_part : Session → Option Chat × Session
    groq_part =
        groq_accounts clock cfg is_test decimal groq_models groq_call call_model get_free_models
          refresh

    abbrev pub models_part : Session → List String × Session
    models_part =
        load_models clock cfg is_test decimal groq_models groq_call call_model get_free_models
          refresh

    abbrev pub first_open_router : Session → Option Chat × Session
    first_open_router s =
        ask_open_router clock cfg is_test decimal groq_models groq_call call_model get_free_models
          refresh open_router1 (models_part s).0 (models_part s).1

    abbrev pub open_router_part : Session → Option Chat × Session
    open_router_part =
        open_router_accounts clock cfg is_test decimal groq_models groq_call call_model
          get_free_models refresh

    abbrev pub retried : State → Chat × Session
    retried =
        chat_with_retry clock cfg is_test decimal groq_models groq_call call_model get_free_models
          refresh

    abbrev finished : Option Chat × Session → Chat × Session
    finished =
        finish clock cfg is_test decimal groq_models groq_call call_model get_free_models refresh

    -- The account has a key, there are models for it, and it is not blocked when the session has come
    -- to it.
    abbrev pub can_ask : Account → List String → Session → Bool
    can_ask a models s =
        is_configured cfg a
        && not (length models == 0)
        && not (
            is_open_router_account_blocked cfg (clock s.state.readings) (key_of cfg a)
              s.state.accounts)

    -- The first account of Groq is asked exactly if `free1`. The result is an answer or a panic, or the
    -- second account of Groq is asked exactly if `free2`, and each account of OpenRouter exactly if it
    -- can be when the function comes to it; `s` is the session after the accounts of Groq.
    abbrev pub AsksAll : Bool → Bool → Session → Chat × Session → Type 0
    AsksAll free1 free2 s y =
        (is_asked groq1 y.1.log ≡ free1)
        × ((is_final y.0 ≡ true)
            ⊎ ((is_asked groq2 y.1.log ≡ free2)
                × (is_asked open_router1 y.1.log
                    ≡ can_ask open_router1 (models_part s).0 (models_part s).1)
                × (is_asked open_router2 y.1.log
                    ≡ can_ask open_router2 (models_part s).0 (first_open_router s).1)))
