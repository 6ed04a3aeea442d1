-- ===== src/AiClient/Switching.antt =====
-- internal/adapter/ai/real/client.go: `chatJSONWithEnhancedModelSwitchingForKey`, which tries the free
-- models of OpenRouter one after the other. The call of a model is a parameter: it answers from the
-- state, and may change the state as it likes. The time-out of a call is one of its answers.
pub mod Attempts
pub mod Answers
use ai_cv_evaluator.Base.{
  ℕ, zero, suc, ◌+◌, ◌-◌, ◌*◌, ◌/◌, min, max, String, ap, Bool, false, not, ◌&&◌, Option, none,
  some, List, [], ◌∷◌, ◌++◌, ltb, leb, ◌==◌, if◌then◌else◌, length, take, drop, all, inc, sle,
  second, Bytes, lookup, insert,
}
use ai_cv_evaluator.RateLimit.{
  RateLimitCache, is_model_blocked, record_model_failure, record_model_success,
}
use ai_cv_evaluator.AiClient.Accounts.{Config, Accounts, is_open_router_account_blocked}
use ai_cv_evaluator.AiClient.Selection.{Blocks, available_models, waiting_models, index_of}
use ai_cv_evaluator.AiClient.Refusals.{detect_refusal}

pub data Reply : Type 0 where
  answered : Bytes → Reply
  failed timed_out : Reply

pub data Event : Type 0 where
  called : String → Event
  slept : ℕ → Event

-- The client's state, what was done, newest first, and the counters of the function.
pub record State : Type 0 where
  pub blocks : Blocks
  pub accounts : Accounts
  pub model_counter : ℕ
  pub events : List Event
  pub readings : ℕ
  pub model_failures : List (String × ℕ)
  pub models_tried : ℕ

abbrev pub Caller : Type 0
Caller = String → State → Reply × State

abbrev pub max_retries_per_model : ℕ
max_retries_per_model = 2

abbrev pub circuit_breaker_threshold : ℕ
circuit_breaker_threshold = 3

abbrev pub max_models_to_try : ℕ
max_models_to_try = 8

abbrev pub count_of : Option ℕ → ℕ
count_of none = 0
count_of (some n) = n

abbrev count_failure : String → State → State
count_failure id s = record s {
  model_failures = insert id (count_of (lookup id s.model_failures) + 1) s.model_failures;
}

abbrev on_blocks : (RateLimitCache → RateLimitCache) → Blocks → Blocks
on_blocks f none = none
on_blocks f (some rlc) = some (f rlc)

abbrev pub model_is_blocked : ℕ → String → Blocks → Bool
model_is_blocked now id none = false
model_is_blocked now id (some rlc) = is_model_blocked now id rlc

pub data Outcome : Type 0 where
  answer : Bytes → Outcome
  all_failed : ℕ → Outcome
  panicked : Outcome

module _ (clock : ℕ → ℕ) (call_model : Caller) where
  -- The two readings of the clock of `RecordFailure`.
  abbrev pub note_failure : String → State → State
  note_failure id s = count_failure id (record s {
    blocks =
        on_blocks (record_model_failure (clock s.readings) (clock (s.readings + 1)) id) s.blocks;
    readings = s.readings + 2;
  })

  -- What is done with the reply of a call. The `break` after a refusal leaves the `select` only, so
  -- that the loop over the attempts goes on.
  unfoldable pub judge : String → Reply → State → Option Bytes × State
  judge id (answered text) s =
      if detect_refusal text
      then (none, count_failure id s)
      else (some text, record s { blocks = on_blocks (record_model_success id) s.blocks })
  judge id failed s = (none, note_failure id s)
  judge id timed_out s = (none, note_failure id s)

  -- One attempt with one model.
  unfoldable pub try_once : String → State → Option Bytes × State
  unfolding judge
  try_once id s =
      let (reply, s') = call_model id (record s { events = called id ∷ s.events }) in
      judge id reply s'

  -- The attempts that are left after this one; `attempt` is its number.
  unfoldable pub try_model : ℕ → ℕ → String → State → Option Bytes × State
  try_model zero attempt id s = try_once id s
  try_model (suc left) attempt id s =
      let (found, s') = try_once id s in
      elim found [
        | some text ↦ (some text, s')
        | none ↦
            try_model left (attempt + 1) id
              (record s' { events = slept (attempt * 2 * second) ∷ s'.events })
      ]

  module _ (cfg : Config) (api_key : Bytes) where
    -- The loop over the models; the number of those that may still be tried bounds it.
    unfoldable pub switch_models : Bool → ℕ → List String → State → Option Bytes × State
    switch_models all_blocked zero ids s = (none, s)
    switch_models all_blocked (suc n) [] s = (none, s)
    switch_models all_blocked (suc n) (id ∷ ids) s =
        let later : State = record s { readings = s.readings + 2 } in
        if is_open_router_account_blocked cfg (clock s.readings) api_key s.accounts
        then (none, later)
        else if model_is_blocked (clock (s.readings + 1)) id s.blocks && not all_blocked
        then switch_models all_blocked n ids later
        else if leb circuit_breaker_threshold (count_of (lookup id s.model_failures))
        then switch_models all_blocked n ids later
        else (let (found, s') =
              try_model 1 1 id (record later { models_tried = s.models_tried + 1 }) in
            elim found [ some text ↦ (some text, s') | none ↦ switch_models all_blocked n ids s' ])

    -- The models in the order of trial, and the counter; `none` for a panic of the slice.
    unfoldable pub order_models : ℕ → List String → State → Option (List String) × State
    order_models now models s =
        let ready = available_models now s.blocks models in
        let waiting = waiting_models now s.blocks models in
        let counter = inc s.model_counter in
        if ltb 1 (length ready)
        then elim (index_of counter (length ready)) [
          | none ↦ (none, record s { model_counter = counter })
          | some offset ↦ (
            some ((drop offset ready ++ take offset ready) ++ waiting),
            record s { model_counter = counter },
          )
        ]
        else (some (ready ++ waiting), s)

    abbrev outcome_of : Option Bytes × State → Outcome × State
    outcome_of (some text, s) = (answer text, s)
    outcome_of (none, s) = (all_failed s.models_tried, s)

    unfoldable pub chat_with_switching : List String → State → Outcome × State
    chat_with_switching models s =
        let now = clock s.readings in
        let begun : State = record s {
          readings = s.readings + 1;
          model_failures = [];
          models_tried = 0;
        } in
        let all_blocked = length (available_models now s.blocks models) == 0 in
        let (ordered, s') = order_models now models begun in
        elim ordered [
          | none ↦ (panicked, s')
          | some ids ↦
              outcome_of (switch_models all_blocked (min max_models_to_try (length ids)) ids s')
        ]
