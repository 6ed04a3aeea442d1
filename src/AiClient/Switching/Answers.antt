-- ===== src/AiClient/Switching/Answers.antt =====
-- internal/adapter/ai/real/client.go: the answers that the switching between models accepts.
use ai_cv_evaluator.Base.{
  ℕ, zero, suc, ◌+◌, ◌*◌, min, String, ◌≡◌, ◌∙◌, inl, inr, Bool, false, Option, some, List, [], ◌∷◌,
  arith, ◌==◌, Bool-cases, Option-cases, length, second, Bytes,
}
use ai_cv_evaluator.AiClient.Accounts.{Config}
use ai_cv_evaluator.AiClient.Refusals.{detect_refusal}
use ai_cv_evaluator.AiClient.Selection.{available_models}
use ai_cv_evaluator.AiClient.Switching.{
  Reply, answered, failed, timed_out, called, slept, State, Caller, answer, try_once, try_model,
  switch_models, chat_with_switching, order_models, judge, max_models_to_try,
}

module _ (clock : ℕ → ℕ) (call_model : Caller) where
  judge-accepted :
      (id : String) (r : Reply) (s : State) (text : Bytes)
      → (judge clock call_model id r s).0 ≡ some text
      → detect_refusal text ≡ false
  unfolding judge
  judge-accepted id (answered t) s text e = elim (Bool-cases (detect_refusal t)) [
    | inl y ↦ ground arith
    | inr n ↦ ground arith
  ]
  judge-accepted id failed s text e = ground arith
  judge-accepted id timed_out s text e = ground arith

  try_once-accepted :
      (id : String) (s : State) (text : Bytes)
      → (try_once clock call_model id s).0 ≡ some text
      → detect_refusal text ≡ false
  unfolding try_once
  try_once-accepted id s text e =
      let asked : State = record s { events = called id ∷ s.events } in
      judge-accepted id (call_model id asked).0 (call_model id asked).1 text e

  try_model-accepted :
      (left attempt : ℕ) (id : String) (s : State) (text : Bytes)
      → (try_model clock call_model left attempt id s).0 ≡ some text
      → detect_refusal text ≡ false
  unfolding try_model
  try_model-accepted zero attempt id s text = try_once-accepted id s text
  try_model-accepted (suc left) attempt id s text =
      let s' : State = (try_once clock call_model id s).1 in
      let rested : State = record s' { events = slept (attempt * 2 * second) ∷ s'.events } in
      elim (Option-cases (try_once clock call_model id s).0) [
        | inl n ↦ rw (n, try_model) (try_model-accepted left (attempt + 1) id rested text)
        | inr (t, y) ↦ rw (y, try_model) (λ e. try_once-accepted id s text (y ∙ e))
      ]

  switch_models-accepted :
      (cfg : Config) (api_key : Bytes) (all_blocked : Bool) (n : ℕ) (ids : List String) (s : State)
      (text : Bytes)
      → (switch_models clock call_model cfg api_key all_blocked n ids s).0 ≡ some text
      → detect_refusal text ≡ false
  unfolding switch_models
  switch_models-accepted cfg api_key all_blocked zero ids s text = λ e. ground arith
  switch_models-accepted cfg api_key all_blocked (suc n) [] s text = λ e. ground arith
  switch_models-accepted cfg api_key all_blocked (suc n) (id ∷ ids) s text =
      let later : State = record s { readings = s.readings + 2 } in
      let trying : State = record later { models_tried = s.models_tried + 1 } in
      let tried : Option Bytes × State = try_model clock call_model 1 1 id trying in
      let on : _ = switch_models-accepted cfg api_key all_blocked n ids later text in
      elim (Option-cases tried.0) [
        | inl y ↦
            rw (y, switch_models)
              (λ e.
                ground
                  (arith, on, switch_models-accepted cfg api_key all_blocked n ids tried.1 text))
        | inr (t, y) ↦
            rw (y, switch_models) (λ e. ground (arith, on, try_model-accepted 1 1 id trying text))
      ]

  -- An answer of the switching is never one that the check of refusals rejects.
  pub chat_with_switching-accepted :
      (cfg : Config) (api_key : Bytes) (models : List String) (s : State) (text : Bytes)
      → (chat_with_switching clock call_model cfg api_key models s).0 ≡ answer text
      → detect_refusal text ≡ false
  unfolding chat_with_switching
  chat_with_switching-accepted cfg api_key models s text =
      let now : ℕ = clock s.readings in
      let begun : State = record s {
        readings = s.readings + 1;
        model_failures = [];
        models_tried = 0;
      } in
      let all_blocked : Bool = length (available_models now s.blocks models) == 0 in
      let ordered : _ = order_models clock call_model cfg api_key now models begun in
      elim (Option-cases ordered.0) [
        | inl y ↦ rw (y, chat_with_switching) (λ e. ground arith)
        | inr (ids, y) ↦
            let n : ℕ = min max_models_to_try (length ids) in
            let result : _ =
              switch_models clock call_model cfg api_key all_blocked n ids ordered.1 in
            let right : _ = switch_models-accepted cfg api_key all_blocked n ids ordered.1 text in
            elim (Option-cases result.0) [
              | inl z ↦ rw (y, z, chat_with_switching) (λ e. ground arith)
              | inr (t, z) ↦ rw (y, z, chat_with_switching) (λ e. ground (arith, right))
            ]
      ]
