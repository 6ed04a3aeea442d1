-- ===== src/AiClient/Switching/Attempts.antt =====
-- internal/adapter/ai/real/client.go: the calls that the switching between models makes.
use ai_cv_evaluator.Base.{
  ℕ, zero, suc, ◌+◌, ◌*◌, ◌≤◌, min, String, ◌≡◌, refl, ◌∙◌, inl, inr, Bool, Option, List, [], ◌∷◌,
  arith, ◌==◌, Option-cases, length, second, Bytes,
}
use ai_cv_evaluator.AiClient.Accounts.{Config}
use ai_cv_evaluator.AiClient.Selection.{available_models}
use ai_cv_evaluator.AiClient.Switching.{
  Reply, answered, failed, timed_out, Event, called, slept, State, Caller, try_once, try_model,
  switch_models, chat_with_switching, order_models, judge, max_models_to_try,
}

unfoldable pub calls : List Event → ℕ
calls [] = 0
calls (called id ∷ es) = suc (calls es)
calls (slept d ∷ es) = calls es

-- The call of a model leaves the record of what was done alone.
unfoldable pub IsQuiet : Caller → Type 0
IsQuiet call_model = (id : String) (s : State) → (call_model id s).1.events ≡ s.events

module _ (clock : ℕ → ℕ) (call_model : Caller) (quiet : IsQuiet call_model) where
  judge-events :
      (id : String) (r : Reply) (s : State) → (judge clock call_model id r s).1.events ≡ s.events
  unfolding judge
  judge-events id (answered text) s = ground arith
  judge-events id failed s = refl
  judge-events id timed_out s = refl

  try_once-events :
      (id : String) (s : State) → (try_once clock call_model id s).1.events ≡ called id ∷ s.events
  unfolding try_once IsQuiet
  try_once-events id s =
      let asked : State = record s { events = called id ∷ s.events } in
      judge-events id (call_model id asked).0 (call_model id asked).1 ∙ quiet id asked

  try_model-calls :
      (left attempt : ℕ) (id : String) (s : State)
      → calls (try_model clock call_model left attempt id s).1.events ≤ calls s.events + suc left
  unfolding try_model calls
  try_model-calls zero attempt id s = ground (arith, try_once-events id s)
  try_model-calls (suc left) attempt id s =
      let s' : State = (try_once clock call_model id s).1 in
      let rested : State = record s' { events = slept (attempt * 2 * second) ∷ s'.events } in
      elim (Option-cases (try_once clock call_model id s).0) [
        | inl e ↦
            rw (e, try_model)
              (ground (arith, try_once-events id s, try_model-calls left (attempt + 1) id rested))
        | inr (text, e) ↦ rw (e, try_model) (ground (arith, try_once-events id s))
      ]

  switch_models-calls :
      (cfg : Config) (api_key : Bytes) (all_blocked : Bool) (n : ℕ) (ids : List String) (s : State)
      → calls (switch_models clock call_model cfg api_key all_blocked n ids s).1.events
        ≤ calls s.events + n * 2
  unfolding switch_models
  switch_models-calls cfg api_key all_blocked zero ids s = ground arith
  switch_models-calls cfg api_key all_blocked (suc n) [] s = ground arith
  switch_models-calls cfg api_key all_blocked (suc n) (id ∷ ids) s =
      let later : State = record s { readings = s.readings + 2 } in
      let trying : State = record later { models_tried = s.models_tried + 1 } in
      let tried : Option Bytes × State = try_model clock call_model 1 1 id trying in
      let within : calls tried.1.events ≤ calls s.events + 2 = try_model-calls 1 1 id trying in
      let on : _ = switch_models-calls cfg api_key all_blocked n ids later in
      elim (Option-cases tried.0) [
        | inl e ↦
            rw (e, switch_models)
              (ground
                (arith, within, on, switch_models-calls cfg api_key all_blocked n ids tried.1))
        | inr (text, e) ↦ rw (e, switch_models) (ground (arith, within, on))
      ]

  order_models-events :
      (cfg : Config) (api_key : Bytes) (now : ℕ) (models : List String) (s : State)
      → (order_models clock call_model cfg api_key now models s).1.events ≡ s.events
  unfolding order_models
  order_models-events cfg api_key now models s = ground arith

  -- However the models answer, at most sixteen calls are made: eight models, two attempts each.
  pub chat_with_switching-calls :
      (cfg : Config) (api_key : Bytes) (models : List String) (s : State)
      → calls (chat_with_switching clock call_model cfg api_key models s).1.events
        ≤ calls s.events + 16
  unfolding chat_with_switching
  chat_with_switching-calls cfg api_key models s =
      let now : ℕ = clock s.readings in
      let begun : State = record s {
        readings = s.readings + 1;
        model_failures = [];
        models_tried = 0;
      } in
      let all_blocked : Bool = length (available_models now s.blocks models) == 0 in
      let ordered : _ = order_models clock call_model cfg api_key now models begun in
      let same : _ = order_models-events cfg api_key now models begun in
      elim (Option-cases ordered.0) [
        | inl e ↦ rw (e, chat_with_switching) (ground (arith, same))
        | inr (ids, e) ↦
            rw (e, chat_with_switching)
              (ground (
                arith,
                same,
                switch_models-calls cfg api_key all_blocked (min max_models_to_try (length ids)) ids
                    ordered.1,
              ))
      ]
