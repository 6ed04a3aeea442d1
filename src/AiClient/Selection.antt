-- ===== src/AiClient/Selection.antt =====
-- internal/adapter/ai/real/client.go: how `ChatJSON` chooses a free model of OpenRouter and the
-- models to fall back on. Models stand as their ids. The blocks are read at one time, `now`; `blocks`
-- is the cache `c.rlc`, when there is one. The order that `sort.Slice` leaves open among equal waits
-- is that of the list.
pub mod Fairness
use ai_cv_evaluator.Base.{
  ℕ, ◌+◌, ◌-◌, ◌/◌, ◌%◌, max, String, ap, Bool, not, Option, none, some, List, [], ◌∷◌, ◌++◌,
  str_eq, ltb, ◌==◌, if◌then◌else◌, length, take, drop, all, keep, modulus, wrap, inc, slt, sle,
  sort_by,
}
use ai_cv_evaluator.Domain.{Result, ok, err}
use ai_cv_evaluator.RateLimit.{RateLimitCache, remaining_block_duration}

abbrev pub Blocks : Type 0
Blocks = Option RateLimitCache

-- `c.rlc.RemainingBlockDuration(id)`.
unfoldable pub remaining : ℕ → RateLimitCache → String → ℕ
remaining now rlc id = remaining_block_duration now id rlc

unfoldable pub waits_less : ℕ → RateLimitCache → String → String → Bool
waits_less now rlc a b = slt (remaining now rlc a) (remaining now rlc b)

abbrev pub is_ready : ℕ → RateLimitCache → String → Bool
is_ready now rlc id = sle (remaining now rlc id) 0

unfoldable pub available_models : ℕ → Blocks → List String → List String
available_models now none models = models
available_models now (some rlc) models = keep (is_ready now rlc) models

unfoldable pub waiting_models : ℕ → Blocks → List String → List String
waiting_models now none models = []
waiting_models now (some rlc) models =
    sort_by (waits_less now rlc) (keep (λ id. not (is_ready now rlc id)) models)

unfoldable pub by_wait : ℕ → Blocks → List String → List String
by_wait now none models = models
by_wait now (some rlc) models = sort_by (waits_less now rlc) models

pub record Choice : Type 0 where
  pub selected : String
  pub fallbacks : List String

abbrev pub max_fallbacks : ℕ
max_fallbacks = 3

-- Adds models of a list to the fallbacks while there are fewer than three.
abbrev pub fill : List String → List String → List String
fill found more = found ++ take (max_fallbacks - length found) more

-- `int(counter % int64(n))`, which is negative for most counters that have wrapped around.
unfoldable pub index_of : ℕ → ℕ → Option ℕ
index_of counter n =
    if slt counter 0
    then (if (modulus - counter) % n == 0 then some 0 else none)
    else some (counter % n)

abbrev pub not_named : String → String → Bool
not_named id cand = not (str_eq cand id)

-- The branch with available models, from `available[idx:]` on; the candidates are those after the
-- selected one, in a cycle.
unfoldable pub choose_available : List String → List String → List String → Option Choice
choose_available [] before waiting = none
choose_available (selected ∷ after) before waiting = some (record {
  selected = selected;
  fallbacks =
      fill (take max_fallbacks (keep (not_named selected) (after ++ before ++ selected ∷ [])))
        waiting;
})

-- The branch where all models are blocked; `paid` answers `GetCheapestPaidModels`.
unfoldable pub choose_waiting : Result (List String) → List String → Option Choice
choose_waiting (ok (p ∷ ps)) all_models =
    some (record { selected = p; fallbacks = fill (take max_fallbacks ps) all_models })
choose_waiting _ [] = none
choose_waiting _ (m ∷ ms) = some (record { selected = m; fallbacks = take max_fallbacks ms })

-- The choice among models; `counter` is the value of the atomic after it was incremented. `none` is
-- a panic, from an index out of range.
unfoldable pub select_model : ℕ → ℕ → Result (List String) → Blocks → List String → Option Choice
select_model now counter paid blocks models =
    let available = available_models now blocks models in
    let waiting = waiting_models now blocks models in
    if ltb 0 (length available)
    then elim (index_of counter (length available)) [
      | none ↦ none
      | some idx ↦ choose_available (drop idx available) (take idx available) waiting
    ]
    else choose_waiting paid (by_wait now blocks models)
