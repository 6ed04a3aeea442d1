-- ===== src/AiClient/Selection/Fairness.antt =====
-- internal/adapter/ai/real/client.go: which model `ChatJSON` chooses.
use ai_cv_evaluator.Base.{
  ℕ, zero, suc, ◌+◌, ◌-◌, ◌*◌, ◌/◌, ◌%◌, ◌≤◌, ◌<◌, String, ◌≡◌, refl, ap, ◌∙◌, inl, inr, Bool, true,
  false, not, ◌&&◌, some, List, [], ◌∷◌, ◌++◌, arith, str_eq, eq_iff, eq_refl, ltb, ltb→lt,
  Bool-cases, length, take, drop, any, keep, length-append, length-take, any-append, any-take, half,
  slt, any-sort_by,
}
use native.Mathlib.Nat.{mod-lt, mul-add, mod-eq_of_lt, div-add-mod, mul-add-mod_self_left}
use ai_cv_evaluator.Domain.{Result}
use ai_cv_evaluator.RateLimit.{
  RateLimitCache, remaining_block_duration, is_model_blocked, is_blocked, get_time_until_unblocked,
}
use ai_cv_evaluator.AiClient.Selection.{
  Blocks, remaining, waits_less, is_ready, available_models, waiting_models, Choice, max_fallbacks,
  fill, index_of, not_named, choose_available, select_model,
}

-- A model is ready exactly when it is not blocked.
is_ready-not_blocked :
    (now : ℕ) (rlc : RateLimitCache) (id : String)
    → is_ready now rlc id ≡ not (is_model_blocked now id rlc)
unfolding remaining remaining_block_duration is_model_blocked is_blocked get_time_until_unblocked
is_ready-not_blocked now rlc id = ground arith

-- An id is one of a list.
abbrev pub has : String → List String → Bool
has id ids = any (λ k. str_eq k id) ids

has-keep :
    (p : String → Bool) (id : String) (ids : List String)
    → has id (keep p ids) ≡ (has id ids && p id)
has-keep p id [] = refl
has-keep p id (k ∷ ids) = elim (Bool-cases (str_eq k id)) [
  | inl e ↦ ground (arith, eq_iff k id, has-keep p id ids)
  | inr e ↦ ground (arith, has-keep p id ids)
]

-- The available models are those that are not blocked.
has-available :
    (now : ℕ) (rlc : RateLimitCache) (id : String) (models : List String)
    → has id (available_models now (some rlc) models)
      ≡ (has id models && not (is_model_blocked now id rlc))
unfolding available_models
has-available now rlc id models =
    ground (arith, has-keep (is_ready now rlc) id models, is_ready-not_blocked now rlc id)

has-waiting :
    (now : ℕ) (rlc : RateLimitCache) (id : String) (models : List String)
    → has id (waiting_models now (some rlc) models) ≡ (has id models && is_model_blocked now id rlc)
unfolding waiting_models
has-waiting now rlc id models = ground (
  arith,
  any-sort_by (waits_less now rlc) (λ k. str_eq k id) (keep (λ k. not (is_ready now rlc k)) models),
  has-keep (λ k. not (is_ready now rlc k)) id models,
  is_ready-not_blocked now rlc id,
)

drop-some :
    (n : ℕ) (xs : List String)
    → n < length xs
    → (x : String) × (rest : List String) × (drop n xs ≡ x ∷ rest) × (has x xs ≡ true)
drop-some n [] h = ground arith
drop-some zero (x ∷ xs) h = (x, xs, refl, ground (arith, eq_refl x))
drop-some (suc n) (x ∷ xs) h =
    let (y, rest, e, at) = drop-some n xs (omega (arith, h)) in (y, rest, e, ground (arith, at))

drop-has :
    (id : String) (xs : List String)
    → has id xs ≡ true
    → (n : ℕ) × (rest : List String) × (n < length xs) × (drop n xs ≡ id ∷ rest)
drop-has id [] h = ground arith
drop-has id (x ∷ xs) h = elim (Bool-cases (str_eq x id)) [
  | inl e ↦ (0, xs, omega arith, ap (λ y. y ∷ xs) ((eq_iff x id).0 e))
  | inr e ↦
      let (n, rest, small, at) = drop-has id xs (ground arith) in
      (suc n, rest, omega (arith, small), at)
]

fill-has :
    (id : String) (others waiting : List String)
    → has id waiting ≡ false
    → has id (fill (take max_fallbacks (keep (not_named id) others)) waiting) ≡ false
fill-has id others waiting h =
    let found = take max_fallbacks (keep (not_named id) others) in
    ground (
      arith,
      eq_refl id,
      any-append (λ k. str_eq k id) found (take (max_fallbacks - length found) waiting),
      any-take (λ k. str_eq k id) max_fallbacks (keep (not_named id) others),
      any-take (λ k. str_eq k id) (max_fallbacks - length found) waiting,
      has-keep (not_named id) id others,
    )

fill-length : (others waiting : List String) → length (fill (take max_fallbacks others) waiting) ≤ 3
fill-length others waiting =
    let found = take max_fallbacks others in
    ground (
      arith,
      length-append found (take (max_fallbacks - length found) waiting),
      length-take max_fallbacks others,
      length-take (max_fallbacks - length found) waiting,
    )

select_model-available :
    (now counter : ℕ) (paid : Result (List String)) (blocks : Blocks) (models : List String)
    → 0 < length (available_models now blocks models)
    → counter < half
    → let available = available_models now blocks models in
      let idx = counter % length available in
      select_model now counter paid blocks models
      ≡ choose_available
          (drop idx available)
          (take idx available)
          (waiting_models now blocks models)
unfolding select_model index_of
select_model-available now counter paid blocks models some_free small =
    let free : ltb 0 (length (available_models now blocks models)) ≡ true = ground arith in
    let plain : slt counter 0 ≡ false = ground arith in rw (free, plain) refl

-- With a free model that is not blocked, and before the counter of calls wraps around, `ChatJSON`
-- chooses a free model that is not blocked, and at most three models to fall back on, which the
-- chosen one is not among.
pub select_model-free :
    (now counter : ℕ) (paid : Result (List String)) (rlc : RateLimitCache) (models : List String)
    → 0 < length (available_models now (some rlc) models)
    → counter < half
    → (ch : Choice) × (select_model now counter paid (some rlc) models ≡ some ch)
      × (has ch.selected models ≡ true)
      × (is_model_blocked now ch.selected rlc ≡ false)
      × (has ch.selected ch.fallbacks ≡ false)
      × (length ch.fallbacks ≤ 3)
unfolding choose_available
select_model-free now counter paid rlc models some_free small =
    let available = available_models now (some rlc) models in
    let waiting = waiting_models now (some rlc) models in
    let idx = counter % length available in
    let (x, rest, e, at) = drop-some idx available (mod-lt counter some_free) in
    let others = rest ++ take idx available ++ x ∷ [] in
    let there = has-available now rlc x models in
    let not_waiting = has-waiting now rlc x models in
    let unblocked : (has x models ≡ true) × (is_model_blocked now x rlc ≡ false) = ground arith in
    let out : has x waiting ≡ false = ground arith in
    (
      record {
        selected = x;
        fallbacks = fill (take max_fallbacks (keep (not_named x) others)) waiting;
      },
      select_model-available now counter paid (some rlc) models some_free small
          ∙ ap (λ l. choose_available l (take idx available) waiting) e,
      unblocked.0,
      unblocked.1,
      fill-has x others waiting out,
      fill-length (keep (not_named x) others) waiting,
    )

-- One of the numbers after `c`, at most `n` further, has a given remainder by `n`.
remainder-reached : (c n i : ℕ) → 0 < n → i < n → (k : ℕ) × (1 ≤ k) × (k ≤ n) × ((c + k) % n ≡ i)
remainder-reached c n i pos small =
    let r = c % n in
    let whole = div-add-mod c n in
    let bound = mod-lt c pos in
    elim (Bool-cases (ltb r i)) [
      | inl e ↦
          let k = i - r in
          let sum : c + k ≡ n * (c / n) + i = omega (arith, whole, ltb→lt r i e) in
          (
            k,
            omega (arith, ltb→lt r i e),
            omega (arith, small),
            rw (sum) (mul-add-mod_self_left n (c / n) i ∙ mod-eq_of_lt small),
          )
      | inr e ↦
          let k = i + n - r in
          let sum : c + k ≡ n * (c / n + 1) + i =
            ground (arith, whole, bound, mul-add n (c / n) 1) in
          (
            k,
            ground (arith, bound),
            ground (arith, bound),
            rw (sum) (mul-add-mod_self_left n (c / n + 1) i ∙ mod-eq_of_lt small),
          )
    ]

-- The models take turns: among any calls in a row, as many as there are available models, each
-- available model is chosen once, as long as the same models stay available.
pub select_model_in_turn :
    (now counter : ℕ) (paid : Result (List String)) (blocks : Blocks) (models : List String)
    (id : String)
    → has id (available_models now blocks models) ≡ true
    → counter + length (available_models now blocks models) < half
    → (k : ℕ) × (1 ≤ k)
      × (k ≤ length (available_models now blocks models))
      × (fallbacks : List String) × (select_model now (counter + k) paid blocks models
          ≡ some (record { selected = id; fallbacks = fallbacks }))
unfolding choose_available
select_model_in_turn now counter paid blocks models id there small =
    let available = available_models now blocks models in
    let (i, rest, inside, at) = drop-has id available there in
    let (k, least, most, e) =
      remainder-reached counter (length available) i (omega (arith, inside)) inside in
    (
      k,
      least,
      most,
      fill (take max_fallbacks (keep (not_named id) (rest ++ take i available ++ id ∷ [])))
          (waiting_models now blocks models),
      select_model-available now (counter + k) paid blocks models (omega (arith, inside))
            (omega (arith, small, most))
          ∙ (ap
                (λ j.
                  choose_available (drop j available) (take j available)
                    (waiting_models now blocks models))
                e
              ∙ ap (λ l. choose_available l (take i available) (waiting_models now blocks models))
                  at),
    )
