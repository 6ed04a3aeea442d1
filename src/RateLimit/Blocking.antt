-- ===== src/RateLimit/Blocking.antt =====
-- internal/adapter/ai/rate_limit_cache.go: which models are blocked after each operation.
use ai_cv_evaluator.Base.{
  ℕ, ◌≤◌, String, ◌≡◌, refl, inl, inr, false, not, ◌&&◌, List, [], ◌∷◌, arith, str_eq, eq_iff,
  eq_refl, ltb, if◌then◌else◌, Bool-cases, Option-cases, any, inc, sle, time_add, lookup, insert,
  lookup-insert, IsUnique, lookup-erase_where,
}
use ai_cv_evaluator.RateLimit.{
  RateLimitEntry, block_model, record_failure, should_block, backoff, entry_of, RateLimitCache,
  is_blocked, is_model_blocked, record_rate_limit, record_model_success, record_success,
  get_available_models, is_stale, cleanup,
}

-- Storing an entry decides for its model, and for no other.
is_model_blocked-store :
    (now : ℕ) (k j : String) (entry : RateLimitEntry) (rlc : RateLimitCache)
    → is_model_blocked now j (record rlc { blocked_models = insert k entry rlc.blocked_models })
      ≡ (if str_eq k j then is_blocked now entry else is_model_blocked now j rlc)
unfolding is_model_blocked
is_model_blocked-store now k j entry rlc =
    let stored = lookup-insert k j entry rlc.blocked_models in
    elim (Bool-cases (str_eq k j)) [ inl e ↦ ground arith | inr e ↦ ground arith ]

-- A rate limit blocks its model for the time that the provider asks for, or for the default time
-- when it asks for none, however long the model was blocked for; a success unblocks its model at
-- once. Both leave the other models as they were.
pub record_rate_limit-blocked :
    (failed blocked now : ℕ) (k j : String) (retry_after : ℕ) (rlc : RateLimitCache)
    → (is_model_blocked now j (record_rate_limit failed blocked k retry_after rlc) ≡ (
        if str_eq k j
        then ltb now
            (time_add blocked (if sle retry_after 0 then rlc.default_duration else retry_after))
        else is_model_blocked now j rlc))
      × (is_model_blocked now j (record_model_success k rlc)
          ≡ (if str_eq k j then false else is_model_blocked now j rlc))
unfolding record_rate_limit record_model_success record_success is_blocked
record_rate_limit-blocked failed blocked now k j retry_after rlc = (
  is_model_blocked-store now k j _ rlc,
  ground (arith, is_model_blocked-store now k j (record_success (entry_of k rlc)) rlc),
)

-- The models on offer are those of the list that are not blocked, and none else.
pub get_available_models-any :
    (now : ℕ) (rlc : RateLimitCache) (models : List String) (j : String)
    → any (λ k. str_eq k j) (get_available_models now rlc models)
      ≡ (any (λ k. str_eq k j) models && not (is_model_blocked now j rlc))
unfolding get_available_models is_model_blocked
get_available_models-any now rlc [] j = refl
get_available_models-any now rlc (k ∷ models) j = elim (Bool-cases (str_eq k j)) [
  | inl e ↦ ground (arith, eq_iff k j, get_available_models-any now rlc models j)
  | inr e ↦ ground (arith, get_available_models-any now rlc models j)
]

-- A cleanup of entries whose keys stand once never changes whether a model is blocked, at its time or at any later one.
pub cleanup-blocked :
    (now later : ℕ) (j : String) (rlc : RateLimitCache)
    → IsUnique rlc.blocked_models
    → now ≤ later
    → is_model_blocked later j (cleanup now rlc) ≡ is_model_blocked later j rlc
unfolding cleanup is_model_blocked is_stale is_blocked
cleanup-blocked now later j rlc unique order =
    let left = lookup-erase_where (is_stale now rlc) rlc.blocked_models j unique in
    elim (Option-cases (lookup j rlc.blocked_models)) [
      | inl e ↦ ground arith
      | inr (c, e) ↦ ground arith
    ]

-- Blocking a model for a given duration blocks it until that has passed only while its failures,
-- with this one, are below the threshold; from the threshold on, the back-off decides instead,
-- however long the duration that was given.
pub block_model-blocked :
    (now failed blocked later : ℕ) (k : String) (duration : ℕ) (rlc : RateLimitCache)
    → let entry = entry_of k rlc in
      let counted : RateLimitEntry = record entry { failure_count = inc entry.failure_count } in
      is_model_blocked later k (block_model now failed blocked k duration rlc)
      ≡ ltb later (
          if sle entry.max_failures counted.failure_count
          then time_add blocked (backoff counted)
          else time_add now duration)
unfolding block_model record_failure should_block backoff is_blocked
block_model-blocked now failed blocked later k duration rlc = ground (
  arith,
  eq_refl k,
  is_model_blocked-store later k k
      (record_failure failed blocked
        (record (entry_of k rlc) { blocked_until = time_add now duration }))
      rlc,
)
