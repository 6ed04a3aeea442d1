-- ===== src/RateLimit.antt =====
-- internal/adapter/ai/rate_limit_cache.go: the models that are blocked because they are rate-limited.
-- A method runs under the lock of the cache; each time that it reads from the clock is an argument.
-- The goroutine that calls `cleanup` at an interval is left out, as `log/slog` is.
pub mod Backoff
pub mod Blocking
use ai_cv_evaluator.Base.{
  ℕ, suc, ◌-◌, ◌*◌, ◌/◌, ◌^◌, max, String, ap, Bool, false, not, ◌&&◌, none, some, List, [], ◌∷◌,
  ltb, if◌then◌else◌, length, all, inc, dec, mul64, slt, sle, time_sub, time_add, second, lookup,
  insert, erase, keys_where, erase_all,
}

pub record RateLimitEntry : Type 0 where
  pub model_id : String
  pub blocked_until : ℕ
  pub failure_count : ℕ
  pub last_failure : ℕ
  pub block_duration : ℕ
  pub max_failures : ℕ

unfoldable pub is_blocked : ℕ → RateLimitEntry → Bool
is_blocked now rle = ltb now rle.blocked_until

unfoldable pub should_block : RateLimitEntry → Bool
should_block rle = sle rle.max_failures rle.failure_count

abbrev pub two_hours : ℕ
two_hours = 7_200_000_000_000

-- The length of the block that `RecordFailure` computes.
unfoldable pub backoff : RateLimitEntry → ℕ
backoff rle =
    if slt 1 rle.failure_count
    then (let multiplier = dec rle.failure_count in
        let capped = if slt 10 multiplier then 10 else multiplier in
        let grown = mul64 rle.block_duration (2 ^ capped) in
        if slt two_hours grown then two_hours else grown)
    else rle.block_duration

-- `failed` and `blocked` are the two times read.
unfoldable pub record_failure : ℕ → ℕ → RateLimitEntry → RateLimitEntry
record_failure failed blocked rle =
    let counted : RateLimitEntry = record rle {
      failure_count = inc rle.failure_count;
      last_failure = failed;
    } in
    if should_block counted
    then record counted { blocked_until = time_add blocked (backoff counted) }
    else counted

unfoldable pub record_success : RateLimitEntry → RateLimitEntry
record_success rle = record rle { failure_count = 0; blocked_until = 0 }

unfoldable pub get_time_until_unblocked : ℕ → RateLimitEntry → ℕ
get_time_until_unblocked now rle = if is_blocked now rle then time_sub rle.blocked_until now else 0

pub record RateLimitCache : Type 0 where
  pub blocked_models : List (String × RateLimitEntry)
  pub default_duration : ℕ
  pub default_max_failures : ℕ

-- 20 s and 5 failures.
unfoldable pub new_rate_limit_cache : RateLimitCache
new_rate_limit_cache = record {
  blocked_models = [];
  default_duration = 20 * second;
  default_max_failures = 5;
}

unfoldable pub is_model_blocked : ℕ → String → RateLimitCache → Bool
is_model_blocked now model_id rlc = elim (lookup model_id rlc.blocked_models) [
  | none ↦ false
  | some entry ↦ is_blocked now entry
]

-- The entry of `getOrCreateEntry`; the callers store it back, changed.
unfoldable pub entry_of : String → RateLimitCache → RateLimitEntry
entry_of model_id rlc = elim (lookup model_id rlc.blocked_models) [
  | none ↦ record {
    model_id = model_id;
    blocked_until = 0;
    failure_count = 0;
    last_failure = 0;
    block_duration = rlc.default_duration;
    max_failures = rlc.default_max_failures;
  }
  | some entry ↦ entry
]

abbrev pub store : String → RateLimitEntry → RateLimitCache → RateLimitCache
store model_id entry rlc = record rlc { blocked_models = insert model_id entry rlc.blocked_models }

unfoldable pub block_model : ℕ → ℕ → ℕ → String → ℕ → RateLimitCache → RateLimitCache
block_model now failed blocked model_id duration rlc =
    store model_id
      (record_failure failed blocked
        (record (entry_of model_id rlc) { blocked_until = time_add now duration }))
      rlc

unfoldable pub record_model_failure : ℕ → ℕ → String → RateLimitCache → RateLimitCache
record_model_failure failed blocked model_id rlc =
    store model_id (record_failure failed blocked (entry_of model_id rlc)) rlc

unfoldable pub record_rate_limit : ℕ → ℕ → String → ℕ → RateLimitCache → RateLimitCache
record_rate_limit failed blocked model_id retry_after rlc =
    let entry = entry_of model_id rlc in
    let block_for = if sle retry_after 0 then rlc.default_duration else retry_after in
    store model_id
      (record entry {
        failure_count = inc entry.failure_count;
        last_failure = failed;
        blocked_until = time_add blocked block_for;
      })
      rlc

unfoldable pub record_model_success : String → RateLimitCache → RateLimitCache
record_model_success model_id rlc = store model_id (record_success (entry_of model_id rlc)) rlc

unfoldable pub get_blocked_models : ℕ → List (String × RateLimitEntry) → List String
get_blocked_models now m = keys_where (is_blocked now) m

unfoldable pub get_available_models : ℕ → RateLimitCache → List String → List String
get_available_models now rlc [] = []
get_available_models now rlc (model_id ∷ rest) = elim (lookup model_id rlc.blocked_models) [
  | none ↦ model_id ∷ get_available_models now rlc rest
  | some entry ↦
      if not (is_blocked now entry)
      then model_id ∷ get_available_models now rlc rest
      else get_available_models now rlc rest
]

unfoldable pub remaining_block_duration : ℕ → String → RateLimitCache → ℕ
remaining_block_duration now model_id rlc = elim (lookup model_id rlc.blocked_models) [
  | none ↦ 0
  | some entry ↦ if not (is_blocked now entry) then 0 else get_time_until_unblocked now entry
]

-- The test of `cleanup`. It reads the clock once here; the code reads it once more for each entry.
unfoldable pub is_stale : ℕ → RateLimitCache → RateLimitEntry → Bool
is_stale now rlc entry =
    not (is_blocked now entry)
    && slt (mul64 rlc.default_duration 2) (time_sub now entry.last_failure)

unfoldable pub cleanup : ℕ → RateLimitCache → RateLimitCache
cleanup now rlc = record rlc {
  blocked_models = erase_all (keys_where (is_stale now rlc) rlc.blocked_models) rlc.blocked_models;
}

unfoldable pub clear : RateLimitCache → RateLimitCache
clear rlc = record rlc { blocked_models = [] }

unfoldable pub set_block_duration : ℕ → RateLimitCache → RateLimitCache
set_block_duration duration rlc = record rlc { default_duration = duration }

unfoldable pub set_max_failures : ℕ → RateLimitCache → RateLimitCache
set_max_failures max_failures rlc = record rlc { default_max_failures = max_failures }
