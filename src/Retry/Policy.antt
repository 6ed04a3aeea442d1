-- ===== src/Retry/Policy.antt =====
-- internal/domain/retry_entities.go: which errors are retried.
use ai_cv_evaluator.Base.{
  ℕ, ◌<◌, ◌≡◌, ◌∙◌, ◌≢◌, ◌↔◌, ◌⊎◌, Bool, true, false, ◌&&◌, [], ◌∷◌, arith, leb, ◌==◌, length, take,
  any, slt, Bytes, codes, has_prefix, bytes_eq,
}
use ai_cv_evaluator.Retry.{
  dlq, RetryConfig, default_retry_config, RetryInfo, contains, should_retry,
}

take-has_prefix :
    (s p : Bytes) → (leb (length p) (length s) && bytes_eq (take (length p) s) p) ≡ has_prefix s p
unfolding bytes_eq has_prefix
take-has_prefix s [] = ground arith
take-has_prefix [] (c ∷ p) = ground arith
take-has_prefix (d ∷ s) (c ∷ p) = ground (arith, take-has_prefix s p)

-- The retry policy's `contains` asks whether the message begins with the pattern.
pub contains-eq-has_prefix : (s p : Bytes) → contains s p ≡ has_prefix s p
unfolding contains
contains-eq-has_prefix s p = take-has_prefix s p

-- A job is retried exactly when it has attempts left, is not in the dead-letter queue, and its
-- error matches a retryable pattern or no non-retryable one.
pub should_retry_iff :
    (ri : RetryInfo) (e : Bytes) (config : RetryConfig)
    → (should_retry ri e config ≡ true) ↔ (
        (slt ri.attempt_count config.max_retries ≡ true)
        × (ri.retry_status ≢ dlq)
        × ((any (contains e) config.retryable_errors ≡ true)
            ⊎ (any (contains e) config.non_retryable_errors ≡ false)))
unfolding should_retry
should_retry_iff ri e config = ground arith

-- The first letters of the patterns of the default configuration.
abbrev pub pattern_initials : Bytes
pattern_initials = codes "ctruinsa"

abbrev pub is_initial : ℕ → Bool
is_initial c = any (λ d. c == d) pattern_initials

contains-eq-false : (c d : ℕ) (m p : Bytes) → (c == d) ≡ false → contains (c ∷ m) (d ∷ p) ≡ false
unfolding has_prefix
contains-eq-false c d m p h = contains-eq-has_prefix (c ∷ m) (d ∷ p) ∙ ground arith

-- Under the default configuration an error whose message begins with a letter that begins no
-- pattern is retried as long as attempts are left and the job is not in the dead-letter queue,
-- whatever the message goes on to say: also when it wraps a non-retryable error such as "invalid
-- argument".
pub wrapped_error_retried :
    (ri : RetryInfo) (c : ℕ) (m : Bytes)
    → is_initial c ≡ false
    → ri.attempt_count < 3
    → ri.retry_status ≢ dlq
    → should_retry ri (c ∷ m) default_retry_config ≡ true
unfolding should_retry default_retry_config
wrapped_error_retried ri c m h few live = ground (
  arith,
  contains-eq-false c b'i' m (codes "nvalid argument"),
  contains-eq-false c b'n' m (codes "ot found"),
  contains-eq-false c b'c' m (codes "onflict"),
  contains-eq-false c b's' m (codes "chema invalid"),
  contains-eq-false c b'a' m (codes "uthentication failed"),
  contains-eq-false c b'a' m (codes "uthorization failed"),
)
