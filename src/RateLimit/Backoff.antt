-- ===== src/RateLimit/Backoff.antt =====
-- internal/adapter/ai/rate_limit_cache.go: when an entry is blocked, and for how long.
use ai_cv_evaluator.Base.{
  ℕ, zero, suc, ◌+◌, ◌*◌, ◌^◌, ◌≤◌, ◌<◌, min, ◌≡◌, List, [], ◌∷◌, arith, leb, if◌then◌else◌, length,
  half, inc, dec, mul64, slt, IsNat64, time_add,
}
use ai_cv_evaluator.RateLimit.{RateLimitEntry, should_block, two_hours, backoff, record_failure}

pow_two_mono : (k n : ℕ) → k ≤ n → 2 ^ k ≤ 2 ^ n
pow_two_mono zero zero h = omega arith
pow_two_mono zero (suc n) h = omega (arith, pow_two_mono zero n (omega arith))
pow_two_mono (suc k) (suc n) h = omega (arith, pow_two_mono k n (omega arith))
pow_two_mono (suc k) zero h = omega arith

-- Failures, each with the two times that `RecordFailure` reads.
unfoldable pub fail_all : List (ℕ × ℕ) → RateLimitEntry → RateLimitEntry
fail_all [] rle = rle
fail_all ((failed, blocked) ∷ ts) rle = fail_all ts (record_failure failed blocked rle)

-- As long as the failures of an entry stay below its threshold, each of them is counted, and none
-- moves the time until which the model is blocked.
pub fail_all-below :
    (ts : List (ℕ × ℕ)) (rle : RateLimitEntry)
    → rle.failure_count + length ts < rle.max_failures
    → IsNat64 rle.max_failures
    → ((fail_all ts rle).failure_count ≡ rle.failure_count + length ts)
      × ((fail_all ts rle).blocked_until ≡ rle.blocked_until)
unfolding fail_all record_failure should_block
fail_all-below [] rle few small = ground arith
fail_all-below ((failed, blocked) ∷ ts) rle few small =
    ground (arith, fail_all-below ts (record_failure failed blocked rle))

mul_mono : (d a b : ℕ) → a ≤ b → d * a ≤ d * b
mul_mono zero a b h = omega arith
mul_mono (suc d) a b h = omega (arith, h, mul_mono d a b h)

-- A block length, doubled up to ten times, does not overflow if ten doublings do not.
grown-small : (d k : ℕ) → d * 1024 < half → k ≤ 10 → d * 2 ^ k < half
grown-small d k small few =
    omega (arith, small, mul_mono d (2 ^ k) (2 ^ 10) (pow_two_mono k 10 few))

grown-exact : (d k : ℕ) → d * 1024 < half → k ≤ 10 → mul64 d (2 ^ k) ≡ d * 2 ^ k
grown-exact d k small few = omega (arith, grown-small d k small few)

-- A failure of an entry that has failed before is counted, and from the threshold on it blocks the
-- model for the length of its block doubled once for each earlier failure, ten times at most, and
-- for no more than two hours; this takes that ten doublings do not overflow.
pub record_failure_lem :
    (failed blocked : ℕ) (rle : RateLimitEntry)
    → 1 ≤ rle.failure_count
    → rle.failure_count + 1 < half
    → IsNat64 rle.max_failures
    → rle.block_duration * 1024 < half
    → ((record_failure failed blocked rle).failure_count ≡ rle.failure_count + 1)
      × ((record_failure failed blocked rle).blocked_until ≡ (
          if leb rle.max_failures (rle.failure_count + 1)
          then time_add blocked (min (rle.block_duration * 2 ^ min rle.failure_count 10) two_hours)
          else rle.blocked_until))
unfolding record_failure should_block backoff
record_failure_lem failed blocked rle before small threshold duration =
    let exact = grown-exact rle.block_duration (min rle.failure_count 10) duration (omega arith) in
    let fits = grown-small rle.block_duration (min rle.failure_count 10) duration (omega arith) in
    let count : inc rle.failure_count ≡ rle.failure_count + 1 = omega arith in
    let multiplier : dec (rle.failure_count + 1) ≡ rle.failure_count = omega arith in
    let capped : (if slt 10 rle.failure_count then 10 else rle.failure_count)
        ≡ min rle.failure_count 10 =
      ground arith in
    rw (count, multiplier, capped, exact) ((ground arith, ground arith))
