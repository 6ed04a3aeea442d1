-- ===== src/Examples/Caches.antt =====
-- The theorems on the response cache and on the rate limits at concrete inputs.
use ai_cv_evaluator.Base.{
  ◌+◌, ◌*◌, ◌^◌, min, String, ◌≡◌, refl, inl, inr, false, [], ◌∷◌, arith, str_eq, leb, ◌==◌,
  if◌then◌else◌, Bool-cases, time_add, second, Bytes, codes, lookup, IsUnique,
}
use ai_cv_evaluator.ModelCache.{CachedResponse, ModelCache, set_with_ttl}
use ai_cv_evaluator.ModelCache.Eviction.{IsMap, IsBounded, set_with_ttl-IsBounded}
use ai_cv_evaluator.RateLimit.{RateLimitEntry, RateLimitCache, two_hours, record_failure}
use ai_cv_evaluator.RateLimit.Backoff.{record_failure_lem}

-- Stands in for the digest: it tells prompts apart by whether there is a first byte "a".
abbrev digest : Bytes → String
digest [] = "00"
digest (c ∷ s) = if c == 97 then "61" else "00"

abbrev response : CachedResponse
response = record { response = "yes"; timestamp = 5; model_id = "m"; access_count = 2; ttl = 10 }

-- A full cache of one entry.
abbrev full : ModelCache
full = record {
  cache = ("00", response) ∷ [];
  max_size = 1;
  default_ttl = 10;
  access_counts = [];
  hit_count = 0;
  miss_count = 0;
}

full-IsMap : IsMap full.cache
unfolding IsMap lookup
full-IsMap = (refl, refl, tt)

full-IsUnique : IsUnique full.cache
unfolding IsUnique lookup
full-IsUnique = (refl, tt)

full-IsBounded : IsBounded full
unfolding IsBounded
full-IsBounded = (full-IsMap, omega arith, omega arith)

digest-named : (text : Bytes) → str_eq (digest text) "" ≡ false
digest-named [] = refl
digest-named (c ∷ s) = elim (Bool-cases (c == 97)) [
  | inl e ↦ rw (e, digest) refl
  | inr e ↦ rw (e, digest) refl
]

set_with_ttl-IsBounded_example :
    IsBounded (set_with_ttl digest 7 (codes "a") (codes "b") "no" "m" 10 full)
set_with_ttl-IsBounded_example =
    set_with_ttl-IsBounded digest 7 (codes "a") (codes "b") "no" "m" 10 full digest-named
      full-IsBounded

abbrev entry : RateLimitEntry
entry = record {
  model_id = "m";
  blocked_until = 0;
  failure_count = 4;
  last_failure = 1;
  block_duration = 20 * second;
  max_failures = 5;
}

abbrev limits : RateLimitCache
limits = record {
  blocked_models = ("m", entry) ∷ [];
  default_duration = 20 * second;
  default_max_failures = 5;
}

limits-IsUnique : IsUnique limits.blocked_models
unfolding IsUnique lookup
limits-IsUnique = (refl, tt)

record_failure_lem_example :
    ((record_failure 8 9 entry).failure_count ≡ 4 + 1)
    × ((record_failure 8 9 entry).blocked_until
        ≡ (if leb 5 (4 + 1) then time_add 9 (min (20 * second * 2 ^ min 4 10) two_hours) else 0))
record_failure_lem_example =
    record_failure_lem 8 9 entry (omega arith) (omega arith) (omega arith) (omega arith)
