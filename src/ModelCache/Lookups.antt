-- ===== src/ModelCache/Lookups.antt =====
-- internal/adapter/ai/model_cache.go: what a read answers after a write, and after a cleanup.
use ai_cv_evaluator.Base.{
  ℕ, String, ◌≡◌, inl, inr, none, some, arith, eq_refl, if◌then◌else◌, Option-cases, length, inc,
  slt, sle, time_sub, Bytes, lookup, insert, lookup-insert, IsUnique, passes, lookup-erase_where,
}
use ai_cv_evaluator.ModelCache.{
  CachedResponse, ModelCache, is_expired, evict_least_used, set_with_ttl, generate_cache_key,
  cleanup, get,
}

-- A cleanup keeps the entries that have not expired, and takes out those that have.
pub lookup-cleanup :
    (now : ℕ) (mc : ModelCache) (k : String)
    → IsUnique mc.cache
    → lookup k (cleanup now mc).cache
      ≡ (if passes (is_expired now) (lookup k mc.cache) then none else lookup k mc.cache)
unfolding cleanup
lookup-cleanup now mc k h = lookup-erase_where (is_expired now) mc.cache k h

module _ (digest : Bytes → String) where
  -- A cleanup of a cache whose keys stand once is never noticed: a read at its time answers what it would have answered before it,
  -- and counts the same hit or miss.
  pub get-cleanup :
      (now : ℕ) (system_prompt user_prompt : Bytes) (mc : ModelCache)
      → IsUnique mc.cache
      → let before = get digest now system_prompt user_prompt mc in
        let after = get digest now system_prompt user_prompt (cleanup now mc) in
        (after.0 ≡ before.0)
        × (after.1.hit_count ≡ before.1.hit_count)
        × (after.1.miss_count ≡ before.1.miss_count)
  unfolding get cleanup
  get-cleanup now sp up mc h =
      let key = generate_cache_key digest sp up in
      let left = lookup-cleanup now mc key h in
      elim (Option-cases (lookup key mc.cache)) [ inl e ↦ ground arith | inr (c, e) ↦ ground arith ]

  -- What is stored is read back until its time to live is over, whatever was evicted for it; after
  -- that it is a miss. A read counts as one hit or one miss.
  pub get-set_with_ttl :
      (now later : ℕ) (system_prompt user_prompt : Bytes) (response model_id : String) (ttl : ℕ)
      (mc : ModelCache)
      → let stored = set_with_ttl digest now system_prompt user_prompt response model_id ttl mc in
        let read = get digest later system_prompt user_prompt stored in
        let over = slt ttl (time_sub later now) in
        (read.0 ≡ (if over then none else some response))
        × (read.1.hit_count ≡ (if over then mc.hit_count else inc mc.hit_count))
        × (read.1.miss_count ≡ (if over then inc mc.miss_count else mc.miss_count))
  unfolding get set_with_ttl is_expired evict_least_used
  get-set_with_ttl now later sp up response model_id ttl mc =
      let key = generate_cache_key digest sp up in
      let stored : CachedResponse = record {
        response = response;
        timestamp = now;
        model_id = model_id;
        access_count = 1;
        ttl = ttl;
      } in
      let room = if sle mc.max_size (length mc.cache) then evict_least_used mc else mc in
      let back : lookup key (insert key stored room.cache) ≡ some stored =
        ground (arith, lookup-insert key key stored room.cache, eq_refl key) in
      rw (back, get) (ground arith)
