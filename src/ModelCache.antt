-- ===== src/ModelCache.antt =====
-- internal/adapter/ai/model_cache.go: the cache of model responses. A method runs under the lock of
-- the cache, so each one is a function of the state and of the time that it reads. The SHA-256
-- digest, written in hexadecimal, is the parameter `digest`; `log/slog` is left out.
pub mod Eviction
pub mod Lookups
use ai_cv_evaluator.Base.{
  ℕ, ◌+◌, ◌-◌, ◌/◌, max, String, ap, Bool, ◌&&◌, ◌||◌, Option, none, some, List, [], ◌∷◌, ◌++◌, map,
  str_eq, ltb, ◌==◌, if◌then◌else◌, length, take, all, inc, dec, slt, sle, time_sub, Bytes, codes,
  lookup, insert, erase, keys_where, erase_all,
}

pub record CachedResponse : Type 0 where
  pub response : String
  pub timestamp : ℕ
  pub model_id : String
  pub access_count : ℕ
  pub ttl : ℕ

unfoldable pub is_expired : ℕ → CachedResponse → Bool
is_expired now cr = slt cr.ttl (time_sub now cr.timestamp)

-- `access_counts` is the field `accessCount`.
pub record ModelCache : Type 0 where
  pub cache : List (String × CachedResponse)
  pub max_size : ℕ
  pub default_ttl : ℕ
  pub access_counts : List (String × ℕ)
  pub hit_count : ℕ
  pub miss_count : ℕ

unfoldable pub new_model_cache : ℕ → ℕ → ModelCache
new_model_cache max_size default_ttl = record {
  cache = [];
  max_size = max_size;
  default_ttl = default_ttl;
  access_counts = [];
  hit_count = 0;
  miss_count = 0;
}

-- The variables of the loop of `evictLeastUsed`.
pub record Victim : Type 0 where
  pub oldest_key : String
  pub oldest_time : ℕ
  pub lowest_access_count : ℕ

-- The test of the loop: whether an entry takes the place of the victim found so far.
unfoldable pub takes_over : Victim → CachedResponse → Bool
takes_over v c =
    str_eq v.oldest_key ""
    || slt c.access_count v.lowest_access_count
    || (c.access_count == v.lowest_access_count && ltb c.timestamp v.oldest_time)

unfoldable pub choose : Victim → String → CachedResponse → Victim
choose v key c =
    if takes_over v c
    then record {
      oldest_key = key;
      oldest_time = c.timestamp;
      lowest_access_count = c.access_count;
    }
    else v

unfoldable pub find_victim : Victim → List (String × CachedResponse) → Victim
find_victim v [] = v
find_victim v ((key, c) ∷ rest) = find_victim (choose v key c) rest

abbrev pub no_victim : Victim
no_victim = record { oldest_key = ""; oldest_time = 0; lowest_access_count = 0 }

unfoldable pub evict_least_used : ModelCache → ModelCache
evict_least_used mc =
    let v = find_victim no_victim mc.cache in
    if str_eq v.oldest_key "" then mc else record mc { cache = erase v.oldest_key mc.cache }

-- The map `accessCount` reads a missing key as 0.
abbrev pub count_of : Option ℕ → ℕ
count_of none = 0
count_of (some n) = n

unfoldable pub cleanup : ℕ → ModelCache → ModelCache
cleanup now mc = record mc { cache = erase_all (keys_where (is_expired now) mc.cache) mc.cache }

unfoldable pub clear : ModelCache → ModelCache
clear mc = record mc { cache = []; access_counts = []; hit_count = 0; miss_count = 0 }

module _ (digest : Bytes → String) where
  unfoldable pub generate_cache_key : Bytes → Bytes → String
  generate_cache_key system_prompt user_prompt = digest (system_prompt ++ codes "|" ++ user_prompt)

  unfoldable pub get : ℕ → Bytes → Bytes → ModelCache → Option String × ModelCache
  get now system_prompt user_prompt mc =
      let key = generate_cache_key system_prompt user_prompt in
      elim (lookup key mc.cache) [
        | none ↦ (none, record mc { miss_count = inc mc.miss_count })
        | some cached ↦
            if is_expired now cached
            then (none, record mc { cache = erase key mc.cache; miss_count = inc mc.miss_count })
            else (
              some cached.response,
              record mc {
                cache =
                    insert key (record cached { access_count = inc cached.access_count }) mc.cache;
                access_counts =
                    insert key (inc (count_of (lookup key mc.access_counts))) mc.access_counts;
                hit_count = inc mc.hit_count;
              },
            )
      ]

  unfoldable pub set_with_ttl : ℕ → Bytes → Bytes → String → String → ℕ → ModelCache → ModelCache
  set_with_ttl now system_prompt user_prompt response model_id ttl mc =
      let key = generate_cache_key system_prompt user_prompt in
      let room = if sle mc.max_size (length mc.cache) then evict_least_used mc else mc in
      record room {
        cache =
            insert key
              (record {
                response = response;
                timestamp = now;
                model_id = model_id;
                access_count = 1;
                ttl = ttl;
              })
              room.cache;
      }

  -- `Set` has the body of `SetWithTTL` at the cache's own time to live.
  unfoldable pub set : ℕ → Bytes → Bytes → String → String → ModelCache → ModelCache
  unfolding set_with_ttl
  set now system_prompt user_prompt response model_id mc =
      set_with_ttl now system_prompt user_prompt response model_id mc.default_ttl mc
