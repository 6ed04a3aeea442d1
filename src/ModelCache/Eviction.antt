-- ===== src/ModelCache/Eviction.antt =====
-- internal/adapter/ai/model_cache.go: which entry is evicted, and the bound on the size.
use ai_cv_evaluator.Base.{
  ℕ, ◌-◌, ◌≤◌, ◌<◌, max, String, ◌≡◌, refl, sym, ap, ◌∙◌, ◌⊎◌, inl, inr, Bool, true, false, ◌&&◌,
  ◌||◌, none, some, List, [], ◌∷◌, ◌++◌, arith, str_eq, eq_iff, eq_refl, ltb, ◌==◌, Bool-cases,
  length, half, slt, sle, Bytes, codes, lookup, insert, erase, lookup-insert, lookup-erase,
  length-insert-le, length-erase-lt,
}
use mathlib.Core.Path.{subst}
use ai_cv_evaluator.ModelCache.{
  CachedResponse, ModelCache, Victim, takes_over, choose, find_victim, no_victim, evict_least_used,
  set_with_ttl, generate_cache_key,
}

-- A key is held once, and none is empty.
unfoldable pub IsMap : List (String × CachedResponse) → Type 0
IsMap [] = Unit
IsMap ((k, c) ∷ m) = (str_eq k "" ≡ false) × (lookup k m ≡ none) × IsMap m

-- The victim that an entry is.
abbrev as_victim : String → CachedResponse → Victim
as_victim key c = record {
  oldest_key = key;
  oldest_time = c.timestamp;
  lowest_access_count = c.access_count;
}

-- An entry was read less often than a victim, or as often and is older.
abbrev beats : CachedResponse → Victim → Bool
beats d v =
    slt d.access_count v.lowest_access_count
    || (d.access_count == v.lowest_access_count && ltb d.timestamp v.oldest_time)

-- An entry was read less often than another, or as often and is older.
abbrev pub used_less : CachedResponse → CachedResponse → Bool
used_less d c =
    slt d.access_count c.access_count
    || (d.access_count == c.access_count && ltb d.timestamp c.timestamp)

-- An entry of the map has the key and the figures of the victim.
abbrev IsEntry : Victim → List (String × CachedResponse) → Type 0
IsEntry v m =
    (c : CachedResponse) × (lookup v.oldest_key m ≡ some c)
    × (v.lowest_access_count ≡ c.access_count)
    × (v.oldest_time ≡ c.timestamp)

choose-cases :
    (v : Victim) (k : String) (c : CachedResponse)
    → (choose v k c ≡ as_victim k c) ⊎ (choose v k c ≡ v)
unfolding choose
choose-cases v k c = ground arith

-- The search ends with an entry of the map, or with the victim that it began with.
find_victim-found :
    (v : Victim) (m : List (String × CachedResponse))
    → IsMap m
    → IsEntry (find_victim v m) m ⊎ (find_victim v m ≡ v)
unfolding find_victim IsMap lookup
find_victim-found v [] h = inr refl
find_victim-found v ((k, c) ∷ m) h = elim (find_victim-found (choose v k c) m h.2) [
  | inl (d, found, least, oldest) ↦
      inl (d, ground (arith, eq_iff k (find_victim (choose v k c) m).oldest_key), least, oldest)
  | inr e ↦ elim (choose-cases v k c) [
    | inl f ↦ inl (
        subst (λ u. IsEntry u ((k, c) ∷ m)) (sym (e ∙ f))
          (c, ground (arith, eq_refl k), refl, refl))
    | inr f ↦ inr (e ∙ f)
  ]
]

-- Choosing keeps a victim named, leaves what did not beat it unable to, and lets no entry that it
-- has seen beat it.
choose-keeps :
    (v : Victim) (k : String) (c d : CachedResponse)
    → str_eq k "" ≡ false
    → str_eq v.oldest_key "" ≡ false
    → beats d v ≡ false
    → (str_eq (choose v k c).oldest_key "" ≡ false) × (beats d (choose v k c) ≡ false)
unfolding choose takes_over
choose-keeps v k c d key named unbeaten = ground arith

choose-least :
    (v : Victim) (k : String) (c : CachedResponse)
    → str_eq k "" ≡ false
    → (str_eq (choose v k c).oldest_key "" ≡ false) × (beats c (choose v k c) ≡ false)
unfolding choose takes_over
choose-least v k c key = ground arith

-- What does not beat the victim so far does not beat the last one.
find_victim-beats :
    (v : Victim) (m : List (String × CachedResponse)) (d : CachedResponse)
    → IsMap m
    → str_eq v.oldest_key "" ≡ false
    → beats d v ≡ false
    → (str_eq (find_victim v m).oldest_key "" ≡ false) × (beats d (find_victim v m) ≡ false)
unfolding find_victim IsMap
find_victim-beats v [] d h named unbeaten = (named, unbeaten)
find_victim-beats v ((k, c) ∷ m) d h named unbeaten =
    let kept = choose-keeps v k c d h.0 named unbeaten in
    find_victim-beats (choose v k c) m d h.2 kept.0 kept.1

-- No entry beats the victim that is found.
find_victim-least :
    (v : Victim) (m : List (String × CachedResponse)) (j : String) (d : CachedResponse)
    → IsMap m
    → lookup j m ≡ some d
    → (str_eq (find_victim v m).oldest_key "" ≡ false) × (beats d (find_victim v m) ≡ false)
unfolding find_victim IsMap lookup
find_victim-least v [] j d h found = ground arith
find_victim-least v ((k, c) ∷ m) j d h found = elim (Bool-cases (str_eq k j)) [
  | inl e ↦
      let same : c ≡ d = ground arith in
      let chosen = choose-least v k c h.0 in
      rw (sym same) (find_victim-beats (choose v k c) m c h.2 chosen.0 chosen.1)
  | inr e ↦ find_victim-least (choose v k c) m j d h.2 (ground arith)
]

-- An eviction from a cache with an entry `d`, whose keys stand once and are not empty, takes out one entry, and that is the least used: `d` was
-- read as often or more often, and is no older if it was read as often.
pub evict-least :
    (mc : ModelCache) (j : String) (d : CachedResponse)
    → IsMap mc.cache
    → lookup j mc.cache ≡ some d
    → let key = (find_victim no_victim mc.cache).oldest_key in
      (c : CachedResponse) × (lookup key mc.cache ≡ some c)
      × ((evict_least_used mc).cache ≡ erase key mc.cache)
      × (used_less d c ≡ false)
unfolding evict_least_used
evict-least mc j d h found =
    let least = find_victim-least no_victim mc.cache j d h found in
    elim (find_victim-found no_victim mc.cache h) [
      | inl (c, held, count, time) ↦ (c, held, ground arith, ground arith)
      | inr e ↦
          let clash : true ≡ false = sym (ap (λ u. str_eq u.oldest_key "") e) ∙ least.0 in
          ground arith
    ]

-- Inserting and erasing keep a map with named keys one.
lookup-absent-insert :
    (k j : String) (c : CachedResponse) (m : List (String × CachedResponse))
    → str_eq j k ≡ false
    → lookup k m ≡ none
    → lookup k (insert j c m) ≡ none
lookup-absent-insert k j c m other absent = ground (arith, lookup-insert j k c m)

insert-IsMap :
    (k : String) (c : CachedResponse) (m : List (String × CachedResponse))
    → str_eq k "" ≡ false
    → IsMap m
    → IsMap (insert k c m)
unfolding IsMap insert lookup
insert-IsMap k c [] named h = ground arith
insert-IsMap k c ((j, d) ∷ m) named h =
    ground
      (arith, eq_iff j k, eq_iff k j, insert-IsMap k c m named h.2, lookup-absent-insert j k c m)

erase-IsMap : (k : String) (m : List (String × CachedResponse)) → IsMap m → IsMap (erase k m)
unfolding IsMap erase
erase-IsMap k [] h = h
erase-IsMap k ((j, d) ∷ m) h = ground (arith, erase-IsMap k m h.2, lookup-erase k j m)

evict-length :
    (mc : ModelCache) (m : List (String × CachedResponse))
    → IsMap mc.cache
    → mc.cache ≡ m
    → length (evict_least_used mc).cache ≤ length mc.cache - 1
unfolding evict_least_used find_victim lookup
evict-length mc [] h e = rw (e) (ground arith)
evict-length mc ((k, d) ∷ m) h e =
    let evicted = evict-least mc k d h (rw (e, lookup) (ground (arith, eq_refl k))) in
    ground (arith, length-erase-lt (find_victim no_victim mc.cache).oldest_key mc.cache)

evict-IsMap : (mc : ModelCache) → IsMap mc.cache → IsMap (evict_least_used mc).cache
unfolding evict_least_used
evict-IsMap mc h =
    ground (arith, erase-IsMap (find_victim no_victim mc.cache).oldest_key mc.cache h)

evict-max_size : (mc : ModelCache) → (evict_least_used mc).max_size ≡ mc.max_size
unfolding evict_least_used
evict-max_size mc = ground arith

-- The entries form a map, and there are at most as many as the cache may hold, or one if it may
-- hold none.
unfoldable pub IsBounded : ModelCache → Type 0
IsBounded mc = IsMap mc.cache × (length mc.cache ≤ max mc.max_size 1) × (mc.max_size < half)

module _ (digest : Bytes → String) where
  -- Storing a response keeps the entries a map, and their number within the size of the cache, or at
  -- one entry where that size is 0; it takes that no digest is an empty text.
  pub set_with_ttl-IsBounded :
      (now : ℕ) (system_prompt user_prompt : Bytes) (response model_id : String) (ttl : ℕ)
      (mc : ModelCache)
      → ((text : Bytes) → str_eq (digest text) "" ≡ false)
      → IsBounded mc
      → IsBounded (set_with_ttl digest now system_prompt user_prompt response model_id ttl mc)
  unfolding set_with_ttl IsBounded generate_cache_key
  set_with_ttl-IsBounded now sp up response model_id ttl mc named h =
      let key = generate_cache_key digest sp up in
      let stored : CachedResponse = record {
        response = response;
        timestamp = now;
        model_id = model_id;
        access_count = 1;
        ttl = ttl;
      } in
      let fresh = named (sp ++ codes "|" ++ up) in
      elim (Bool-cases (sle mc.max_size (length mc.cache))) [
        | inl e ↦
            let room = evict_least_used mc in
            let is_map = evict-IsMap mc h.0 in
            rw (e) (
              ground (
                arith,
                insert-IsMap key stored room.cache fresh is_map,
                length-insert-le key stored room.cache,
                evict-length mc mc.cache h.0 refl,
                evict-max_size mc,
              ))
        | inr e ↦ rw (e) (
            ground (
              arith,
              insert-IsMap key stored mc.cache fresh h.0,
              length-insert-le key stored mc.cache,
            ))
      ]
