-- ===== src/EmbedCache/Capacity.antt =====
-- internal/adapter/ai/cache.go: how many vectors the cache holds.
use mathlib.Core.Path.{subst}
use ai_cv_evaluator.Base.{
  ℕ, ◌≤◌, ◌<◌, String, ◌≡◌, refl, sym, ap, ◌∙◌, inl, inr, false, none, some, List, [], ◌∷◌, ◌++◌,
  arith, eq_iff, leb, ◌==◌, Bool-cases, Option-cases, length, length-append, Bytes, trim_space,
  lookup, insert, erase, IsUnique, insert-IsUnique,
}
use ai_cv_evaluator.Domain.{Result, Result-cases}
use ai_cv_evaluator.EmbedCache.{EmbedCache, evict_oldest, put, missing, put_all, embed}

leb-false : (a b : ℕ) → b < a → leb a b ≡ false
leb-false a b h = ground arith

module _ {V : Type 0} where
  -- The keys of the map, in order.
  abbrev pub keys : List (String × V) → List String
  keys [] = []
  keys ((k, v) ∷ kvs) = k ∷ keys kvs

  insert-absent :
      (k : String) (v : V) (kvs : List (String × V))
      → lookup k kvs ≡ none
      → keys (insert k v kvs) ≡ keys kvs ++ k ∷ []
  unfolding insert lookup
  insert-absent k v [] e = refl
  insert-absent k v ((other, old) ∷ kvs) e = ground (arith, insert-absent k v kvs)

  insert-present :
      (k : String) (v old : V) (kvs : List (String × V))
      → lookup k kvs ≡ some old
      → keys (insert k v kvs) ≡ keys kvs
  unfolding insert lookup
  insert-present k v old [] e = ground arith
  insert-present k v old ((other, w) ∷ kvs) e =
      ground (arith, eq_iff other k, insert-present k v old kvs)

  erase-absent : (k : String) (kvs : List (String × V)) → lookup k kvs ≡ none → erase k kvs ≡ kvs
  unfolding erase lookup
  erase-absent k [] e = refl
  erase-absent k ((other, w) ∷ kvs) e = ground (arith, erase-absent k kvs)

  -- The order lists the keys of the map, each once, and no more of them than the capacity.
  pub record IsKept (c : EmbedCache V) : Type 0 where
    pub unique : IsUnique c.m
    pub listed : keys c.m ≡ c.ord
    pub bounded : length c.ord ≤ c.capacity

  lookup-tail :
      (k other : String) (v : V) (kvs : List (String × V))
      → lookup k ((other, v) ∷ kvs) ≡ none
      → lookup k kvs ≡ none
  unfolding lookup
  lookup-tail k other v kvs e = ground arith

  erased :
      (old : String) (v : V) (kvs : List (String × V))
      → lookup old kvs ≡ none
      → erase old ((old, v) ∷ kvs) ≡ kvs
  unfolding erase
  erased old v kvs e = ground (arith, eq_iff old old, erase-absent old kvs e)

  -- There is room for one more, and the key `k` is still absent.
  record HasRoom (k : String) (c : EmbedCache V) : Type 0 where
    kept : IsKept c
    room : length c.ord < c.capacity
    absent : lookup k c.m ≡ none

  Evicts : String → ℕ → List (String × V) → List String → Type 0
  Evicts k cap m ord =
      HasRoom k (evict_oldest (record { capacity = cap; m = m; ord = ord }))
      × ((evict_oldest (record { capacity = cap; m = m; ord = ord })).capacity ≡ cap)

  evict_keys :
      (k : String) (cap : ℕ) (m : List (String × V))
      → 0 < cap
      → IsUnique m
      → length (keys m) ≤ cap
      → lookup k m ≡ none
      → Evicts k cap m (keys m)
  unfolding Evicts evict_oldest IsUnique
  evict_keys k cap [] pos unique bounded e = rw (leb-false cap 0 pos) (
    record {
      kept = record { unique = unique; listed = refl; bounded = bounded };
      room = pos;
      absent = e;
    },
    refl,
  )
  evict_keys k cap ((old, v) ∷ kvs) pos unique bounded e =
      elim (Bool-cases (leb cap (length (keys ((old, v) ∷ kvs))))) [
        | inr free ↦ rw (free) (
          record {
            kept = record { unique = unique; listed = refl; bounded = bounded };
            room = ground arith;
            absent = e;
          },
          refl,
        )
        | inl full ↦
            rw (full, erased old v kvs unique.0)
              (
                record {
                  kept = record { unique = unique.1; listed = refl; bounded = ground arith };
                  room = ground arith;
                  absent = lookup-tail k old v kvs e;
                },
                refl,
              )
      ]

  evict_oldest-HasRoom :
      (k : String) (c : EmbedCache V)
      → 0 < c.capacity
      → IsKept c
      → lookup k c.m ≡ none
      → HasRoom k (evict_oldest c) × ((evict_oldest c).capacity ≡ c.capacity)
  unfolding Evicts
  evict_oldest-HasRoom k c pos h e = subst (Evicts k c.capacity c.m) h.listed (
      evict_keys k c.capacity c.m pos h.unique
        (subst (λ ord. length ord ≤ c.capacity) (sym h.listed) h.bounded) e)

  put-IsKept :
      (digest : Bytes → String) (t : Bytes) (v : V) (c : EmbedCache V)
      → 0 < c.capacity
      → IsKept c
      → IsKept (put digest t v c) × ((put digest t v c).capacity ≡ c.capacity)
  unfolding put
  put-IsKept digest t v c pos h =
      let k : String = digest (trim_space t) in
      elim (Option-cases (lookup k c.m)) [
        | inl e ↦
            let (r, same) = evict_oldest-HasRoom k c pos h e in
            rw (e, put)
              (
                record {
                  unique = insert-IsUnique k v (evict_oldest c).m r.kept.unique;
                  listed =
                      insert-absent k v (evict_oldest c).m r.absent
                      ∙ ap (λ ks. ks ++ k ∷ []) r.kept.listed;
                  bounded =
                      ground (arith, r.room, same, length-append (evict_oldest c).ord (k ∷ []));
                },
                same,
              )
        | inr (old, e) ↦
            rw (e, put)
              (
                record {
                  unique = insert-IsUnique k v c.m h.unique;
                  listed = insert-present k v old c.m e ∙ h.listed;
                  bounded = h.bounded;
                },
                refl,
              )
      ]

  put_all-IsKept :
      (digest : Bytes → String) (ts : List Bytes) (vs : List V) (c : EmbedCache V)
      → 0 < c.capacity
      → IsKept c
      → IsKept (put_all digest ts vs c) × ((put_all digest ts vs c).capacity ≡ c.capacity)
  unfolding put_all
  put_all-IsKept digest [] vs c pos h = (h, refl)
  put_all-IsKept digest (t ∷ ts) [] c pos h = (h, refl)
  put_all-IsKept digest (t ∷ ts) (v ∷ vs) c pos h =
      let (kept, same) = put-IsKept digest t v c pos h in
      let (all_kept, all_same) =
        put_all-IsKept digest ts vs (put digest t v c) (rw (same) (pos)) kept in
      (all_kept, all_same ∙ same)

  -- Whatever the client answers, a call keeps the map and the order of the keys in step, without
  -- duplicates, and within the capacity.
  pub embed-IsKept :
      (digest : Bytes → String) (base : List Bytes → Result (List V)) (ts : List Bytes)
      (c : EmbedCache V)
      → 0 < c.capacity
      → IsKept c
      → IsKept (embed digest base ts c).1
  unfolding embed
  embed-IsKept digest base ts c pos h = elim (Bool-cases (length (missing digest c ts) == 0)) [
    | inl e ↦ rw (e, embed) (h)
    | inr e ↦ elim (Result-cases (base (missing digest c ts))) [
      | inl (vs, y) ↦ rw (e, y, embed) ((put_all-IsKept digest (missing digest c ts) vs c pos h).0)
      | inr (x, y) ↦ rw (e, y, embed) (h)
    ]
  ]
