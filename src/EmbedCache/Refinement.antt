-- ===== src/EmbedCache/Refinement.antt =====
-- internal/adapter/ai/cache.go: the cached client against the client that it wraps.
use mathlib.Core.Path.{subst}
use ai_cv_evaluator.Base.{
  ℕ, String, ◌≡◌, refl, ap, ◌∙◌, inl, inr, true, Option, none, some, List, [], ◌∷◌, map, arith,
  eq_iff, leb, ◌==◌, if◌then◌else◌, Bool-cases, Option-cases, length, Bytes, trim_space, lookup,
  erase, lookup-insert, lookup-erase,
}
use ai_cv_evaluator.Domain.{Result, ok}
use ai_cv_evaluator.EmbedCache.{
  EmbedCache, Embedded, vectors, evict_oldest, put, find_all, missing, fill_gaps, put_all, embed,
}

module _ {V : Type 0} (digest : Bytes → String) (vector : Bytes → V)
    (by_key : (t u : Bytes)
      → digest (trim_space t) ≡ digest (trim_space u)
      → vector t ≡ vector u) where
  -- Each vector in the map is that of the texts with its key.
  unfoldable pub IsTrue : EmbedCache V → Type 0
  IsTrue c = (t : Bytes) (v : V) → lookup (digest (trim_space t)) c.m ≡ some v → v ≡ vector t

  -- The client gives each text its vector.
  abbrev pub base : List Bytes → Result (List V)
  base texts = ok (map vector texts)

  evict_oldest-IsTrue : (c : EmbedCache V) → IsTrue c → IsTrue (evict_oldest c)
  unfolding evict_oldest IsTrue
  evict_oldest-IsTrue c h t v e = true_evicted c.ord c h t v e
    where
      true_evicted :
          (ord : List String) (c : EmbedCache V)
          → ((t : Bytes) (v : V) → lookup (digest (trim_space t)) c.m ≡ some v → v ≡ vector t)
          → (t : Bytes) (v : V)
          → lookup
              (digest (trim_space t))
              (if leb c.capacity (length ord)
                then elim ord [ [] ↦ c | old ∷ rest ↦ record c { ord = rest; m = erase old c.m } ]
                else c).m
            ≡ some v
          → v ≡ vector t
      true_evicted [] c h t v e = ground (arith, h t v)
      true_evicted (old ∷ rest) c h t v e =
          ground (arith, h t v, lookup-erase old (digest (trim_space t)) c.m)

  put-IsTrue : (t : Bytes) (c : EmbedCache V) → IsTrue c → IsTrue (put digest t (vector t) c)
  unfolding put IsTrue
  put-IsTrue t c h u v e = ground (
    arith,
    evict_oldest-IsTrue c h u v,
    h u v,
    by_key t u,
    eq_iff (digest (trim_space t)) (digest (trim_space u)),
    lookup-insert (digest (trim_space t)) (digest (trim_space u)) (vector t) c.m,
    lookup-insert (digest (trim_space t)) (digest (trim_space u)) (vector t) (evict_oldest c).m,
  )

  put_all-IsTrue :
      (ts : List Bytes) (c : EmbedCache V) → IsTrue c → IsTrue (put_all digest ts (map vector ts) c)
  unfolding put_all
  put_all-IsTrue [] c h = h
  put_all-IsTrue (t ∷ ts) c h = put_all-IsTrue ts (put digest t (vector t) c) (put-IsTrue t c h)

  fill_gaps-found :
      (v : V) (found : List (Option V)) (vecs rest : List V)
      → fill_gaps found vecs ≡ some rest
      → (fill_gaps (some v ∷ found) vecs ≡ some (v ∷ rest))
        × (fill_gaps (none ∷ found) (v ∷ vecs) ≡ some (v ∷ rest))
  unfolding fill_gaps
  fill_gaps-found v found vecs rest e = (rw (e) (refl), rw (e) (refl))

  fill_gaps-missing :
      (ts : List Bytes) (c : EmbedCache V)
      → IsTrue c
      → fill_gaps (find_all digest c ts) (map vector (missing digest c ts)) ≡ some (map vector ts)
  unfolding fill_gaps find_all missing IsTrue
  fill_gaps-missing [] c h = refl
  fill_gaps-missing (t ∷ ts) c h =
      let rest : _ = fill_gaps-missing ts c h in
      let found : List (Option V) = find_all digest c ts in
      let vecs : List V = map vector (missing digest c ts) in
      elim (Option-cases (lookup (digest (trim_space t)) c.m)) [
        | inl e ↦
            rw (e, missing, find_all) (fill_gaps-found (vector t) found vecs (map vector ts) rest).1
        | inr (v, e) ↦
            rw (e, missing, find_all)
              ((fill_gaps-found v found vecs (map vector ts) rest).0
                ∙ ap (λ x. some (x ∷ map vector ts)) (h t v e))
      ]

  no_vectors : (ts : List Bytes) → (length ts == 0) ≡ true → map vector ts ≡ []
  no_vectors [] e = refl
  no_vectors (t ∷ ts) e = ground arith

  -- A call of the cached client gives the vectors that the client gives, and keeps the map true.
  pub embed-base :
      (ts : List Bytes) (c : EmbedCache V)
      → IsTrue c
      → ((embed digest base ts c).0 ≡ vectors (map vector ts)) × IsTrue (embed digest base ts c).1
  unfolding embed
  embed-base ts c h =
      let filled : _ = fill_gaps-missing ts c h in
      elim (Bool-cases (length (missing digest c ts) == 0)) [
        | inl e ↦
            let emptied : fill_gaps (find_all digest c ts) [] ≡ some (map vector ts) =
              subst (λ vs. fill_gaps (find_all digest c ts) vs ≡ some (map vector ts))
                (no_vectors (missing digest c ts) e) filled in
            rw (e, embed) (rw (emptied) (refl), h)
        | inr e ↦ rw (e, embed) (rw (filled) (refl), put_all-IsTrue (missing digest c ts) c h)
      ]

  -- The answers to a sequence of calls.
  unfoldable pub run : List (List Bytes) → EmbedCache V → List (Embedded V)
  run [] c = []
  run (ts ∷ calls) c = let (r, c') = embed digest base ts c in r ∷ run calls c'

  run-IsTrue :
      (calls : List (List Bytes)) (c : EmbedCache V)
      → IsTrue c
      → run calls c ≡ map (λ ts. vectors (map vector ts)) calls
  unfolding run
  run-IsTrue [] c h = refl
  run-IsTrue (ts ∷ calls) c h =
      let (answered, kept) = embed-base ts c h in
      ap (λ r. r ∷ run calls (embed digest base ts c).1) answered
      ∙ ap (λ rs. vectors (map vector ts) ∷ rs) (run-IsTrue calls (embed digest base ts c).1 kept)

  -- From the empty cache, a sequence of calls has the answers that the client itself gives, when texts
  -- with one key have one vector.
  pub run_refines :
      (capacity : ℕ) (calls : List (List Bytes))
      → run calls (record { capacity = capacity; m = []; ord = [] })
        ≡ map (λ ts. vectors (map vector ts)) calls
  unfolding IsTrue lookup
  run_refines capacity calls =
      run-IsTrue calls (record { capacity = capacity; m = []; ord = [] }) (λ t v e. ground arith)
