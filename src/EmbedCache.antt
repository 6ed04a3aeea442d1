-- ===== src/EmbedCache.antt =====
-- internal/adapter/ai/cache.go: the cache of embedding vectors around a client. The client's `Embed`
-- is a parameter, as is the digest of a text, SHA-256 in hexadecimal.
pub mod Refinement
pub mod Capacity
use ai_cv_evaluator.Base.{
  ℕ, ◌+◌, ◌-◌, ◌/◌, String, ap, not, Option, none, some, List, [], ◌∷◌, ◌++◌, map, leb, ◌==◌,
  if◌then◌else◌, length, any, all, dec, sle, Bytes, trim_space, lookup, insert, erase,
}
use ai_cv_evaluator.Domain.{Error, Result, ok, err}

-- The map, and its keys in the order of their insertion.
pub record EmbedCache {ℓ} (V : Type ℓ) : Type ℓ where
  pub capacity : ℕ
  pub m : List (String × V)
  pub ord : List String

-- The result of a call; `panicked` for an index past the end of the client's vectors.
pub data Embedded {ℓ} (V : Type ℓ) : Type ℓ where
  vectors : List V → Embedded V
  failed : Error → Embedded V
  panicked : Embedded V

abbrev pub key_for : (Bytes → String) → Bytes → String
key_for digest text = digest (trim_space text)

module _ {ℓ} {V : Type ℓ} where
  -- `none` when the base client is returned as it is.
  unfoldable pub new_embed_cache : ℕ → Option (EmbedCache V)
  new_embed_cache capacity =
      if sle capacity 0 then none else some (record { capacity = capacity; m = []; ord = [] })

  -- Drops the oldest key when there are as many keys as the capacity.
  unfoldable pub evict_oldest : EmbedCache V → EmbedCache V
  evict_oldest c =
      if leb c.capacity (length c.ord)
      then elim c.ord [ [] ↦ c | old ∷ rest ↦ record c { ord = rest; m = erase old c.m } ]
      else c

  abbrev add : String → V → EmbedCache V → EmbedCache V
  add k vec c = record c { m = insert k vec c.m; ord = c.ord ++ k ∷ [] }

  -- The loop that fills the gaps in order with the client's vectors.
  unfoldable pub fill_gaps : List (Option V) → List V → Option (List V)
  fill_gaps [] vecs = some []
  fill_gaps (some v ∷ found) vecs = elim (fill_gaps found vecs) [
    | none ↦ none
    | some rest ↦ some (v ∷ rest)
  ]
  fill_gaps (none ∷ found) [] = none
  fill_gaps (none ∷ found) (v ∷ vecs) = elim (fill_gaps found vecs) [
    | none ↦ none
    | some rest ↦ some (v ∷ rest)
  ]

  abbrev embedded_of : Option (List V) → Embedded V
  embedded_of none = panicked
  embedded_of (some vs) = vectors vs

  module _ (digest : Bytes → String) where
    unfoldable pub put : Bytes → V → EmbedCache V → EmbedCache V
    put text vec c =
        let k = key_for digest text in
        elim (lookup k c.m) [
          | some old ↦ record c { m = insert k vec c.m }
          | none ↦ add k vec (evict_oldest c)
        ]

    -- The loop that looks the texts up: what was found, and the texts that were not.
    unfoldable pub find_all : EmbedCache V → List Bytes → List (Option V)
    find_all c texts = map (λ t. lookup (key_for digest t) c.m) texts

    unfoldable pub missing : EmbedCache V → List Bytes → List Bytes
    missing c [] = []
    missing c (t ∷ ts) = elim (lookup (key_for digest t) c.m) [
      | some v ↦ missing c ts
      | none ↦ t ∷ missing c ts
    ]

    unfoldable pub put_all : List Bytes → List V → EmbedCache V → EmbedCache V
    put_all [] vecs c = c
    put_all (t ∷ ts) [] c = c
    put_all (t ∷ ts) (v ∷ vecs) c = put_all ts vecs (put t v c)

    unfoldable pub embed :
        (List Bytes → Result (List V)) → List Bytes → EmbedCache V → Embedded V × EmbedCache V
    embed base texts c =
        let found = find_all c texts in
        let asked = missing c texts in
        if length asked == 0 then (embedded_of (fill_gaps found []), c) else elim (base asked) [
          | err e ↦ (failed e, c)
          | ok vecs ↦ (embedded_of (fill_gaps found vecs), put_all asked vecs c)
        ]
