-- ===== src/Base/Assoc.antt =====
-- A Go map with string keys, as an association list. `range` over a map visits the entries in an
-- order that Go leaves open; here it is the order of the list.
use Prim.Native.Nat.{◌+◌, ◌≤◌, ◌<◌}
use Prim.Native.String.{String}
use mathlib.Core.Path.{◌≡◌, refl}
use mathlib.Core.Logic.{◌≢◌, inl, inr}
use mathlib.Core.Bool.{Bool, false}
use mathlib.Core.List.{List, [], ◌∷◌}
use mathlib.Core.Option.{Option, none, some}
use text.Mathlib.Text.{◌==◌ as str_eq}
use text.Mathlib.TextEquality.{eq_iff}
use native.Mathlib.Omega.{arith}
use ai_cv_evaluator.Base.Tests.{Bool-cases, if◌then◌else◌}
use ai_cv_evaluator.Base.Lists.{length, any}

module _ {ℓ} {V : Type ℓ} where
  unfoldable pub lookup : String → List (String × V) → Option V
  lookup k [] = none
  lookup k ((other, v) ∷ kvs) = if str_eq other k then some v else lookup k kvs

  unfoldable pub insert : String → V → List (String × V) → List (String × V)
  insert k v [] = (k, v) ∷ []
  insert k v ((other, old) ∷ kvs) =
      if str_eq other k then (k, v) ∷ kvs else (other, old) ∷ insert k v kvs

  unfoldable pub erase : String → List (String × V) → List (String × V)
  erase k [] = []
  erase k ((other, old) ∷ kvs) = if str_eq other k then erase k kvs else (other, old) ∷ erase k kvs

  pub lookup-insert :
      (k other : String) (v : V) (kvs : List (String × V))
      → lookup other (insert k v kvs) ≡ (if str_eq k other then some v else lookup other kvs)
  unfolding lookup insert
  lookup-insert k other v [] = refl
  lookup-insert k other v ((held, old) ∷ kvs) =
      ground (arith, eq_iff k other, eq_iff held k, eq_iff held other, lookup-insert k other v kvs)

  pub lookup-erase :
      (k other : String) (kvs : List (String × V))
      → lookup other (erase k kvs) ≡ (if str_eq k other then none else lookup other kvs)
  unfolding lookup erase
  lookup-erase k other [] = ground arith
  lookup-erase k other ((held, old) ∷ kvs) =
      ground (arith, eq_iff k other, eq_iff held k, eq_iff held other, lookup-erase k other kvs)

  pub length-insert-le :
      (k : String) (v : V) (kvs : List (String × V)) → length (insert k v kvs) ≤ length kvs + 1
  unfolding insert
  length-insert-le k v [] = omega arith
  length-insert-le k v ((held, old) ∷ kvs) = ground (arith, length-insert-le k v kvs)

  pub length-erase-le : (k : String) (kvs : List (String × V)) → length (erase k kvs) ≤ length kvs
  unfolding erase
  length-erase-le k [] = omega arith
  length-erase-le k ((held, old) ∷ kvs) = ground (arith, length-erase-le k kvs)

  -- Erasing a key that is there makes the map smaller.
  pub length-erase-lt :
      (k : String) (kvs : List (String × V))
      → lookup k kvs ≢ none
      → length (erase k kvs) < length kvs
  unfolding lookup erase
  length-erase-lt k [] h = absurd (h refl)
  length-erase-lt k ((held, old) ∷ kvs) h =
      ground (arith, length-erase-le k kvs, length-erase-lt k kvs)

abbrev has_key : String → List String → Bool
has_key k ks = any (λ other. str_eq other k) ks

module _ {V : Type 0} where
  -- The keys of the entries that pass a test, collected as a loop over the map does, and the
  -- erasure of a list of keys.
  unfoldable pub keys_where : (V → Bool) → List (String × V) → List String
  keys_where p [] = []
  keys_where p ((k, v) ∷ kvs) = if p v then k ∷ keys_where p kvs else keys_where p kvs

  unfoldable pub erase_all : List String → List (String × V) → List (String × V)
  erase_all [] kvs = kvs
  erase_all (k ∷ ks) kvs = erase_all ks (erase k kvs)

  -- Each key stands once.
  unfoldable pub IsUnique : List (String × V) → Type 0
  IsUnique [] = Unit
  IsUnique ((k, v) ∷ kvs) = (lookup k kvs ≡ none) × IsUnique kvs

  -- An entry is there and passes a test.
  abbrev pub passes : (V → Bool) → Option V → Bool
  passes p none = false
  passes p (some v) = p v

  lookup-erase_all :
      (ks : List String) (k : String) (kvs : List (String × V))
      → lookup k (erase_all ks kvs) ≡ (if has_key k ks then none else lookup k kvs)
  unfolding erase_all
  lookup-erase_all [] k kvs = refl
  lookup-erase_all (other ∷ ks) k kvs =
      ground (arith, lookup-erase_all ks k (erase other kvs), lookup-erase other k kvs)

  keys_where-has_key :
      (p : V → Bool) (kvs : List (String × V)) (k : String)
      → IsUnique kvs
      → has_key k (keys_where p kvs) ≡ passes p (lookup k kvs)
  unfolding keys_where lookup IsUnique
  keys_where-has_key p [] k h = refl
  keys_where-has_key p ((other, v) ∷ kvs) k h = elim (Bool-cases (p v)) [
    | inl e ↦ ground (arith, eq_iff other k, keys_where-has_key p kvs k h.1)
    | inr e ↦ ground (arith, eq_iff other k, keys_where-has_key p kvs k h.1)
  ]

  -- Erasing the entries that pass a test leaves the others.
  pub lookup-erase_where :
      (p : V → Bool) (kvs : List (String × V)) (k : String)
      → IsUnique kvs
      → lookup k (erase_all (keys_where p kvs) kvs)
        ≡ (if passes p (lookup k kvs) then none else lookup k kvs)
  lookup-erase_where p kvs k h =
      ground (arith, lookup-erase_all (keys_where p kvs) k kvs, keys_where-has_key p kvs k h)

  lookup-absent-insert :
      (k other : String) (v : V) (kvs : List (String × V))
      → str_eq other k ≡ false
      → lookup k kvs ≡ none
      → lookup k (insert other v kvs) ≡ none
  lookup-absent-insert k other v kvs differ absent = ground (arith, lookup-insert other k v kvs)

  pub insert-IsUnique :
      (k : String) (v : V) (kvs : List (String × V)) → IsUnique kvs → IsUnique (insert k v kvs)
  unfolding IsUnique insert lookup
  insert-IsUnique k v [] h = ground arith
  insert-IsUnique k v ((other, old) ∷ kvs) h = ground (
    arith,
    eq_iff other k,
    eq_iff k other,
    insert-IsUnique k v kvs h.1,
    lookup-absent-insert other k v kvs,
  )

  pub erase-IsUnique :
      (k : String) (kvs : List (String × V)) → IsUnique kvs → IsUnique (erase k kvs)
  unfolding IsUnique erase
  erase-IsUnique k [] h = h
  erase-IsUnique k ((other, old) ∷ kvs) h =
      ground (arith, erase-IsUnique k kvs h.1, lookup-erase k other kvs)
