-- ===== src/Base/Sorting.antt =====
-- A stable sort by a test `less`, as `sort.SliceStable` does: elements that neither test puts first
-- keep their order. `sort.Slice` gives one of the sorted orders; here it gives the stable one.
use mathlib.Core.Path.{◌≡◌, refl}
use mathlib.Core.Logic.{inl, inr}
use mathlib.Core.Bool.{Bool, true, false, ◌||◌}
use mathlib.Core.List.{List, [], ◌∷◌, Perm}
use mathlib.Core.List.Perm
use native.Mathlib.Omega.{arith}
use ai_cv_evaluator.Base.Tests.{Bool-cases, if◌then◌else◌}
use ai_cv_evaluator.Base.Lists.{any}

-- What holds of every element.
abbrev pub All {ℓ κ} : {A : Type ℓ} → (A → Type κ) → List A → Type κ
All P [] = Unit
All P (x ∷ xs) = P x × All P xs

module _ {ℓ} {A : Type ℓ} (less : A → A → Bool) where
  unfoldable pub insert_by : A → List A → List A
  insert_by x [] = x ∷ []
  insert_by x (y ∷ ys) = if less y x then y ∷ insert_by x ys else x ∷ y ∷ ys

  unfoldable pub sort_by : List A → List A
  sort_by [] = []
  sort_by (x ∷ xs) = insert_by x (sort_by xs)

  insert_by_perm : (x : A) (ys : List A) → Perm (insert_by x ys) (x ∷ ys)
  unfolding insert_by
  insert_by_perm x [] = Perm.refl (x ∷ [])
  insert_by_perm x (y ∷ ys) = elim (Bool-cases (less y x)) [
    | inl e ↦ rw (e) (Perm.trans (Perm.cons y (insert_by_perm x ys)) (Perm.swap x y ys))
    | inr e ↦ rw (e) (Perm.refl (x ∷ y ∷ ys))
  ]

  -- Sorting loses and invents nothing.
  pub sort_by_perm : (xs : List A) → Perm (sort_by xs) xs
  unfolding sort_by
  sort_by_perm [] = Perm.refl []
  sort_by_perm (x ∷ xs) = Perm.trans (insert_by_perm x (sort_by xs)) (Perm.cons x (sort_by_perm xs))

  any-insert_by : (p : A → Bool) (x : A) (ys : List A) → any p (insert_by x ys) ≡ (p x || any p ys)
  unfolding insert_by
  any-insert_by p x [] = refl
  any-insert_by p x (y ∷ ys) = ground (arith, any-insert_by p x ys)

  pub any-sort_by : (p : A → Bool) (xs : List A) → any p (sort_by xs) ≡ any p xs
  unfolding sort_by
  any-sort_by p [] = refl
  any-sort_by p (x ∷ xs) = ground (arith, any-insert_by p x (sort_by xs), any-sort_by p xs)

  -- No element is put before one that should come first.
  abbrev pub IsOrdered : List A → Type 0
  IsOrdered [] = Unit
  IsOrdered (x ∷ xs) = All (λ y. less y x ≡ false) xs × IsOrdered xs

  module _ (asym : (a b : A) → less a b ≡ true → less b a ≡ false)
      (chain : (a b c : A) → less b a ≡ false → less c b ≡ false → less c a ≡ false) where
    All-insert_by :
        (z x : A) (ys : List A)
        → less x z ≡ false
        → All (λ y. less y z ≡ false) ys
        → All (λ y. less y z ≡ false) (insert_by x ys)
    unfolding insert_by
    All-insert_by z x [] h a = (h, tt)
    All-insert_by z x (y ∷ ys) h a = elim (Bool-cases (less y x)) [
      | inl e ↦ rw (e) (a.0, All-insert_by z x ys h a.1)
      | inr e ↦ rw (e) (h, a)
    ]

    All-chain :
        (z x : A) (ys : List A)
        → less x z ≡ false
        → All (λ y. less y x ≡ false) ys
        → All (λ y. less y z ≡ false) ys
    All-chain z x [] h a = tt
    All-chain z x (y ∷ ys) h a = (chain z x y h a.0, All-chain z x ys h a.1)

    insert_by-IsOrdered : (x : A) (ys : List A) → IsOrdered ys → IsOrdered (insert_by x ys)
    unfolding insert_by
    insert_by-IsOrdered x [] o = (tt, tt)
    insert_by-IsOrdered x (y ∷ ys) o = elim (Bool-cases (less y x)) [
      | inl e ↦ rw (e) (All-insert_by y x ys (asym y x e) o.0, insert_by-IsOrdered x ys o.1)
      | inr e ↦ rw (e) ((e, All-chain x y ys e o.0), o)
    ]

    pub sort_by-IsOrdered : (xs : List A) → IsOrdered (sort_by xs)
    unfolding sort_by
    sort_by-IsOrdered [] = tt
    sort_by-IsOrdered (x ∷ xs) = insert_by-IsOrdered x (sort_by xs) (sort_by-IsOrdered xs)
