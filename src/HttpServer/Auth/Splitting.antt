-- ===== src/HttpServer/Auth/Splitting.antt =====
-- internal/adapter/httpserver/auth.go: texts that are joined at a separator and split there again.
use ai_cv_evaluator.Base.{
  ℕ, ◌+◌, ◌≤◌, ◌≡◌, refl, ap, Bool, true, not, List, [], ◌∷◌, ◌++◌, arith, ◌==◌, length, all, Bytes,
}
use ai_cv_evaluator.HttpServer.Auth.{split, add_first}

-- No byte of a text is the separator.
abbrev pub is_free_of : ℕ → Bytes → Bool
is_free_of sep s = all (λ c. not (c == sep)) s

pub split-whole : (sep : ℕ) (s : Bytes) → is_free_of sep s ≡ true → split sep s ≡ s ∷ []
unfolding split
split-whole sep [] h = refl
split-whole sep (c ∷ s) h = ground (arith, split-whole sep s)

pub split-append :
    (sep : ℕ) (s rest : Bytes)
    → is_free_of sep s ≡ true
    → split sep (s ++ sep ∷ rest) ≡ s ∷ split sep rest
unfolding split
split-append sep [] rest h = ground arith
split-append sep (c ∷ s) rest h = ground (arith, split-append sep s rest)

length-add_first : (c : ℕ) (xs : List Bytes) → 1 ≤ length xs → length (add_first c xs) ≡ length xs
length-add_first c [] h = ground (arith, h)
length-add_first c (x ∷ xs) h = refl

pub length-split_pos : (sep : ℕ) (s : Bytes) → 1 ≤ length (split sep s)
unfolding split
length-split_pos sep [] = ground arith
length-split_pos sep (c ∷ s) =
    ground
      (arith, length-add_first c (split sep s) (length-split_pos sep s), length-split_pos sep s)

-- A separator makes a part more.
pub length-split :
    (sep : ℕ) (s rest : Bytes)
    → length (split sep (s ++ sep ∷ rest)) ≡ length (split sep s) + length (split sep rest)
unfolding split
length-split sep [] rest = ground arith
length-split sep (c ∷ s) rest =
    let whole = s ++ sep ∷ rest in
    ground (
      arith,
      length-split sep s rest,
      length-add_first c (split sep s) (length-split_pos sep s),
      length-add_first c (split sep whole) (length-split_pos sep whole),
    )

pub is_free_of-append :
    (sep : ℕ) (s t : Bytes)
    → is_free_of sep s ≡ true
    → is_free_of sep t ≡ true
    → is_free_of sep (s ++ t) ≡ true
is_free_of-append sep [] t h k = k
is_free_of-append sep (c ∷ s) t h k = ground (arith, is_free_of-append sep s t)

-- A longer text has no fewer parts.
pub length-split_longer :
    (sep : ℕ) (s t : Bytes) → length (split sep s) ≤ length (split sep (s ++ t))
unfolding split
length-split_longer sep [] t = ground (arith, length-split_pos sep t)
length-split_longer sep (c ∷ s) t = ground (
  arith,
  length-split_longer sep s t,
  length-add_first c (split sep s) (length-split_pos sep s),
  length-add_first c (split sep (s ++ t)) (length-split_pos sep (s ++ t)),
)

pub append_assoc : (s t u : Bytes) → (s ++ t) ++ u ≡ s ++ (t ++ u)
append_assoc [] t u = refl
append_assoc (c ∷ s) t u = ap (λ (r : Bytes). c ∷ r) (append_assoc s t u)
