-- ===== src/FreeModels/Catalog/Ordering.antt =====
-- internal/service/freemodels/service.go: the list of the free models against the list of all models.
use mathlib.Core.List.{Perm, List}
use mathlib.Core.Path.{subst}
use ai_cv_evaluator.Base.{
  ℕ, ◌≤◌, ◌≡◌, refl, sym, ◌∙◌, Bool, true, false, not, ◌&&◌, ◌||◌, [], ◌∷◌, arith, ◌==◌, length,
  any, keep, length-take, any-take, Bytes, codes, to_lower, has_infix, bytes_eq, All, sort_by,
  sort_by_perm, any-sort_by, IsOrdered, sort_by-IsOrdered,
}
use ai_cv_evaluator.FreeModels.Catalog.{
  Amounts, Model, is_free_model, capacity_score, effective_price, comes_first, filter_free_models,
  is_all_free, excluded_models, excluded_patterns, is_candidate, is_cheaper, cheapest_of,
}

module _ (amounts : Amounts) where
  open amounts use {Amount, less, equal}

  -- Amounts that are numbers: a strict order, and equality where neither is less.
  pub record IsOrder : Type 0 where
    pub asym : (a b : Amount) → less a b ≡ true → less b a ≡ false
    pub chain : (a b c : Amount) → less b a ≡ false → less c b ≡ false → less c a ≡ false
    pub same : (a b : Amount) → equal a b ≡ (not (less a b) && not (less b a))

  -- The larger capacity, or the lower price where neither capacity is larger.
  abbrev pub is_better : Model amounts → Model amounts → Bool
  is_better a b =
      less (capacity_score amounts b) (capacity_score amounts a)
      || (not (less (capacity_score amounts a) (capacity_score amounts b))
          && less (effective_price amounts a.pricing) (effective_price amounts b.pricing))

  -- The price is missing or zero.
  abbrev pub is_zero : Bytes → Bool
  is_zero price = any (bytes_eq price) ([] ∷ codes "0" ∷ codes "0.0" ∷ [])

  -- Four prices that are missing or zero, and an id, read in lower case, that is not excluded.
  abbrev pub costs_nothing : Model amounts → Bool
  costs_nothing m =
      not (any (bytes_eq (to_lower m.id)) excluded_models)
      && not (any (has_infix (to_lower m.id)) excluded_patterns)
      && (is_zero m.pricing.prompt
          && is_zero m.pricing.completion
          && is_zero m.pricing.request
          && is_zero m.pricing.image)

  any_zero :
      (price : Bytes)
      → (bytes_eq price (codes "0") || length price == 0 || bytes_eq price (codes "0.0"))
        ≡ is_zero price
  unfolding bytes_eq
  any_zero [] = refl
  any_zero (c ∷ s) = ground arith

  is_free_model-costs_nothing : (m : Model amounts) → is_free_model amounts m ≡ costs_nothing m
  unfolding is_free_model is_all_free
  is_free_model-costs_nothing m =
      rw
        (
          any_zero m.pricing.prompt,
          any_zero m.pricing.completion,
          any_zero m.pricing.request,
          any_zero m.pricing.image,
        )
        (refl)

  keep-costs_nothing :
      (ms : List (Model amounts)) → keep (is_free_model amounts) ms ≡ keep costs_nothing ms
  keep-costs_nothing [] = refl
  keep-costs_nothing (m ∷ ms) = rw (is_free_model-costs_nothing m, keep-costs_nothing ms) (refl)

  module _ (o : IsOrder) where
    comes_first-is_better : (a b : Model amounts) → comes_first amounts a b ≡ is_better a b
    unfolding comes_first
    comes_first-is_better a b =
        let ca : Amount = capacity_score amounts a in
        let cb : Amount = capacity_score amounts b in
        ground (arith, o.same ca cb, o.asym ca cb, o.asym cb ca)

    All-is_better :
        (m : Model amounts) (ms : List (Model amounts))
        → All (λ x. comes_first amounts x m ≡ false) ms
        → All (λ x. is_better x m ≡ false) ms
    All-is_better m [] h = tt
    All-is_better m (x ∷ xs) h = (sym (comes_first-is_better x m) ∙ h.0, All-is_better m xs h.1)

    is_better-IsOrdered :
        (ms : List (Model amounts)) → IsOrdered (comes_first amounts) ms → IsOrdered is_better ms
    is_better-IsOrdered [] h = tt
    is_better-IsOrdered (m ∷ ms) h = (All-is_better m ms h.0, is_better-IsOrdered ms h.1)

    comes_first-asym :
        (a b : Model amounts) → comes_first amounts a b ≡ true → comes_first amounts b a ≡ false
    unfolding comes_first
    comes_first-asym a b h =
        let ca : Amount = capacity_score amounts a in
        let cb : Amount = capacity_score amounts b in
        let pa : Amount = effective_price amounts a.pricing in
        let pb : Amount = effective_price amounts b.pricing in
        ground (arith, o.same ca cb, o.same cb ca, o.asym ca cb, o.asym cb ca, o.asym pa pb)

    comes_first-chain :
        (a b c : Model amounts)
        → comes_first amounts b a ≡ false
        → comes_first amounts c b ≡ false
        → comes_first amounts c a ≡ false
    unfolding comes_first
    comes_first-chain a b c h k =
        let ca : Amount = capacity_score amounts a in
        let cb : Amount = capacity_score amounts b in
        let cc : Amount = capacity_score amounts c in
        let pa : Amount = effective_price amounts a.pricing in
        let pb : Amount = effective_price amounts b.pricing in
        let pc : Amount = effective_price amounts c.pricing in
        ground (
          arith,
          o.same ca cb,
          o.same cb ca,
          o.same cb cc,
          o.same cc cb,
          o.same ca cc,
          o.same cc ca,
          o.asym ca cb,
          o.asym cb cc,
          o.asym ca cc,
          o.asym cb ca,
          o.asym cc cb,
          o.asym cc ca,
          o.chain ca cb cc,
          o.chain cc cb ca,
          o.chain ca cc cb,
          o.chain cb cc ca,
          o.chain cb ca cc,
          o.chain cc ca cb,
          o.chain pa pb pc,
        )

    -- When the amounts are numbers, the models that are listed are those of the list whose four prices are
    -- missing, "0" or "0.0" and whose id, in lower case, is not excluded and contains no excluded pattern,
    -- none lost or added; and no model stands after one with a smaller capacity, or with an equal
    -- capacity and a higher price.
    pub filter_free_models-IsOrdered :
        (ms : List (Model amounts))
        → Perm (filter_free_models amounts ms) (keep costs_nothing ms)
          × IsOrdered is_better (filter_free_models amounts ms)
    unfolding filter_free_models
    filter_free_models-IsOrdered ms = (
      subst (λ xs. Perm (filter_free_models amounts ms) xs) (keep-costs_nothing ms)
          (sort_by_perm (comes_first amounts) (keep (is_free_model amounts) ms)),
      is_better-IsOrdered (filter_free_models amounts ms) (
          sort_by-IsOrdered (comes_first amounts) comes_first-asym comes_first-chain
            (keep (is_free_model amounts) ms)),
    )

  no_free-candidates :
      (ms : List (Model amounts))
      → any (is_free_model amounts) (keep (is_candidate amounts) ms) ≡ false
  no_free-candidates [] = refl
  no_free-candidates (m ∷ ms) = ground (arith, no_free-candidates ms)

  -- At most `limit` models are offered for money, and none of them is free.
  pub cheapest_of-any :
      (limit : ℕ) (ms : List (Model amounts))
      → (length (cheapest_of amounts limit ms) ≤ limit)
        × (any (is_free_model amounts) (cheapest_of amounts limit ms) ≡ false)
  unfolding cheapest_of
  cheapest_of-any limit ms =
      let candidates : List (Model amounts) = keep (is_candidate amounts) ms in
      let sorted : List (Model amounts) = sort_by (is_cheaper amounts) candidates in
      (
        omega (arith, length-take limit sorted),
        any-take (is_free_model amounts) limit sorted (
            any-sort_by (is_cheaper amounts) (is_free_model amounts) candidates
            ∙ no_free-candidates ms),
      )
