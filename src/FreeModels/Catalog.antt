-- ===== src/FreeModels/Catalog.antt =====
-- internal/service/freemodels/service.go: which models are free, and in which order they are listed.
pub mod Ordering
use ai_cv_evaluator.Base.{
  ℕ, zero, ◌-◌, ◌/◌, ◌<◌, min, ap, Bool, not, ◌&&◌, ◌||◌, Option, none, some, List, [], ◌∷◌, leb,
  ◌==◌, if◌then◌else◌, length, take, any, all, keep, Bytes, codes, to_lower, has_infix, trim_space,
  bytes_eq, sort_by,
}

-- The part of `float64` that prices and capacities use.
pub record Amounts : Type 1 where
  pub Amount : Type 0
  pub zero_amount : Amount
  -- 1e9.
  pub unknown_cost : Amount
  pub add : Amount → Amount → Amount
  pub less : Amount → Amount → Bool
  pub equal : Amount → Amount → Bool
  pub parse_float : Bytes → Option Amount

pub record Pricing : Type 0 where
  pub prompt : Bytes
  pub completion : Bytes
  pub request : Bytes
  pub image : Bytes

abbrev is_zero_price : Bytes → Bool
is_zero_price p = bytes_eq p (codes "0") || length p == 0 || bytes_eq p (codes "0.0")

unfoldable pub is_all_free : Pricing → Bool
is_all_free p =
    is_zero_price p.prompt
    && is_zero_price p.completion
    && is_zero_price p.request
    && is_zero_price p.image

abbrev pub excluded_models : List Bytes
excluded_models =
    codes "openrouter/auto"
    ∷ codes "google/gemma-3n-e2b-it:free"
    ∷ codes "google/gemma-3n-e4b-it:free"
    ∷ []

abbrev pub excluded_patterns : List Bytes
excluded_patterns =
    codes "gpt-4"
    ∷ codes "gpt-5"
    ∷ codes "claude-3"
    ∷ codes "gemini-pro"
    ∷ codes "mistral-large"
    ∷ codes "mixtral-8x"
    ∷ codes "llama-2-70b"
    ∷ codes "llama-2-13b"
    ∷ codes "command-"
    ∷ codes "auto"
    ∷ []

abbrev is_digit_or_dot : ℕ → Bool
is_digit_or_dot c = (leb 48 c && leb c 57) || c == 46

-- The leading digits and dots.
unfoldable pub number_prefix : Bytes → Bytes
number_prefix [] = []
number_prefix (c ∷ s) = if is_digit_or_dot c then c ∷ number_prefix s else []

-- `strings.TrimLeft(v, "$€£")`; in UTF-8 the last two signs have three and two bytes.
unfoldable pub trim_currency : Bytes → Bytes
trim_currency [] = []
trim_currency (a ∷ []) = if a == 36 then [] else a ∷ []
trim_currency (a ∷ b ∷ []) =
    let rest = trim_currency (b ∷ []) in
    if a == 36 then rest else if a == 194 && b == 163 then [] else a ∷ b ∷ []
trim_currency (a ∷ b ∷ c ∷ s) =
    let after_dollar = trim_currency (b ∷ c ∷ s) in
    let after_pound = trim_currency (c ∷ s) in
    let after_euro = trim_currency s in
    if a == 36
    then after_dollar
    else if a == 194 && b == 163
    then after_pound
    else if a == 226 && b == 130 && c == 172
    then after_euro
    else a ∷ b ∷ c ∷ s

module _ (amounts : Amounts) where
  open amounts use {Amount, zero_amount, unknown_cost, add, less, equal, parse_float}

  -- The limits are those per request, of the prompt and of the completion.
  pub record Model : Type 0 where
    pub id : Bytes
    pub pricing : Pricing
    pub context_length : Amount
    pub limits : Option (Amount × Amount)

  unfoldable pub is_free_model : Model → Bool
  is_free_model m =
      let model_id = to_lower m.id in
      not (any (bytes_eq model_id) excluded_models)
      && not (any (has_infix model_id) excluded_patterns)
      && is_all_free m.pricing

  unfoldable pub parse_price : Bytes → Amount
  parse_price v =
      let digits = number_prefix (trim_space (trim_currency v)) in
      if length v == 0
      then zero_amount
      else if length digits == 0
      then zero_amount
      else elim (parse_float digits) [ none ↦ zero_amount | some f ↦ f ]

  abbrev per_request : Option (Amount × Amount) → Amount
  per_request none = zero_amount
  per_request (some (prompt_tokens, completion_tokens)) = add prompt_tokens completion_tokens

  -- `x <= 0`, for an amount that is a number.
  abbrev is_nothing : Amount → Bool
  is_nothing x = less x zero_amount || equal x zero_amount

  unfoldable pub capacity_score : Model → Amount
  capacity_score m =
      if is_nothing (per_request m.limits) && less zero_amount m.context_length
      then m.context_length
      else per_request m.limits

  unfoldable pub effective_price : Pricing → Amount
  effective_price p =
      if less zero_amount (parse_price p.request)
      then parse_price p.request
      else add (parse_price p.prompt) (parse_price p.completion)

  -- The larger capacity first, and the lower price among equal ones.
  unfoldable pub comes_first : Model → Model → Bool
  comes_first a b =
      if not (equal (capacity_score a) (capacity_score b))
      then less (capacity_score b) (capacity_score a)
      else less (effective_price a.pricing) (effective_price b.pricing)

  unfoldable pub filter_free_models : List Model → List Model
  filter_free_models models = sort_by comes_first (keep is_free_model models)

  unfoldable pub paid_cost : Model → Amount
  paid_cost m =
      let request_cost = parse_price m.pricing.request in
      let sum = add (parse_price m.pricing.prompt) (parse_price m.pricing.completion) in
      let cost = if is_nothing request_cost then sum else request_cost in
      if is_nothing cost then unknown_cost else cost

  abbrev pub is_candidate : Model → Bool
  is_candidate m = not (is_free_model m) && not (bytes_eq (to_lower m.id) (codes "openrouter/auto"))

  abbrev pub is_cheaper : Model → Model → Bool
  is_cheaper a b = less (paid_cost a) (paid_cost b)

  -- The candidates by their cost, as many as the limit. `sort.Slice` leaves the order of equal costs
  -- open; here it is that of the list.
  unfoldable pub cheapest_of : ℕ → List Model → List Model
  cheapest_of limit models = take limit (sort_by is_cheaper (keep is_candidate models))
