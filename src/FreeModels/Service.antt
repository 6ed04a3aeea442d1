-- ===== src/FreeModels/Service.antt =====
-- internal/service/freemodels/service.go: the service that keeps the free models. The answer of the
-- API to a request is an argument, as are the times read.
pub mod Freshness
use ai_cv_evaluator.Base.{
  ℕ, ◌+◌, ◌-◌, ◌/◌, ap, Bool, not, ◌||◌, Option, none, some, List, [], ◌++◌, map, ◌==◌,
  if◌then◌else◌, length, all, keep, wrap, inc, dec, slt, sle, time_sub, Bytes, codes, All,
}
use ai_cv_evaluator.Domain.{Error, plain_error, wrap_error, Result, ok, err}
use ai_cv_evaluator.FreeModels.Catalog.{Amounts, Model, filter_free_models, cheapest_of}

module _ (amounts : Amounts) where
  pub data ApiReply : Type 0 where
    no_request no_connection undecodable : Error → ApiReply
    refused : ℕ → Bytes → ApiReply
    listed : List (Model amounts) → ApiReply

  -- `models` is nil exactly when it is empty: the filter starts from nil and appends.
  pub record Service : Type 0 where
    pub models : List (Model amounts)
    pub last_fetch : ℕ
    pub refresh_dur : ℕ

  unfoldable pub new_service : ℕ → Service
  new_service refresh_dur = record { models = []; last_fetch = 0; refresh_dur = refresh_dur }

  -- `s.models == nil || time.Since(s.lastFetch) > s.refreshDur`.
  unfoldable pub is_due : ℕ → Service → Bool
  is_due now s = length s.models == 0 || slt s.refresh_dur (time_sub now s.last_fetch)

  module _ (decimal : ℕ → Bytes) where
    abbrev status_error : ℕ → Bytes → Error
    status_error status body =
        if status == 429
        then plain_error (codes "OpenRouter API rate limited (429): " ++ body)
        else if status == 401
        then plain_error (codes "OpenRouter API authentication failed (401): " ++ body)
        else plain_error
            (codes "API request failed with status " ++ decimal status ++ codes ": " ++ body)

    unfoldable pub fetch_models_from_api : ApiReply → Result (List (Model amounts))
    fetch_models_from_api (no_request e) = err (wrap_error (codes "failed to create request: ") e)
    fetch_models_from_api (no_connection e) = err (wrap_error (codes "failed to make request: ") e)
    fetch_models_from_api (undecodable e) = err (wrap_error (codes "failed to decode response: ") e)
    fetch_models_from_api (refused status body) = err (status_error status body)
    fetch_models_from_api (listed all) = ok (filter_free_models amounts all)

    -- `fetchAllModelsFromAPI`; a status that is not 200 has one text here.
    unfoldable pub fetch_all_models_from_api : ApiReply → Result (List (Model amounts))
    fetch_all_models_from_api (no_request e) =
        err (wrap_error (codes "failed to create request: ") e)
    fetch_all_models_from_api (no_connection e) =
        err (wrap_error (codes "failed to make request: ") e)
    fetch_all_models_from_api (undecodable e) =
        err (wrap_error (codes "failed to decode response: ") e)
    fetch_all_models_from_api (refused status body) = err (
        plain_error
          (codes "API request failed with status " ++ decimal status ++ codes ": " ++ body))
    fetch_all_models_from_api (listed all) = ok all

    abbrev keep_fetched :
        Result (List (Model amounts)) → ℕ → Service → Result (List (Model amounts)) × Service
    keep_fetched (ok models) fetched s =
        (ok models, record s { models = models; last_fetch = fetched })
    keep_fetched (err e) fetched s = (
      if length s.models == 0
          then err (wrap_error (codes "failed to fetch models from API: ") e)
          else ok s.models,
      s,
    )

    -- `now` is the time of the check, `fetched` the time after the fetch.
    unfoldable pub get_free_models :
        ℕ → ApiReply → ℕ → Service → Result (List (Model amounts)) × Service
    get_free_models now reply fetched s =
        if is_due now s
        then keep_fetched (fetch_models_from_api reply) fetched s
        else (ok s.models, s)

    unfoldable pub get_model_ids : ℕ → ApiReply → ℕ → Service → Result (List Bytes) × Service
    get_model_ids now reply fetched s =
        let (r, s') = get_free_models now reply fetched s in
        (elim r [ ok models ↦ ok (map (λ m. m.id) models) | err e ↦ err e ], s')

    unfoldable pub refresh : ℕ → ApiReply → ℕ → Service → Option Error × Service
    refresh now reply fetched s =
        let (r, s') =
          get_free_models now reply fetched (record s { models = []; last_fetch = 0 }) in
        (elim r [ ok models ↦ none | err e ↦ some e ], s')

    unfoldable pub get_cheapest_paid_models : ℕ → ApiReply → Result (List (Model amounts))
    get_cheapest_paid_models limit reply =
        if sle limit 0 then ok [] else elim (fetch_all_models_from_api reply) [
          | err e ↦ err e
          | ok all ↦ ok (cheapest_of amounts limit all)
        ]
