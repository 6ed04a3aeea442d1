-- ===== src/FreeModels/Service/Freshness.antt =====
-- internal/service/freemodels/service.go: what the service answers to a call.
use ai_cv_evaluator.Base.{
  ℕ, ◌≡◌, refl, ◌≢◌, inl, inr, false, none, List, [], arith, ◌==◌, Bool-cases, length, all, slt,
  time_sub, Bytes,
}
use ai_cv_evaluator.Domain.{Error, Result, ok, err, Result-cases}
use ai_cv_evaluator.FreeModels.Catalog.{Amounts, Model, filter_free_models}
use ai_cv_evaluator.FreeModels.Service.{
  Service, ApiReply, no_request, no_connection, undecodable, refused, listed, is_due,
  fetch_models_from_api, get_free_models, refresh,
}

module _ (amounts : Amounts) (decimal : ℕ → Bytes) where
  -- A call of the service: the time of its check, the answer of the API should it be asked, and the
  -- time after that.
  pub record Call : Type 0 where
    pub now : ℕ
    pub reply : ApiReply amounts
    pub fetched : ℕ

  abbrev pub answer_of : Call → Service amounts → Result (List (Model amounts)) × Service amounts
  answer_of c s = get_free_models amounts decimal c.now c.reply c.fetched s

  -- The abstract service: the last list that was fetched, with the time of the fetch.
  abbrev pub Held : Type 0
  Held = List (Model amounts) × ℕ

  -- What a call may answer: the list that is held, while it is fresh or when the API fails; a list
  -- that the API gives now, which is then held; or an error, when nothing is held and the API fails.
  pub data Answers (refresh_dur : ℕ) (c : Call) (held : Held)
      : Result (List (Model amounts)) → Held → Type 0 where
    fresh :
        length held.0 ≢ 0
        → slt refresh_dur (time_sub c.now held.1) ≡ false
        → Answers refresh_dur c held (ok held.0) held
    fetched_now :
        (all : List (Model amounts))
        → c.reply ≡ listed all
        → Answers refresh_dur c held
            (ok (filter_free_models amounts all))
            (filter_free_models amounts all, c.fetched)
    stale :
        (e : Error)
        → length held.0 ≢ 0
        → fetch_models_from_api amounts decimal c.reply ≡ err e
        → Answers refresh_dur c held (ok held.0) held
    unavailable :
        (e : Error)
        → length held.0 ≡ 0
        → fetch_models_from_api amounts decimal c.reply ≡ err e
        → (f : Error) → Answers refresh_dur c held (err f) held

  fetched_list :
      (reply : ApiReply amounts) (ms : List (Model amounts))
      → fetch_models_from_api amounts decimal reply ≡ ok ms
      → (all : List (Model amounts)) × (reply ≡ listed all) × (ms ≡ filter_free_models amounts all)
  unfolding fetch_models_from_api
  fetched_list (no_request e) ms h = ground arith
  fetched_list (no_connection e) ms h = ground arith
  fetched_list (undecodable e) ms h = ground arith
  fetched_list (refused status body) ms h = ground arith
  fetched_list (listed all) ms h = (all, refl, ground arith)

  -- Every answer of the service is one that the abstract service may give, and the list and the time
  -- that it keeps are what the abstract service holds after that.
  pub get_free_models_refines :
      (c : Call) (s : Service amounts)
      → Answers s.refresh_dur c
          (s.models, s.last_fetch)
          (answer_of c s).0
          ((answer_of c s).1.models, (answer_of c s).1.last_fetch)
  unfolding get_free_models is_due
  get_free_models_refines c s = elim (Bool-cases (is_due amounts c.now s)) [
    | inr e ↦ rw (e, get_free_models) (fresh (ground arith) (ground arith))
    | inl e ↦ elim (Result-cases (fetch_models_from_api amounts decimal c.reply)) [
      | inl (ms, y) ↦
          let (all, asked, z) = fetched_list c.reply ms y in
          rw (e, y, z, get_free_models) (fetched_now all asked)
      | inr (x, y) ↦ elim (Bool-cases (length s.models == 0)) [
        | inl none_held ↦ rw (e, y, none_held, get_free_models) (unavailable x (ground arith) y _)
        | inr held ↦ rw (e, y, held, get_free_models) (stale x (ground arith) y)
      ]
    ]
  ]

  -- A refresh that fails leaves nothing: the list that was held is lost, and an error is reported, where
  -- a call without the refresh would have answered with the list.
  pub refresh_loses :
      (c : Call) (s : Service amounts) (e : Error)
      → length s.models ≢ 0
      → fetch_models_from_api amounts decimal c.reply ≡ err e
      → ((answer_of c s).0 ≡ ok s.models)
        × ((refresh amounts decimal c.now c.reply c.fetched s).1.models ≡ [])
        × ((refresh amounts decimal c.now c.reply c.fetched s).0 ≢ none)
  unfolding get_free_models is_due refresh
  refresh_loses c s e held failed = (
    elim (Bool-cases (is_due amounts c.now s)) [
      | inl due ↦ rw (due, failed, get_free_models) (ground arith)
      | inr not_due ↦ rw (not_due, get_free_models) (refl)
    ],
    rw (failed, refresh) (refl),
    rw (failed, refresh) (ground arith),
  )
