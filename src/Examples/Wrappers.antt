-- ===== src/Examples/Wrappers.antt =====
-- The theorems on the cached and the observed clients and on the free models at concrete inputs.
use ai_cv_evaluator.Base.{
  ℕ, ◌+◌, ◌*◌, String, ◌≡◌, refl, ap, ◌≢◌, false, none, some, [], ◌∷◌, map, arith, str_eq, ltb,
  ◌==◌, if◌then◌else◌, keep, second, Bytes, codes, trim_space, IsUnique, IsOrdered,
}
use ai_cv_evaluator.Domain.{Result, ok, plain_error, wrap_error}
use ai_cv_evaluator.Float.{tenths}
use ai_cv_evaluator.EmbedCache.{EmbedCache, vectors, embed}
use ai_cv_evaluator.EmbedCache.Refinement.{run, run_refines}
use ai_cv_evaluator.EmbedCache.Capacity.{IsKept, embed-IsKept}
use ai_cv_evaluator.Observable.Timeout.{
  new_timeout_manager, scaled, note_all, success, failure, timeout, IsWithin, note_all-IsWithin,
}
use ai_cv_evaluator.Observable.Client.{
  ObservableClient, Returned, returned_nil, returned_err, new_observable_client, execute_with_retry,
}
use ai_cv_evaluator.Observable.Accounting.{IsRetried, execute_with_retry-IsRetried}
use ai_cv_evaluator.Metrics.{new_connection_metrics}
use ai_cv_evaluator.FreeModels.Catalog.{Amounts, Model, filter_free_models}
use ai_cv_evaluator.FreeModels.Catalog.Ordering.{
  IsOrder, costs_nothing, is_better, filter_free_models-IsOrdered,
}
use ai_cv_evaluator.FreeModels.Service.{Service, no_connection, fetch_models_from_api, refresh}
use ai_cv_evaluator.FreeModels.Service.Freshness.{
  Call, answer_of, Answers, get_free_models_refines, refresh_loses,
}
use mathlib.Core.List.{Perm, List}

-- Stands in for the digest: whether there is a first byte "a".
abbrev digest : Bytes → String
digest [] = "00"
digest (c ∷ s) = if c == 97 then "61" else "00"

abbrev vector : Bytes → ℕ
vector t = if str_eq (digest (trim_space t)) "61" then 1 else 2

vector_by_key : (t u : Bytes) → digest (trim_space t) ≡ digest (trim_space u) → vector t ≡ vector u
vector_by_key t u e = ap (λ (k : String). if str_eq k "61" then 1 else 2) e

abbrev texts : List (List Bytes)
texts = (codes "a" ∷ codes "b" ∷ []) ∷ (codes "c" ∷ codes "ab" ∷ []) ∷ []

run_refines_example :
    run digest vector vector_by_key texts (record { capacity = 1; m = []; ord = [] })
    ≡ map (λ ts. vectors (map vector ts)) texts
run_refines_example = run_refines digest vector vector_by_key 1 texts

abbrev empty_cache : EmbedCache ℕ
empty_cache = record { capacity = 1; m = []; ord = [] }

abbrev base : List Bytes → Result (List ℕ)
base ts = ok (map vector ts)

embed-IsKept_example : IsKept (embed digest base (codes "a" ∷ codes "b" ∷ []) empty_cache).1
unfolding IsUnique
embed-IsKept_example =
    embed-IsKept digest base (codes "a" ∷ codes "b" ∷ []) empty_cache (ground arith)
      (record { unique = ground arith; listed = refl; bounded = ground arith })

note_all-IsWithin_example :
    IsWithin 10 100
      (note_all tenths (success 3 1 ∷ failure 4 ∷ timeout 5 ∷ []) (new_timeout_manager 50 10 100))
unfolding new_timeout_manager scaled
note_all-IsWithin_example =
    note_all-IsWithin tenths 10 100 (ground arith) (λ t h. ground (arith, h))
      (λ t h. ground (arith, h)) (λ t h. ground (arith, h))
      (success 3 1 ∷ failure 4 ∷ timeout 5 ∷ []) (new_timeout_manager 50 10 100)
      (record { same_min = refl; same_max = refl; lower = ground arith; upper = ground arith })

abbrev clock : ℕ → ℕ
clock n = n * second

-- The first call fails, and the next ones return nil.
abbrev operation : ℕ → Returned
operation n = if n == 0 then returned_err "down" false else returned_nil

abbrev client : ObservableClient
client = new_observable_client "open" 50 10 100

execute_with_retry-IsRetried_example :
    IsRetried tenths clock operation 3 client
      (execute_with_retry tenths clock operation (λ n. false) 2 client).0
      (execute_with_retry tenths clock operation (λ n. false) 2 client).1
unfolding new_observable_client new_connection_metrics
execute_with_retry-IsRetried_example =
    execute_with_retry-IsRetried tenths clock operation (λ n. false) 2 client (ground arith) refl
      (ground arith)

-- Natural numbers stand in for amounts.
abbrev amounts : Amounts
amounts = record {
  Amount = ℕ;
  zero_amount = 0;
  unknown_cost = 1_000_000_000;
  add = λ a b. a + b;
  less = ltb;
  equal = λ a b. a == b;
  parse_float = λ s. some 1;
}

amounts-IsOrder : IsOrder amounts
amounts-IsOrder = record {
  asym = λ a b h. ground (arith, h);
  chain = λ a b c h k. ground (arith, h, k);
  same = λ a b. ground arith;
}

abbrev model : ℕ → Model amounts
model n = record {
  id = codes "m";
  pricing = record { prompt = codes "0"; completion = []; request = []; image = [] };
  context_length = n;
  limits = none;
}

abbrev models : List (Model amounts)
models = model 8 ∷ model 32 ∷ []

filter_free_models-IsOrdered_example :
    Perm (filter_free_models amounts models) (keep (costs_nothing amounts) models)
    × IsOrdered (is_better amounts) (filter_free_models amounts models)
filter_free_models-IsOrdered_example = filter_free_models-IsOrdered amounts amounts-IsOrder models

abbrev decimal : ℕ → Bytes
decimal n = n ∷ []

abbrev service : Service amounts
service = record { models = models; last_fetch = 0; refresh_dur = 3_600 * second }

abbrev failing : Call amounts decimal
failing = record { now = 7_200 * second; reply = no_connection (plain_error []); fetched = 0 }

get_free_models_refines_example :
    Answers amounts decimal
      (3_600 * second)
      failing
      (models, 0)
      (answer_of amounts decimal failing service).0
      (
        (answer_of amounts decimal failing service).1.models,
        (answer_of amounts decimal failing service).1.last_fetch,
      )
get_free_models_refines_example = get_free_models_refines amounts decimal failing service

refresh_loses_example :
    ((answer_of amounts decimal failing service).0 ≡ ok models)
    × ((refresh amounts decimal (7_200 * second) failing.reply 0 service).1.models ≡ [])
    × ((refresh amounts decimal (7_200 * second) failing.reply 0 service).0 ≢ none)
unfolding fetch_models_from_api
refresh_loses_example =
    refresh_loses amounts decimal failing service
      (wrap_error (codes "failed to make request: ") (plain_error [])) (ground arith) refl
