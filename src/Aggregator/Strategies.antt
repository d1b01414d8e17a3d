-- ===== src/Aggregator/Strategies.antt =====
-- "array" and "namespace" of aggregator.go, and the choice of a strategy.
pub mod Outcome
use aastro.Prelude.{
  ℕ, Bool, true, false, List, [], ◌∷◌, ◌++◌, is_empty, Option, none, some, String, if◌then◌else◌,
  insert,
}
use aastro.UpstreamError.{UpstreamError, ClientError, map_upstream_error}
use aastro.Upstream.{UpstreamResponse}
use aastro.Flow.{
  AggregationStrategy, strategy_merge, strategy_array, strategy_namespace, strategy_unknown,
  Aggregation,
}
use aastro.Aggregator.{
  Codec, AggregatedResponse, refused, resp_internal_error, resp_upstream_malformed_error, completed,
  failure_of_all, shared_failure_status,
}
use aastro.Aggregator.Merge.{merged}

-- What a loop over the responses leaves: the response of an early return, or what it has gathered.
pub data Gathered (A : Type 0) : Type 0 where
  early : AggregatedResponse → Gathered A
  gathered : A → List ClientError → Bool → Gathered A

-- `upstreams[i].name()` with `responses[i]`; there is a response for each upstream.
abbrev pub named : List String → List UpstreamResponse → List (String × UpstreamResponse)
named [] rs = []
named (n ∷ ns) [] = []
named (n ∷ ns) (r ∷ rs) = (n, r) ∷ named ns rs

module _ (codec : Codec) (agg : Aggregation) where
  open codec use {marshal_array, marshal_raw}

  array_response :
      List UpstreamResponse
      → UpstreamResponse
      → List (List ℕ)
      → List ClientError
      → Bool
      → Option UpstreamError
      → Gathered (List (List ℕ))
  array_response responses r arr errs ok (some e) =
      if agg.best_effort
      then gathered arr (errs ++ map_upstream_error (some e) ∷ []) ok
      else early (failure_of_all responses)
  array_response responses r arr errs ok none =
      gathered (if is_empty r.body then arr else arr ++ r.body ∷ []) errs true

  -- The loop of `arrayed`.
  pub array_from :
      List UpstreamResponse
      → List UpstreamResponse
      → List (List ℕ)
      → List ClientError
      → Bool
      → Gathered (List (List ℕ))
  array_from responses [] arr errs ok = gathered arr errs ok
  array_from responses (r ∷ rs) arr errs ok = elim (array_response responses r arr errs ok r.err) [
    | early resp ↦ early resp
    | gathered arr' errs' ok' ↦ array_from responses rs arr' errs' ok'
  ]

  finish_arrayed : List UpstreamResponse → Gathered (List (List ℕ)) → AggregatedResponse
  finish_arrayed responses (early resp) = resp
  finish_arrayed responses (gathered arr errs ok) =
      completed resp_upstream_malformed_error responses errs ok (marshal_array arr)

  pub arrayed : List UpstreamResponse → AggregatedResponse
  arrayed responses = finish_arrayed responses (array_from responses responses [] [] false)

  -- `json.RawMessage("null")`.
  abbrev null_json : List ℕ
  null_json = b'n' ∷ b'u' ∷ b'l' ∷ b'l' ∷ []

  name_response :
      List UpstreamResponse
      → String
      → UpstreamResponse
      → List (String × List ℕ)
      → List ClientError
      → Bool
      → Option UpstreamError
      → Gathered (List (String × List ℕ))
  name_response responses name r result errs ok (some e) =
      if agg.best_effort
      then gathered result (errs ++ map_upstream_error (some e) ∷ []) ok
      else early (refused (map_upstream_error (some e) ∷ []) (shared_failure_status responses))
  name_response responses name r result errs ok none =
      gathered (insert name (if is_empty r.body then null_json else r.body) result) errs true

  -- The loop of `namespaced`, over the responses with the names of their upstreams.
  pub name_from :
      List UpstreamResponse
      → List (String × UpstreamResponse)
      → List (String × List ℕ)
      → List ClientError
      → Bool
      → Gathered (List (String × List ℕ))
  name_from responses [] result errs ok = gathered result errs ok
  name_from responses ((name, r) ∷ rs) result errs ok =
      elim (name_response responses name r result errs ok r.err) [
        | early resp ↦ early resp
        | gathered result' errs' ok' ↦ name_from responses rs result' errs' ok'
      ]

  finish_namespaced : List UpstreamResponse → Gathered (List (String × List ℕ)) → AggregatedResponse
  finish_namespaced responses (early resp) = resp
  finish_namespaced responses (gathered result errs ok) =
      completed resp_internal_error responses errs ok (marshal_raw result)

  pub namespaced : List String → List UpstreamResponse → AggregatedResponse
  namespaced names responses =
      finish_namespaced responses (name_from responses (named names responses) [] [] false)

  -- `aggregate`, by the strategy; `names` are those of the upstreams.
  by_strategy : AggregationStrategy → List String → List UpstreamResponse → AggregatedResponse
  by_strategy strategy_merge names responses = merged codec agg responses
  by_strategy strategy_array names responses = arrayed responses
  by_strategy strategy_namespace names responses = namespaced names responses
  by_strategy strategy_unknown names responses = refused [] 0

  pub aggregate : List String → List UpstreamResponse → AggregatedResponse
  aggregate names responses = by_strategy agg.strategy names responses
