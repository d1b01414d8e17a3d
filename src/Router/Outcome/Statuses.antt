-- ===== src/Router/Outcome/Statuses.antt =====
-- The status of a reply (router.go), where every answer of an upstream has one that can be written.
use aastro.Prelude.{
  ◌≡◌, ◌⊎◌, refl, inl, inr, true, false, List, [], ◌∷◌, length, All, arith, String, Bool-cases,
  Option, none, some,
}
use aastro.UpstreamError.{ClientError, map_upstream_error, UpstreamError, is_propagatable}
use aastro.Upstream.{UpstreamResponse}
use aastro.Upstream.Attempt.Passing.{CanPass}
use aastro.Flow.{Aggregation}
use aastro.Aggregator.{Codec, AggregatedResponse, is_client_error}
use aastro.Aggregator.Errors.{shared-All}
use aastro.Aggregator.Honest.{IsHonest}
use aastro.Aggregator.Strategies.{aggregate}
use aastro.Aggregator.Strategies.Outcome.{aggregate-IsHonest, aggregate-unknown, strategy-cases}
use aastro.Response.{ProblemEncoder}
use aastro.Router.{
  RequestIds, build_response, build_proxy_response, forward, report, resolve_status,
  status_from_errors, writable, forwards,
}
use aastro.Router.Outcome.Bodies.{status_from_errors_range}

-- The gateway's own statuses.
writable_from_errors :
    (errors : List ClientError) → writable (status_from_errors errors false) ≡ true
unfolding writable
writable_from_errors errors = let range = status_from_errors_range errors in ground arith

client_error_forwards : (e : Option UpstreamError) → is_client_error e ≡ true → forwards e ≡ true
unfolding forwards is_propagatable
client_error_forwards none h = refl
client_error_forwards (some e) h = ground arith

client_error_writable :
    (r : UpstreamResponse) → CanPass r → is_client_error r.err ≡ true → writable r.status ≡ true
client_error_writable r (inl ok) h = ok
client_error_writable r (inr stays) h = cc (client_error_forwards r.err h)

All-writable :
    (rs : List UpstreamResponse)
    → All CanPass rs
    → All (λ (r : UpstreamResponse). is_client_error r.err ≡ true → writable r.status ≡ true) rs
All-writable [] h = tt
All-writable (r ∷ rs) (h, hs) = (client_error_writable r h, All-writable rs hs)

writable-resolve_status :
    (agg : AggregatedResponse)
    → (agg.status ≡ 0) ⊎ (writable agg.status ≡ true)
    → writable (resolve_status agg) ≡ true
unfolding resolve_status
writable-resolve_status agg own =
    let own_code = writable_from_errors agg.errors in
    let partial : writable 206 ≡ true = unfold writable in refl in ground arith

module _ (codec : Codec) (encoder : ProblemEncoder) (ids : RequestIds) where
  own_writable :
      (rs : List UpstreamResponse) (agg : AggregatedResponse)
      → All CanPass rs
      → IsHonest rs agg
      → (agg.status ≡ 0) ⊎ (writable agg.status ≡ true)
  own_writable rs agg h honest =
      let shared = shared-All writable rs (All-writable rs h) in
      let own = honest.own_status in ground arith

  by_strategy_writable :
      (agg : Aggregation) (names : List String) (rs : List UpstreamResponse)
      → length names ≡ length rs
      → All CanPass rs
      → (let resp = aggregate codec agg names rs in
          (resp.status ≡ 0) ⊎ (writable resp.status ≡ true))
  by_strategy_writable agg names rs same h = elim (strategy-cases agg.strategy) [
    | inl unknown ↦ inl (aggregate-unknown codec agg names rs unknown)
    | inr known ↦
        own_writable rs (aggregate codec agg names rs) h
          (aggregate-IsHonest codec agg rs names same known)
  ]

  -- The reply of a flow with several upstreams has a status that can be written, if each response that
  -- is forwarded has one.
  pub writable-build_response :
      (agg : Aggregation) (names : List String) (rs : List UpstreamResponse)
      → length names ≡ length rs
      → All CanPass rs
      → writable (build_response encoder ids (aggregate codec agg names rs)).status ≡ true
  unfolding build_response
  writable-build_response agg names rs same h =
      writable-resolve_status (aggregate codec agg names rs)
        (by_strategy_writable agg names rs same h)

  -- So has the reply of a flow with one upstream.
  pub writable-build_proxy_response :
      (r : UpstreamResponse)
      → CanPass r
      → writable (build_proxy_response encoder ids r).status ≡ true
  unfolding build_proxy_response forward report
  writable-build_proxy_response r h =
      let own = writable_from_errors (map_upstream_error r.err ∷ []) in
      elim (Bool-cases (forwards r.err)) [
        | inl goes ↦ rw goes (elim h [ inl ok ↦ ok | inr stays ↦ cc ])
        | inr stays ↦ rw stays own
      ]
