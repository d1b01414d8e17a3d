-- ===== src/Router/Outcome/Failures.antt =====
-- The reply of a flow with several upstreams, of which some failed.
use aastro.Prelude.{◌≡◌, ◌≢◌, ◌≤◌, refl, ◌⊎◌, true, List, length, any, All, arith, String}
use aastro.Upstream.{UpstreamResponse}
use aastro.Flow.{strategy_unknown, Aggregation}
use aastro.Aggregator.{Codec, AggregatedResponse, failed}
use aastro.Aggregator.Errors.{HasClientStatus, shared_own}
use aastro.Aggregator.Honest.{IsHonest}
use aastro.Aggregator.Strategies.{aggregate}
use aastro.Aggregator.Strategies.Outcome.{aggregate-IsHonest}
use aastro.Response.{ProblemEncoder}
use aastro.Router.{RequestIds, build_response, resolve_status}
use aastro.Router.Outcome.Bodies.{status_from_errors_range}

resolved :
    (rs : List UpstreamResponse) (agg : AggregatedResponse)
    → IsHonest rs agg
    → All HasClientStatus rs
    → any failed rs ≡ true
    → (resolve_status agg ≡ 206) ⊎ (400 ≤ resolve_status agg)
unfolding resolve_status
resolved rs agg honest h f =
    let own = honest.own_status in
    let shared = shared_own rs h in
    let reported = honest.reported f in
    let range = status_from_errors_range agg.errors in ground arith

status_built :
    (encoder : ProblemEncoder) (ids : RequestIds) (agg : AggregatedResponse)
    → (build_response encoder ids agg).status ≡ resolve_status agg
unfolding build_response
status_built encoder ids agg = refl

-- A client can tell from the status that an upstream failed: with a known strategy, best effort or not,
-- and a response for each upstream of which one or more failed, the reply has status 206 or one from
-- 400 on. The client errors among the responses have statuses from 400 on.
pub build_response_failure :
    (codec : Codec) (encoder : ProblemEncoder) (ids : RequestIds) (agg : Aggregation)
    (names : List String) (responses : List UpstreamResponse)
    → length names ≡ length responses
    → agg.strategy ≢ strategy_unknown
    → All HasClientStatus responses
    → any failed responses ≡ true
    → (let reply = build_response encoder ids (aggregate codec agg names responses) in
        (reply.status ≡ 206) ⊎ (400 ≤ reply.status))
build_response_failure codec encoder ids agg names responses same known h f =
    let aggregated = aggregate codec agg names responses in
    let honest = aggregate-IsHonest codec agg responses names same known in
    let status = status_built encoder ids aggregated in
    let range = resolved responses aggregated honest h f in rw status range
