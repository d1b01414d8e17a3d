-- ===== src/Examples/Responses.antt =====
-- Responses of upstreams, combined and sent on, with a small codec and problem encoder.
use aastro.Prelude.{
  ◌≤◌, ◌≡◌, refl, ◌⊎◌, inl, true, false, List, [], ◌∷◌, arith, none, some, is_empty,
}
use aastro.UpstreamError.{client_error, upstream_unavailable}
use aastro.Upstream.{UpstreamResponse}
use aastro.Aggregator.{AggregatedResponse}
use aastro.Aggregator.Honest.{IsHonest}
use aastro.Aggregator.Strategies.{aggregate}
use aastro.Aggregator.Strategies.Outcome.{aggregate-IsHonest}
use aastro.Aggregator.Merge.Examples.{codec, agg, answer}
use aastro.Router.Outcome.Failures.{build_response_failure}
use aastro.Response.{ProblemEncoder}
use aastro.Router.{RequestIds, build_response}
use aastro.Router.Outcome.{HasIds}
use aastro.Router.Outcome.Aggregated.{build_response_lem}
use aastro.Router.Outcome.Bodies.{IsData, IsProblem, IsPartial}

abbrev not_found : UpstreamResponse
not_found = record {
  status = 404;
  headers = ("Content-Type", "text/plain" ∷ []) ∷ [];
  body = 110 ∷ [];
  err = some (record { kind = client_error; err = "upstream returned a failure status" ∷ [] });
}

abbrev found : UpstreamResponse
found = record { status = 200; headers = []; body = 1 ∷ 7 ∷ []; err = none }

abbrev pub encoder : ProblemEncoder
encoder = record {
  encode = λ problem. some (problem.status ∷ []);
  fallback = 0 ∷ [];
  status_text = λ status. status ∷ [];
}

abbrev pub ids : RequestIds
ids = record { request_id = "r1"; fingerprint = "f1" }

abbrev half : AggregatedResponse
half = record {
  json = 1 ∷ 7 ∷ [];
  headers = ("Content-Length", "2" ∷ []) ∷ ("Via", "a" ∷ "b" ∷ []) ∷ [];
  errors = upstream_unavailable ∷ [];
  status = 0;
  partial = true;
}

build_response_lem_example :
    let reply = build_response encoder ids half in
    (half.partial ≡ true → IsPartial ids half reply)
    × (half.partial ≡ false
        → is_empty half.errors ≡ false
        → IsProblem encoder half reply × HasIds ids reply.headers)
    × (half.partial ≡ false
        → is_empty half.errors ≡ true
        → half.status ≡ 0
        → IsData half 200 reply × HasIds ids reply.headers)
build_response_lem_example = build_response_lem encoder ids half (inl refl)

abbrev mixed : List UpstreamResponse
mixed = answer 7 ∷ not_found ∷ []

aggregate-IsHonest_example : IsHonest mixed (aggregate codec agg ("a" ∷ "b" ∷ []) mixed)
aggregate-IsHonest_example = aggregate-IsHonest codec agg mixed ("a" ∷ "b" ∷ []) refl (λ e. cc)

build_response_failure_example :
    let reply = build_response encoder ids (aggregate codec agg ("a" ∷ "b" ∷ []) mixed) in
    (reply.status ≡ 206) ⊎ (400 ≤ reply.status)
build_response_failure_example =
    build_response_failure codec encoder ids agg ("a" ∷ "b" ∷ []) mixed refl (λ e. cc)
      (λ e. cc, (λ e. omega arith, tt)) refl
