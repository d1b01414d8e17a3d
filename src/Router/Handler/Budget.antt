-- ===== src/Router/Handler/Budget.antt =====
-- How many requests a client can cause to the upstreams of a flow (router.go, with scatter.go, upstream.go
-- and internal/ratelimit/ratelimit.go).
use aastro.Prelude.{ℕ, List, [], ◌∷◌, map, Option, String}
use aastro.Header.{Header}
use aastro.Upstream.{HttpUpstream}
use aastro.Aggregator.{Codec}
use aastro.Response.{ProblemEncoder}
use aastro.RateLimit as Limit
use aastro.RateLimit.{RateLimit, Floats}
use aastro.Router.{RequestIds}
use aastro.Scatter.{Outside}
use aastro.Router.Handler.{FlowRequest, Flow, serve_http}

-- A request as it comes in: when, and what its calls meet outside.
pub record Arrival : Type 0 where
  pub at : ℕ
  pub request : FlowRequest
  pub outside : ℕ → Outside

abbrev pub times : List Arrival → List ℕ
times arrivals = map (λ a. a.at) arrivals

module _ (codec : Codec) (encoder : ProblemEncoder) (ids : RequestIds) where
  module _ (floats : Floats) (client_ip : String) (written : Header) where
    -- The upstreams after requests of one client to the flow.
    pub serve_all : List Arrival → Option RateLimit → Flow → List HttpUpstream
    serve_all [] limiter f = f.upstreams
    serve_all (a ∷ arrivals) limiter f =
        let (limiter', (us, reply)) =
          serve_http codec encoder ids a.outside floats a.at client_ip written a.request limiter
            f in
        serve_all arrivals limiter' (record f { upstreams = us })
