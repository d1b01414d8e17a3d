-- ===== src/Examples/Gateway.antt =====
-- A flow with two upstreams, of which one is down, and the requests that it serves.
use aastro.Prelude.{ℕ, zero, suc, ◌≡◌, refl, List, [], ◌∷◌, none, some}
use aastro.Upstream.{round_robin, least_conns, HttpUpstream}
use aastro.Aggregator.Merge.Examples.{codec, agg}
use aastro.Router.{writable}
use aastro.Scatter.{Outside}
use aastro.Scatter.Passing.{Writes}
use aastro.Router.Handler.{
  FlowRequest, Context, Plugin, plugin_type_request, plugin_type_response, Flow, handle, leaves,
}
use aastro.Router.Handler.Outcomes.{IsReplied, handle-IsReplied}
use aastro.Router.Handler.Behaved.{IsWellBehaved}
use aastro.RateLimit.{RateLimit}
use aastro.Router.Handler.Budget.{Arrival}
use aastro.Examples.Requests.{counted}
use aastro.Examples.Breakers.{opened}
use aastro.Examples.Upstreams.{upstream, well, down}
use aastro.Examples.Responses.{encoder, ids}

abbrev pair : List HttpUpstream
pair = upstream round_robin none ∷ upstream least_conns (some opened) ∷ []

abbrev pub outside : ℕ → Outside
outside zero = record { world = well; reported_at = 40 }
outside (suc i) = record { world = down; reported_at = 41 }

-- A plugin of each type, which change nothing.
abbrev pub tagging : Plugin
tagging = record { type = plugin_type_response; execute = λ ctx. leaves ctx }

abbrev counting : Plugin
counting = record { type = plugin_type_request; execute = λ ctx. leaves ctx }

abbrev flow : Flow
flow = record { aggregation = agg; upstreams = pair; plugins = tagging ∷ counting ∷ [] }

abbrev pub request : FlowRequest
request = record {
  method = "GET";
  body = record { bytes = 1 ∷ []; read_err = none; ctx_err = none };
}

steady : (p : Plugin) → ((ctx : Context) → p.execute ctx ≡ leaves ctx) → IsWellBehaved p
steady p same = record { runs = λ ctx. rw (same ctx) tt; keeps = λ ctx h. rw (same ctx) h }

writes : (i : ℕ) → Writes (outside i)
unfolding writable
writes zero n = refl
writes (suc i) n = tt

handle-IsReplied_example : IsReplied pair (handle codec encoder ids outside [] request flow)
handle-IsReplied_example =
    handle-IsReplied codec encoder ids outside writes [] request flow ((2, refl), ((2, refl), tt))
      (steady tagging (λ ctx. refl), (steady counting (λ ctx. refl), tt))

abbrev limiter : RateLimit
limiter = record { limit = 4; window = 60; buckets = ("k", counted) ∷ [] }

abbrev arrivals : List Arrival
arrivals =
    record { at = 110; request = request; outside = outside }
    ∷ record { at = 120; request = request; outside = outside }
    ∷ []
