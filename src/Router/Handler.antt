-- ===== src/Router/Handler.antt =====
-- router.go: a request on its way through the gateway (`allowRequest`, `newFlowHandler`,
-- `executePlugins`, `dispatch`), for a flow that does not stream.
-- A handler's result is the reply that the client gets, onto a writer whose headers are `written`;
-- none is a panic. Plugins are loaded from outside: a plugin is its type and what it does to the context.
pub mod Behaved
pub mod Outcomes
pub mod Budget
use Prim.Native.String.{slice, ◌++◌ as text_append}
use aastro.Prelude.{
  ℕ, zero, suc, ◌+◌, ◌/◌, ◌%◌, ◌==◌, Bool, true, false, List, [], ◌∷◌, Option, none, some, String,
  length, map, if◌then◌else◌,
}
use aastro.Header.{Header, set_header}
use aastro.UpstreamError.{rate_limit_exceeded, payload_too_large, internal_error}
use aastro.Upstream.{HttpUpstream, UpstreamResponse, Stream}
use aastro.Flow.{Aggregation}
use aastro.Aggregator.{Codec}
use aastro.Aggregator.Strategies.{aggregate}
use aastro.Response.{HttpReply, ProblemEncoder, write_error}
use aastro.Router.{RequestIds, build_proxy_response, build_response, copy_response}
use aastro.Scatter.{
  Outside, Slot, waiting, panicked, returned, unwrap_all, read_request_body, call_upstream,
  results_from,
}
use aastro.RateLimit as Limit
use aastro.RateLimit.{RateLimit, Floats}

pub data PluginType : Type 0 where
  plugin_type_request plugin_type_response other_plugin_type : PluginType

pub record FlowRequest : Type 0 where
  pub method : String
  pub body : Stream

-- `aastroContext`.
pub record Context : Type 0 where
  pub request : FlowRequest
  pub response : Option HttpReply

-- What `Execute` of a plugin comes to: a panic, an error, or the context as it leaves it.
pub data Executed : Type 0 where
  panics fails : Executed
  leaves : Context → Executed

pub record Plugin : Type 0 where
  pub type : PluginType
  pub execute : Context → Executed

pub record Flow : Type 0 where
  pub aggregation : Aggregation
  pub upstreams : List HttpUpstream
  pub plugins : List Plugin

abbrev same_type : PluginType → PluginType → Bool
same_type plugin_type_request plugin_type_request = true
same_type plugin_type_response plugin_type_response = true
same_type _ _ = false

-- `executePlugins`; after an error or a panic no other plugin runs.
unfoldable pub execute_plugins : PluginType → List Plugin → Context → Executed
execute_plugins type [] ctx = leaves ctx
execute_plugins type (p ∷ ps) ctx =
    let skipped = execute_plugins type ps ctx in
    let run : Executed = elim (p.execute ctx) [
      | panics ↦ panics
      | fails ↦ fails
      | leaves ctx' ↦ execute_plugins type ps ctx'
    ] in
    if same_type p.type type then run else skipped

-- What `dispatch` has come to: 413 is written, a goroutine has panicked, or the reply is built.
pub data Dispatched : Type 0 where
  too_large crashed : Dispatched
  built : HttpReply → Dispatched

-- `strconv.Itoa` of a length.
abbrev digit : ℕ → String
digit d = slice "0123456789" d (d + 1)

digits : ℕ → ℕ → String → String
digits zero n acc = acc
digits (suc fuel) n acc =
    let longer = text_append (digit (n % 10)) acc in
    let rest = digits fuel (n / 10) longer in if n / 10 == 0 then longer else rest

-- One digit for each unit of fuel, of which a number below n + 1 needs no more than n + 1.
pub itoa : ℕ → String
unfolding digits
itoa n = digits (suc n) n ""

abbrev pub names_of : List HttpUpstream → List String
names_of us = map (λ u. u.cfg.name) us

-- The end of the handler, with the response in the context; a nil response panics, as does a status
-- that cannot be written.
unfoldable pub send : Header → Option HttpReply → Option HttpReply
send written none = none
send written (some resp) =
    copy_response (set_header "Content-Length" (itoa (length resp.body)) written) resp

module _ (codec : Codec) (encoder : ProblemEncoder) (ids : RequestIds) (outside : ℕ → Outside) where
  pub proxied : Slot → Dispatched
  proxied waiting = crashed
  proxied panicked = crashed
  proxied (returned resp) = built (build_proxy_response encoder ids resp)

  pub aggregated : Aggregation → List String → Option (List UpstreamResponse) → Dispatched
  aggregated agg names none = crashed
  aggregated agg names (some responses) =
      built (build_response encoder ids (aggregate codec agg names responses))

  -- `dispatch` with the body read.
  pub call_upstreams : String → Aggregation → List HttpUpstream → List HttpUpstream × Dispatched
  call_upstreams method agg (u ∷ []) =
      let (v, s) = call_upstream method (outside 0) u in (v ∷ [], proxied s)
  call_upstreams method agg us =
      let results = results_from method outside 0 us in
      (map (λ r. r.0) results, aggregated agg (names_of us) (unwrap_all (map (λ r. r.1) results)))

  pub dispatch : FlowRequest → Flow → List HttpUpstream × Dispatched
  dispatch req f = elim (read_request_body req.body) [
    | none ↦ (f.upstreams, too_large)
    | some body ↦ call_upstreams req.method f.aggregation f.upstreams
  ]

  pub internal_reply : Header → HttpReply
  internal_reply written = write_error encoder written internal_error 500

  unfoldable pub after_response_plugins : Header → Executed → Option HttpReply
  after_response_plugins written panics = none
  after_response_plugins written fails = some (internal_reply written)
  after_response_plugins written (leaves ctx) = send written ctx.response

  unfoldable pub respond : Header → List Plugin → Context → Dispatched → Option HttpReply
  respond written plugins ctx too_large = some (write_error encoder written payload_too_large 413)
  respond written plugins ctx crashed = none
  respond written plugins ctx (built reply) =
      after_response_plugins written
        (execute_plugins plugin_type_response plugins (record ctx { response = some reply }))

  -- `dispatch` gets the request as it came, not as the request plugins have left it in the context.
  pub after_request_plugins :
      Header → FlowRequest → Flow → Executed → List HttpUpstream × Option HttpReply
  after_request_plugins written req f panics = (f.upstreams, none)
  after_request_plugins written req f fails = (f.upstreams, some (internal_reply written))
  after_request_plugins written req f (leaves ctx) =
      let (us, d) = dispatch req f in (us, respond written f.plugins ctx d)

  -- The handler of `newFlowHandler`.
  pub handle : Header → FlowRequest → Flow → List HttpUpstream × Option HttpReply
  handle written req f =
      after_request_plugins written req f
        (execute_plugins plugin_type_request f.plugins (record { request = req; response = none }))

  module _ (floats : Floats) where
    -- `allowRequest` at the time `now`, with the reply that it writes if it denies.
    pub allow_request : ℕ → String → Header → Option RateLimit → Option RateLimit × Option HttpReply
    allow_request now client_ip written none = (none, none)
    allow_request now client_ip written (some limiter) =
        let (limiter', allowed) = Limit.allow floats now client_ip limiter in
        (
          some limiter',
          if allowed then none else some (write_error encoder written rate_limit_exceeded 429),
        )

    -- `ServeHTTP`, for a request that the routes give to the flow.
    pub serve_http :
        ℕ
        → String
        → Header
        → FlowRequest
        → Option RateLimit
        → Flow
        → Option RateLimit × (List HttpUpstream × Option HttpReply)
    serve_http now client_ip written req limiter f =
        let (limiter', denied) = allow_request now client_ip written limiter in
        (
          limiter',
          elim denied [ some reply ↦ (f.upstreams, some reply) | none ↦ handle written req f ],
        )
