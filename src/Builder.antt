-- ===== src/Builder.antt =====
-- builder.go: flows and upstreams from the configuration. Logs, metrics and HTTP clients are left out.
-- `Loading` stands for what the process finds outside: certificates, shared objects, and package net.
pub mod Results
pub mod Aggregations
pub mod Loader
pub mod Names
pub mod Upstreams
pub mod Usable
pub mod Compiled
pub mod Safe
use Prim.Native.String.{◌++◌ as text_append}
use aastro.Prelude.{
  ℕ, suc, ltb, ◌==◌, Bool, true, false, not, ◌&&◌, List, [], ◌∷◌, Option, none, some, String,
  if◌then◌else◌, str_eq, length, map,
}
use aastro.Prelude.Text.{to_lower}
use aastro.Prelude.Fallible.{◌>>=◌, ◌>>◌, guard}
use aastro.Breaker as Breaker
use aastro.Breaker.{CircuitBreaker}
use aastro.Upstream.{
  ℤ, pos, negsuc, LbMode, round_robin, least_conns, other_mode, RetryPolicy, UpstreamPolicy,
  UpstreamState, HttpUpstream,
}
use aastro.Upstream as Upstream
use aastro.Flow.{
  AggregationStrategy, strategy_merge, strategy_array, strategy_namespace, ConflictPolicy,
  policy_overwrite, policy_error, policy_first, policy_prefer, Aggregation,
}
use aastro.Config.{
  OnConflictConfig, AggregationConfig, TlsConfig, TransportConfig, MiddlewareConfig, RetryConfig,
  CircuitBreakerConfig, PolicyConfig, UpstreamConfig, FlowConfig,
}
use aastro.Router.Handler.{Plugin, Flow}
use aastro.Middlewares.{Handler}
use aastro.Builder.Names.{compile_strategy, compile_conflict_policy}
use aastro.Builder.Results.{Outcome, built, failed, crashed, then_build, or_failed}
use aastro.Builder.Aggregations.{flow_aggregation}

-- `reload` is whether `NewReloader` can read the certificates for a TLS version; `canonical` is
-- `textproto.CanonicalMIMEHeaderKey`.
pub record Loading : Type 0 where
  pub reload : TlsConfig → ℕ → Bool → Bool
  pub canonical : String → String
  pub plugins : List String → Option (List Plugin)
  pub middlewares : List MiddlewareConfig → Option (List (Handler → Handler))

-- `ParseVersion` (internal/tlsutil/tlsutil.go).
pub parse_version : String → Option ℕ
parse_version s =
    if str_eq s ""
    then some 771
    else if str_eq s "1.2"
    then some 771
    else if str_eq s "1.3"
    then some 772
    else none

-- The loop of `makeUpstreamName`.
join_hosts : List String → String
join_hosts [] = ""
join_hosts (host ∷ []) = to_lower host
join_hosts (host ∷ hosts) = text_append (to_lower host) (text_append "-" (join_hosts hosts))

pub make_upstream_name : String → List String → String
make_upstream_name method hosts = text_append (to_lower method) (text_append "-" (join_hosts hosts))

-- `lbMode` of a string.
unfoldable pub lb_mode : String → LbMode
lb_mode s =
    if str_eq s "round_robin"
    then round_robin
    else if str_eq s "least_conns"
    then least_conns
    else other_mode s

-- `make([]int64, n)`.
unfoldable pub zeros : List String → List ℕ
zeros hosts = map (λ h. 0) hosts

unfoldable pub build_upstream_state : List String → UpstreamState
build_upstream_state hosts = record { current_host_idx = 0; active_connections = zeros hosts }

unfoldable pub build_circuit_breaker : CircuitBreakerConfig → Option CircuitBreaker
build_circuit_breaker cfg =
    if cfg.enabled then some (Breaker.new cfg.max_failures cfg.reset_timeout) else none

-- `flow`.
pub record CompiledFlow : Type 0 where
  pub path : String
  pub method : String
  pub streaming : Bool
  pub flow : Flow
  pub middlewares : List (Handler → Handler)

module _ (loading : Loading) where
  open loading use {reload, canonical}

  -- Whether `buildUpstreamTLSConfig` succeeds.
  unfoldable pub build_upstream_tls_config : TlsConfig → String → Bool
  build_upstream_tls_config cfg http2 =
      let reads : Bool = elim (parse_version cfg.min_version) [
        | none ↦ false
        | some version ↦ reload cfg version (str_eq http2 "off")
      ] in
      if cfg.enabled then reads else true

  -- The set is a list.
  unfoldable pub build_upstream_policy : PolicyConfig → UpstreamPolicy
  build_upstream_policy cfg = record {
    header_blacklist = map canonical cfg.header_blacklist;
    require_body = cfg.require_body;
    max_response_body_size = cfg.max_response_body_size;
    retry = record {
      max_retries = cfg.retry_config.max_retries;
      retry_on_statuses = cfg.retry_config.retry_on_statuses;
      backoff_delay = cfg.retry_config.backoff_delay;
    };
  }

  unfoldable pub build_upstream_config : UpstreamConfig → Upstream.UpstreamConfig
  build_upstream_config cfg = record {
    name = if str_eq cfg.name "" then make_upstream_name cfg.method cfg.hosts else cfg.name;
    hosts = cfg.hosts;
    path = cfg.path;
    method = cfg.method;
    forward_headers = cfg.forward_headers;
    forward_queries = cfg.forward_queries;
    forward_params = cfg.forward_params;
    lb_mode = lb_mode cfg.policy.load_balancing_mode;
    policy = build_upstream_policy cfg.policy;
  }

  unfoldable pub build_upstream : UpstreamConfig → Option HttpUpstream
  build_upstream cfg =
      if build_upstream_tls_config cfg.tls cfg.transport.http2
      then some (record {
        cfg = build_upstream_config cfg;
        state = build_upstream_state cfg.hosts;
        circuit_breaker = build_circuit_breaker cfg.policy.circuit_breaker_config;
        metrics = record { retries_total = 0; policy_violations = 0; breaker_state = none };
        sent = [];
      })
      else none

  unfoldable pub init_upstreams : List UpstreamConfig → Option (List HttpUpstream)
  init_upstreams [] = some []
  init_upstreams (cfg ∷ cfgs) = do u ← build_upstream cfg; us ← init_upstreams cfgs; some (u ∷ us)

  -- `compileFlow` with the upstreams.
  unfoldable pub with_upstreams : FlowConfig → List HttpUpstream → Outcome CompiledFlow
  with_upstreams cfg upstreams =
      let rest = then_build (flow_aggregation cfg upstreams) (λ aggregation.
        then_build (or_failed (loading.plugins cfg.plugins)) (λ plugins.
          then_build (or_failed (loading.middlewares cfg.middlewares)) (λ middlewares.
            built (record {
              path = cfg.path;
              method = cfg.method;
              streaming = cfg.streaming;
              flow = record { aggregation = aggregation; upstreams = upstreams; plugins = plugins };
              middlewares = middlewares;
            })))) in
      if cfg.streaming && not (length upstreams == 1) then failed else rest

  unfoldable pub compile_flow : FlowConfig → Outcome CompiledFlow
  compile_flow cfg =
      then_build (or_failed (init_upstreams cfg.upstreams))
        (λ upstreams. with_upstreams cfg upstreams)
