-- ===== src/Config.antt =====
-- config.go: the configuration of flows and upstreams, and the checks that `ValidateConfig` makes by itself.
-- What the tags of the fields ask of go-playground/validator and creasty/defaults is not here; the
-- messages of the errors are left out, so that a check is whether there is none.
pub mod Params
pub mod Valid
use aastro.Prelude.{
  ℕ, ltb, ◌==◌, Bool, true, false, not, ◌&&◌, ◌||◌, List, [], ◌∷◌, Option, none, some, String,
  if◌then◌else◌, str_eq, contains, length, all,
}
use aastro.Upstream.{ℤ}
use aastro.Config.Params.{extract_path_params}

pub record OnConflictConfig : Type 0 where
  pub policy : String
  pub upstream : String

pub record AggregationConfig : Type 0 where
  pub best_effort : Bool
  pub strategy : String
  pub on_conflict : Option OnConflictConfig

pub record TlsConfig : Type 0 where
  pub enabled : Bool
  pub cert_file : String
  pub key_file : String
  pub ca_file : String
  pub server_name : String
  pub insecure_skip_verify : Bool
  pub min_version : String

pub record TransportConfig : Type 0 where
  pub max_idle_conns : ℤ
  pub max_idle_conns_per_host : ℤ
  pub idle_conn_timeout : ℕ
  pub http2 : String

pub record RetryConfig : Type 0 where
  pub max_retries : ℤ
  pub retry_on_statuses : List ℕ
  pub backoff_delay : ℕ

pub record CircuitBreakerConfig : Type 0 where
  pub enabled : Bool
  pub max_failures : ℕ
  pub reset_timeout : ℕ

pub record PolicyConfig : Type 0 where
  pub header_blacklist : List String
  pub require_body : Bool
  pub max_response_body_size : ℕ
  pub follow_redirects : Bool
  pub retry_config : RetryConfig
  pub circuit_breaker_config : CircuitBreakerConfig
  -- `LoadBalancingConfig.Mode`.
  pub load_balancing_mode : String

pub record UpstreamConfig : Type 0 where
  pub name : String
  pub hosts : List String
  pub path : String
  pub method : String
  pub timeout : ℕ
  pub forward_headers : List String
  pub forward_queries : List String
  pub forward_params : List String
  pub policy : PolicyConfig
  pub transport : TransportConfig
  pub tls : TlsConfig

-- `texts` are the entries of its configuration that are texts.
pub record MiddlewareConfig : Type 0 where
  pub name : String
  pub source : String
  pub path : String
  pub texts : List (String × String)

-- The plugins are named; what they are configured with is the loader's.
pub record FlowConfig : Type 0 where
  pub path : String
  pub method : String
  pub streaming : Bool
  pub aggregation : Option AggregationConfig
  pub upstreams : List UpstreamConfig
  pub plugins : List String
  pub middlewares : List MiddlewareConfig

-- `gateway.server` and `gateway.admin` by what is checked of them.
pub record ServerConfig : Type 0 where
  pub port : ℕ
  pub admin_port : ℕ
  pub http2 : String
  pub tls_enabled : Bool

pub record Config : Type 0 where
  pub server : ServerConfig
  pub flows : List FlowConfig

abbrev is_declared : List String → String → Bool
is_declared flow_params param = contains flow_params param

-- The loops of `validateUpstreamParams`.
unfoldable pub validate_path_params : List String → List String → Bool
validate_path_params flow_params params = all (is_declared flow_params) params

unfoldable pub validate_forward_params : List String → List String → Bool
validate_forward_params flow_params params =
    all (λ param. str_eq param "*" || contains flow_params param) params

unfoldable pub validate_upstream_params : UpstreamConfig → List String → Bool
validate_upstream_params u flow_params =
    validate_path_params flow_params (extract_path_params u.path)
    && validate_forward_params flow_params u.forward_params

abbrev pub is_given : Option AggregationConfig → Bool
is_given none = false
is_given (some a) = true

-- The body of the loop of `validateFlows`.
unfoldable pub validate_flow : FlowConfig → Bool
validate_flow f =
    let flow_params = extract_path_params f.path in
    let several = ltb 1 (length f.upstreams) in
    all (λ u. validate_upstream_params u flow_params) f.upstreams
    && (not (f.streaming && several)
        && not (not f.streaming && (several && not (is_given f.aggregation))))

unfoldable pub validate_flows : List FlowConfig → Bool
validate_flows [] = true
validate_flows (f ∷ fs) = let rest = validate_flows fs in if validate_flow f then rest else false

unfoldable pub validate_upstream_http2 : UpstreamConfig → Bool
validate_upstream_http2 u = not (str_eq u.transport.http2 "on" && not u.tls.enabled)

unfoldable pub validate_http2 : Config → Bool
validate_http2 cfg =
    not (str_eq cfg.server.http2 "on" && not cfg.server.tls_enabled)
    && all (λ f. all validate_upstream_http2 f.upstreams) cfg.flows

-- `ValidateConfig` from the comparison of the ports on.
unfoldable pub validate_config : Config → Bool
validate_config cfg =
    not (cfg.server.port == cfg.server.admin_port)
    && (validate_flows cfg.flows && validate_http2 cfg)
