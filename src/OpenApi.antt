-- ===== src/OpenApi.antt =====
-- internal/openapi/spec.go: the extension "x-aastro" of an operation, which keeps the configuration of its
-- flow in a document, and the warnings. A slice is a list, whether it is nil or empty; a pointer is
-- an option. Durations are not negative.
pub mod Export
pub mod Import
pub mod Equal
pub mod RoundTrip
pub mod Defaults
pub mod Lossless
pub mod Told
pub mod Document
pub mod Scaffold
pub mod FromConfig
pub mod ToConfig
pub mod Whole
use aastro.Prelude.{ℕ, Bool, List, Option, none, some, String, ◌≡◌}
use aastro.Upstream.{ℤ, pos}
use aastro.Config.{TransportConfig}

pub record OnConflictExtension : Type 0 where
  pub policy : String
  pub prefer_upstream : String

pub record AggregationExtension : Type 0 where
  pub strategy : String
  pub best_effort : Bool
  pub on_conflict : Option OnConflictExtension

pub record RetryExtension : Type 0 where
  pub max_retries : ℤ
  pub retry_on_statuses : List ℕ
  pub backoff_delay : String

pub record CircuitBreakerExtension : Type 0 where
  pub enabled : Bool
  pub max_failures : ℕ
  pub reset_timeout : String

pub record PolicyExtension : Type 0 where
  pub header_blacklist : List String
  pub require_body : Bool
  pub max_response_body_size : ℕ
  pub follow_redirects : Bool
  pub retry : Option RetryExtension
  pub circuit_breaker : Option CircuitBreakerExtension
  pub load_balancing : String

pub record TransportExtension : Type 0 where
  pub max_idle_conns : ℤ
  pub max_idle_conns_per_host : ℤ
  pub idle_conn_timeout : String

pub record UpstreamExtension : Type 0 where
  pub name : String
  pub hosts : List String
  pub path : String
  pub method : String
  pub timeout : String
  pub forward_headers : List String
  pub forward_queries : List String
  pub forward_params : List String
  pub tls_enabled : Bool
  pub policy : Option PolicyExtension
  pub transport : Option TransportExtension

pub record FlowExtension : Type 0 where
  pub streaming : Bool
  pub aggregation : Option AggregationExtension
  pub upstreams : List UpstreamExtension
  pub middlewares : List String
  pub plugins : List String

-- The messages of the warnings, by what they name; a warning's `Flow` is the flow that it is about.
pub data Message : Type 0 where
  no_hosts tls_without_files : String → Message
  -- The upstream and the text, and before the text the field.
  unparsable_timeout : String → String → Message
  unparsable_field : String → String → String → Message
  plugins_lost middlewares_lost : List String → Message
  no_host streamed needs_auth : Message
  -- Of an export.
  query_extension duplicate_operation : Message
  unsupported_method : String → Message
  -- About the whole document: it was exported without extensions; it has a 429 response.
  no_extensions limits_by_default : Message

-- `time.Duration.String` and `time.ParseDuration`, which takes back what the first one writes and
-- refuses the empty string.
pub record Durations : Type 0 where
  pub text : ℕ → String
  pub parse : String → Option ℕ
  pub parse-text : (d : ℕ) → parse (text d) ≡ some d
  pub parse_empty : parse "" ≡ none

-- `DefaultUpstreamConfig().Transport`, from the tags of the fields of TransportConfig; 90s is in nanoseconds.
abbrev pub default_transport : TransportConfig
default_transport = record {
  max_idle_conns = pos 100;
  max_idle_conns_per_host = pos 50;
  idle_conn_timeout = 90000000000;
  http2 = "auto";
}
