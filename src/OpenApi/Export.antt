-- ===== src/OpenApi/Export.antt =====
-- internal/openapi/export.go: the extension that keeps the configuration of a flow (`flowExtension`).
pub mod Responses
pub mod Operations
use aastro.Prelude.{
  ◌==◌, Bool, false, not, ◌&&◌, ◌||◌, Option, none, some, str_eq, is_empty, map, if◌then◌else◌,
}
use aastro.Upstream.{ℤ, pos, negsuc}
use aastro.Config.{
  OnConflictConfig, AggregationConfig, TransportConfig, RetryConfig, CircuitBreakerConfig,
  PolicyConfig, UpstreamConfig, FlowConfig,
}
use aastro.OpenApi.{
  OnConflictExtension, AggregationExtension, RetryExtension, CircuitBreakerExtension,
  PolicyExtension, TransportExtension, UpstreamExtension, FlowExtension, Durations,
  default_transport,
}

unfoldable pub int_eq : ℤ → ℤ → Bool
int_eq (pos a) (pos b) = a == b
int_eq (negsuc a) (negsuc b) = a == b
int_eq (pos a) (negsuc b) = false
int_eq (negsuc a) (pos b) = false

-- `==` on TransportConfig.
unfoldable pub transport_eq : TransportConfig → TransportConfig → Bool
transport_eq s t =
    int_eq s.max_idle_conns t.max_idle_conns
    && (int_eq s.max_idle_conns_per_host t.max_idle_conns_per_host
        && (s.idle_conn_timeout == t.idle_conn_timeout && str_eq s.http2 t.http2))

abbrev pub zero_transport : TransportConfig
zero_transport = record {
  max_idle_conns = pos 0;
  max_idle_conns_per_host = pos 0;
  idle_conn_timeout = 0;
  http2 = "";
}

-- Whether a configuration is its type's zero value. `reflect.DeepEqual` also tells an empty slice that is not
-- nil from nil; the extension then made is the same configuration.
unfoldable pub is_zero_retry : RetryConfig → Bool
is_zero_retry r =
    int_eq r.max_retries (pos 0) && (is_empty r.retry_on_statuses && r.backoff_delay == 0)

unfoldable pub is_zero_breaker : CircuitBreakerConfig → Bool
is_zero_breaker c = not c.enabled && (c.max_failures == 0 && c.reset_timeout == 0)

unfoldable pub is_zero_policy : PolicyConfig → Bool
is_zero_policy p =
    (is_empty p.header_blacklist && not p.require_body)
    && ((p.max_response_body_size == 0 && not p.follow_redirects)
        && (is_zero_retry p.retry_config
            && (is_zero_breaker p.circuit_breaker_config && str_eq p.load_balancing_mode "")))

abbrev pub on_conflict_extension : Option OnConflictConfig → Option OnConflictExtension
on_conflict_extension none = none
on_conflict_extension (some c) = some (record { policy = c.policy; prefer_upstream = c.upstream })

abbrev pub aggregation_extension : Option AggregationConfig → Option AggregationExtension
aggregation_extension none = none
aggregation_extension (some a) = some (record {
  strategy = a.strategy;
  best_effort = a.best_effort;
  on_conflict = on_conflict_extension a.on_conflict;
})

module _ (durations : Durations) where
  unfoldable pub retry_extension : RetryConfig → Option RetryExtension
  retry_extension r =
      if is_zero_retry r
      then none
      else some (record {
        max_retries = r.max_retries;
        retry_on_statuses = r.retry_on_statuses;
        backoff_delay = durations.text r.backoff_delay;
      })

  unfoldable pub breaker_extension : CircuitBreakerConfig → Option CircuitBreakerExtension
  breaker_extension c =
      if is_zero_breaker c
      then none
      else some (record {
        enabled = c.enabled;
        max_failures = c.max_failures;
        reset_timeout = durations.text c.reset_timeout;
      })

  unfoldable pub policy_extension : PolicyConfig → Option PolicyExtension
  policy_extension p =
      if is_zero_policy p
      then none
      else some (record {
        header_blacklist = p.header_blacklist;
        require_body = p.require_body;
        max_response_body_size = p.max_response_body_size;
        follow_redirects = p.follow_redirects;
        retry = retry_extension p.retry_config;
        circuit_breaker = breaker_extension p.circuit_breaker_config;
        load_balancing = p.load_balancing_mode;
      })

  unfoldable pub transport_extension : TransportConfig → Option TransportExtension
  transport_extension t =
      if transport_eq t zero_transport || transport_eq t default_transport
      then none
      else some (record {
        max_idle_conns = t.max_idle_conns;
        max_idle_conns_per_host = t.max_idle_conns_per_host;
        idle_conn_timeout = durations.text t.idle_conn_timeout;
      })

  -- The body of the loop over the upstreams.
  unfoldable pub upstream_extension : UpstreamConfig → UpstreamExtension
  upstream_extension u = record {
    name = u.name;
    hosts = u.hosts;
    path = u.path;
    method = u.method;
    timeout = durations.text u.timeout;
    forward_headers = u.forward_headers;
    forward_queries = u.forward_queries;
    forward_params = u.forward_params;
    tls_enabled = u.tls.enabled;
    policy = policy_extension u.policy;
    transport = transport_extension u.transport;
  }

  unfoldable pub flow_extension : FlowConfig → FlowExtension
  flow_extension f = record {
    streaming = f.streaming;
    aggregation = aggregation_extension f.aggregation;
    upstreams = map upstream_extension f.upstreams;
    middlewares = map (λ m. m.name) f.middlewares;
    plugins = f.plugins;
  }
