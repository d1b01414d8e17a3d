-- ===== src/OpenApi/Import.antt =====
-- internal/openapi/import.go: the configuration of a flow from an operation that has the extension
-- "x-aastro" (`reconstructFlow`). A warning that the code appends through a pointer is given back here, beside
-- the value, and appended by the caller at the same place.
use aastro.Prelude.{
  ℕ, Bool, false, List, [], ◌∷◌, ◌++◌, Option, none, some, String, str_eq, is_empty, if◌then◌else◌,
}
use aastro.Upstream.{pos}
use aastro.Config.{
  OnConflictConfig, AggregationConfig, TlsConfig, TransportConfig, RetryConfig,
  CircuitBreakerConfig, PolicyConfig, UpstreamConfig, FlowConfig,
}
use aastro.OpenApi.{
  OnConflictExtension, AggregationExtension, RetryExtension, CircuitBreakerExtension,
  PolicyExtension, TransportExtension, UpstreamExtension, FlowExtension, Durations,
  default_transport, Message, no_hosts, unparsable_timeout, tls_without_files, unparsable_field,
  plugins_lost, middlewares_lost,
}

abbrev pub placeholder_host : String
placeholder_host = "https://CHANGE-ME.internal"

abbrev pub zero_retry : RetryConfig
zero_retry = record { max_retries = pos 0; retry_on_statuses = []; backoff_delay = 0 }

abbrev pub zero_breaker : CircuitBreakerConfig
zero_breaker = record { enabled = false; max_failures = 0; reset_timeout = 0 }

abbrev pub zero_policy : PolicyConfig
zero_policy = record {
  header_blacklist = [];
  require_body = false;
  max_response_body_size = 0;
  follow_redirects = false;
  retry_config = zero_retry;
  circuit_breaker_config = zero_breaker;
  load_balancing_mode = "";
}

-- `TLSConfig{Enabled: enabled}`.
abbrev pub plain_tls : Bool → TlsConfig
plain_tls enabled = record {
  enabled = enabled;
  cert_file = "";
  key_file = "";
  ca_file = "";
  server_name = "";
  insecure_skip_verify = false;
  min_version = "";
}

abbrev pub reconstruct_on_conflict : Option OnConflictExtension → Option OnConflictConfig
reconstruct_on_conflict none = none
reconstruct_on_conflict (some c) = some (record { policy = c.policy; upstream = c.prefer_upstream })

abbrev pub reconstruct_aggregation : Option AggregationExtension → Option AggregationConfig
reconstruct_aggregation none = none
reconstruct_aggregation (some a) = some (record {
  best_effort = a.best_effort;
  strategy = a.strategy;
  on_conflict = reconstruct_on_conflict a.on_conflict;
})

abbrev pub parsed_or : ℕ → Message → Option ℕ → ℕ × List Message
parsed_or fallback warning none = (fallback, warning ∷ [])
parsed_or fallback warning (some d) = (d, [])

module _ (durations : Durations) where
  unfoldable pub parse_duration_or : String → ℕ → String → String → ℕ × List Message
  parse_duration_or raw fallback upstream field =
      if str_eq raw ""
      then (fallback, [])
      else parsed_or fallback (unparsable_field upstream field raw) (durations.parse raw)

  unfoldable pub reconstruct_retry : String → Option RetryExtension → RetryConfig × List Message
  reconstruct_retry upstream none = (zero_retry, [])
  reconstruct_retry upstream (some r) =
      let (delay, ws) = parse_duration_or r.backoff_delay 0 upstream "retry backoff_delay" in
      (
        record {
          max_retries = r.max_retries;
          retry_on_statuses = r.retry_on_statuses;
          backoff_delay = delay;
        },
        ws,
      )

  unfoldable pub reconstruct_breaker :
      String → Option CircuitBreakerExtension → CircuitBreakerConfig × List Message
  reconstruct_breaker upstream none = (zero_breaker, [])
  reconstruct_breaker upstream (some c) =
      let (timeout, ws) =
        parse_duration_or c.reset_timeout 0 upstream "circuit_breaker reset_timeout" in
      (record { enabled = c.enabled; max_failures = c.max_failures; reset_timeout = timeout }, ws)

  unfoldable pub reconstruct_policy : String → Option PolicyExtension → PolicyConfig × List Message
  reconstruct_policy upstream none = (zero_policy, [])
  reconstruct_policy upstream (some p) =
      let (retry, retry_ws) = reconstruct_retry upstream p.retry in
      let (breaker, breaker_ws) = reconstruct_breaker upstream p.circuit_breaker in
      (
        record {
          header_blacklist = p.header_blacklist;
          require_body = p.require_body;
          max_response_body_size = p.max_response_body_size;
          follow_redirects = p.follow_redirects;
          retry_config = retry;
          circuit_breaker_config = breaker;
          load_balancing_mode = p.load_balancing;
        },
        retry_ws ++ breaker_ws,
      )

  unfoldable pub reconstruct_transport :
      String → Option TransportExtension → TransportConfig × List Message
  reconstruct_transport upstream none = (default_transport, [])
  reconstruct_transport upstream (some t) =
      let (timeout, ws) =
        parse_duration_or t.idle_conn_timeout 0 upstream "transport idle_conn_timeout" in
      (
        record {
          max_idle_conns = t.max_idle_conns;
          max_idle_conns_per_host = t.max_idle_conns_per_host;
          idle_conn_timeout = timeout;
          http2 = "";
        },
        ws,
      )

  unfoldable pub reconstruct_hosts : UpstreamExtension → List String × List Message
  reconstruct_hosts u =
      if is_empty u.hosts then (placeholder_host ∷ [], no_hosts u.name ∷ []) else (u.hosts, [])

  unfoldable pub reconstruct_timeout : UpstreamExtension → ℕ × List Message
  reconstruct_timeout u =
      if str_eq u.timeout ""
      then (0, [])
      else parsed_or 0 (unparsable_timeout u.name u.timeout) (durations.parse u.timeout)

  -- The body of the loop over the upstreams.
  unfoldable pub reconstruct_upstream : UpstreamExtension → UpstreamConfig × List Message
  reconstruct_upstream u =
      let (hosts, hosts_ws) = reconstruct_hosts u in
      let (timeout, timeout_ws) = reconstruct_timeout u in
      let (policy, policy_ws) = reconstruct_policy u.name u.policy in
      let (transport, transport_ws) = reconstruct_transport u.name u.transport in
      let tls_ws = if u.tls_enabled then tls_without_files u.name ∷ [] else [] in
      (
        record {
          name = u.name;
          hosts = hosts;
          path = u.path;
          method = u.method;
          timeout = timeout;
          forward_headers = u.forward_headers;
          forward_queries = u.forward_queries;
          forward_params = u.forward_params;
          policy = policy;
          transport = transport;
          tls = plain_tls u.tls_enabled;
        },
        hosts_ws ++ (timeout_ws ++ (policy_ws ++ (transport_ws ++ tls_ws))),
      )

  unfoldable pub reconstruct_upstreams : List UpstreamExtension → List UpstreamConfig × List Message
  reconstruct_upstreams [] = ([], [])
  reconstruct_upstreams (u ∷ us) =
      let (v, ws) = reconstruct_upstream u in
      let (vs, rest) = reconstruct_upstreams us in (v ∷ vs, ws ++ rest)

  unfoldable pub reconstruct_flow : String → String → FlowExtension → FlowConfig × List Message
  reconstruct_flow path method ext =
      let (upstreams, ws) = reconstruct_upstreams ext.upstreams in
      let plugins_ws = if is_empty ext.plugins then [] else plugins_lost ext.plugins ∷ [] in
      let middlewares_ws =
        if is_empty ext.middlewares then [] else middlewares_lost ext.middlewares ∷ [] in
      (
        record {
          path = path;
          method = method;
          streaming = ext.streaming;
          aggregation = reconstruct_aggregation ext.aggregation;
          upstreams = upstreams;
          plugins = [];
          middlewares = [];
        },
        ws ++ (plugins_ws ++ middlewares_ws),
      )
