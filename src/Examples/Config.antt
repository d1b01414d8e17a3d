-- ===== src/Examples/Config.antt =====
-- A configuration with a flow of two upstreams, checked and built.
use aastro.Prelude.{
  ℕ, ◌≡◌, ◌≢◌, refl, true, false, List, [], ◌∷◌, Option, none, some, String, All, inr, subst,
}
use aastro.Breaker as Breaker
use aastro.Upstream.{pos, HttpUpstream, round_robin}
use aastro.Flow.{strategy_merge, policy_prefer}
use aastro.OpenApi.{default_transport}
use aastro.Config.{
  AggregationConfig, PolicyConfig, UpstreamConfig, FlowConfig, Config, validate_config,
  validate_flow, validate_flows, validate_http2, validate_upstream_http2, validate_upstream_params,
  validate_path_params, validate_forward_params,
}
use aastro.Config.Params.{extract_path_params, find_params}
use aastro.Config.Params.Template.{
  Piece, literal, param, render, names, is_template, extract_path_params-render,
}
use aastro.Config.Valid.{IsValidFlow, HasTls, validate_config_lem}
use aastro.Builder.{
  Loading, CompiledFlow, compile_flow, with_upstreams, init_upstreams, build_upstream,
  build_upstream_tls_config, build_upstream_config, build_upstream_policy, build_upstream_state,
  build_circuit_breaker, zeros, lb_mode,
}
use aastro.Builder.Results.{crashed}
use aastro.Builder.Aggregations.{
  flow_aggregation, init_aggregation, with_strategy, merging, with_policy, prefer, search_upstream,
}
use aastro.Builder.Names.{compile_strategy, compile_conflict_policy}
use aastro.Builder.Compiled.{IsCompiled, compile_flow-IsCompiled}
use aastro.Builder.Safe.{HasConflictPolicy, compile_flow_sound}

abbrev policy : PolicyConfig
policy = record {
  header_blacklist = "server" ∷ [];
  require_body = false;
  max_response_body_size = 100;
  follow_redirects = false;
  retry_config = record { max_retries = pos 1; retry_on_statuses = 503 ∷ []; backoff_delay = 2 };
  circuit_breaker_config = record { enabled = true; max_failures = 3; reset_timeout = 10 };
  load_balancing_mode = "round_robin";
}

abbrev pub upstream : String → UpstreamConfig
upstream name = record {
  name = name;
  hosts = "http://a" ∷ "http://b" ∷ [];
  path = "/u/{id}";
  method = "GET";
  timeout = 3;
  forward_headers = [];
  forward_queries = [];
  forward_params = "id" ∷ [];
  policy = policy;
  transport = default_transport;
  tls = record {
    enabled = false;
    cert_file = "";
    key_file = "";
    ca_file = "";
    server_name = "";
    insecure_skip_verify = false;
    min_version = "1.2";
  };
}

abbrev aggregation : AggregationConfig
aggregation = record {
  best_effort = true;
  strategy = "merge";
  on_conflict = some (record { policy = "prefer"; upstream = "b" });
}

abbrev pub flow : FlowConfig
flow = record {
  path = "/v/{id}";
  method = "GET";
  streaming = false;
  aggregation = some aggregation;
  upstreams = upstream "a" ∷ upstream "b" ∷ [];
  plugins = [];
  middlewares = [];
}

abbrev config : Config
config = record {
  server = record { port = 80; admin_port = 81; http2 = "auto"; tls_enabled = false };
  flows = flow ∷ [];
}

validate_config_lem_example :
    ((◌≢◌ {A = ℕ} 80 81) × All IsValidFlow (flow ∷ []))
    × All (λ f. All HasTls f.upstreams) (flow ∷ [])
unfolding validate_config validate_flows validate_flow validate_http2 validate_upstream_http2
    validate_upstream_params validate_path_params validate_forward_params extract_path_params
    find_params
validate_config_lem_example = validate_config_lem config refl

abbrev template : List Piece
template = literal "/v/" ∷ param "id" ∷ literal "/" ∷ param "part" ∷ []

extract_path_params-render_example : extract_path_params (render template) ≡ names template
unfolding is_template
extract_path_params-render_example = extract_path_params-render template refl

abbrev loading : Loading
loading = record {
  reload = λ cfg version off. true;
  canonical = λ s. s;
  plugins = λ names. some [];
  middlewares = λ names. some [];
}

abbrev built_upstream : String → HttpUpstream
built_upstream name = record {
  cfg = record {
    name = name;
    hosts = "http://a" ∷ "http://b" ∷ [];
    path = "/u/{id}";
    method = "GET";
    forward_headers = [];
    forward_queries = [];
    forward_params = "id" ∷ [];
    lb_mode = round_robin;
    policy = record {
      header_blacklist = "server" ∷ [];
      require_body = false;
      max_response_body_size = 100;
      retry = record { max_retries = pos 1; retry_on_statuses = 503 ∷ []; backoff_delay = 2 };
    };
  };
  state = record { current_host_idx = 0; active_connections = 0 ∷ 0 ∷ [] };
  circuit_breaker = some (Breaker.new 3 10);
  metrics = record { retries_total = 0; policy_violations = 0; breaker_state = none };
  sent = [];
}

abbrev compiled : CompiledFlow
compiled = record {
  path = "/v/{id}";
  method = "GET";
  streaming = false;
  flow = record {
    aggregation = record {
      best_effort = true;
      strategy = strategy_merge;
      conflict_policy = policy_prefer;
      preferred_upstream = pos 1;
    };
    upstreams = built_upstream "a" ∷ built_upstream "b" ∷ [];
    plugins = [];
  };
  middlewares = [];
}

compile_flow-IsCompiled_example : IsCompiled flow compiled
unfolding compile_flow with_upstreams flow_aggregation init_aggregation with_strategy merging
    with_policy prefer init_upstreams search_upstream build_upstream build_upstream_tls_config
    build_upstream_config build_upstream_policy build_upstream_state build_circuit_breaker zeros
    lb_mode compile_strategy compile_conflict_policy
compile_flow-IsCompiled_example = compile_flow-IsCompiled loading flow compiled refl

has_policy : (a : AggregationConfig) → some aggregation ≡ some a → HasConflictPolicy a
has_policy a h =
    subst (λ (o : Option AggregationConfig). elim o [ none ↦ Unit | some b ↦ HasConflictPolicy b ])
      h (inr (record { policy = "prefer"; upstream = "b" }, refl))

compile_flow_sound_example : compile_flow loading flow ≢ crashed
unfolding validate_flow validate_upstream_params validate_path_params validate_forward_params
    extract_path_params find_params
compile_flow_sound_example = compile_flow_sound loading flow refl has_policy
