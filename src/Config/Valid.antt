-- ===== src/Config/Valid.antt =====
-- What a configuration promises that has passed the checks (config.go).
use aastro.Prelude.{
  ◌≤◌, ltb, Bool, true, false, ◌||◌, List, [], ◌∷◌, Option, none, some, String, str_eq, str_eq_iff,
  contains, length, all, All, ◌≡◌, ◌≢◌, ◌⊎◌, refl, inl, inr, arith, Bool-cases,
}
use aastro.Config.Params.{extract_path_params}
use aastro.Config.{
  FlowConfig, UpstreamConfig, AggregationConfig, Config, validate_flow, validate_flows,
  validate_config, validate_http2, validate_upstream_http2, validate_upstream_params,
  validate_path_params, validate_forward_params, is_given,
}

module _ {A : Type 0} (p : A → Bool) (P : A → Type 0) (sound : (a : A) → p a ≡ true → P a) where
  all-All : (xs : List A) → all p xs ≡ true → All P xs
  all-All [] h = tt
  all-All (x ∷ xs) h = (sound x (ground (arith, h)), all-All xs (ground (arith, h)))

-- An upstream of a flow that declares `flow_params` uses no other parameter, in its path or to forward.
pub record UsesDeclared (flow_params : List String) (u : UpstreamConfig) : Type 0 where
  pub in_path : All (λ param. contains flow_params param ≡ true) (extract_path_params u.path)
  pub forwarded :
      All (λ param. (param ≡ "*") ⊎ (contains flow_params param ≡ true)) u.forward_params

pub record IsValidFlow (f : FlowConfig) : Type 0 where
  pub uses_declared : All (UsesDeclared (extract_path_params f.path)) f.upstreams
  pub one_if_streaming : (f.streaming ≡ false) ⊎ (length f.upstreams ≤ 1)
  pub can_aggregate :
      (f.streaming ≡ true)
      ⊎ ((length f.upstreams ≤ 1) ⊎ ((a : AggregationConfig) × (f.aggregation ≡ some a)))

star_or_declared :
    (flow_params : List String) (a : String)
    → (str_eq a "*" || contains flow_params a) ≡ true
    → (a ≡ "*") ⊎ (contains flow_params a ≡ true)
star_or_declared flow_params a e = elim (Bool-cases (str_eq a "*")) [
  | inl star ↦ inl ((str_eq_iff a "*").0 star)
  | inr other ↦ inr (ground (arith, e, other))
]

validate_upstream_params-UsesDeclared :
    (flow_params : List String) (u : UpstreamConfig)
    → validate_upstream_params u flow_params ≡ true
    → UsesDeclared flow_params u
unfolding validate_upstream_params validate_path_params validate_forward_params
validate_upstream_params-UsesDeclared flow_params u h = record {
  in_path =
      all-All (contains flow_params) (λ param. contains flow_params param ≡ true) (λ a e. e)
        (extract_path_params u.path) (ground (arith, h));
  forwarded =
      all-All (λ param. str_eq param "*" || contains flow_params param)
        (λ param. (param ≡ "*") ⊎ (contains flow_params param ≡ true))
        (λ a e. star_or_declared flow_params a e) u.forward_params (ground (arith, h));
}

option_given :
    (o : Option AggregationConfig) → is_given o ≡ true → (a : AggregationConfig) × (o ≡ some a)
option_given none h = cc
option_given (some a) h = (a, refl)

pub validate_flow-IsValidFlow : (f : FlowConfig) → validate_flow f ≡ true → IsValidFlow f
unfolding validate_flow
validate_flow-IsValidFlow f h = record {
  uses_declared =
      all-All (λ u. validate_upstream_params u (extract_path_params f.path))
        (UsesDeclared (extract_path_params f.path))
        (validate_upstream_params-UsesDeclared (extract_path_params f.path)) f.upstreams
        (ground (arith, h));
  one_if_streaming = elim (Bool-cases f.streaming) [ inl e ↦ inr (few e) | inr e ↦ inl e ];
  can_aggregate = elim (Bool-cases f.streaming) [
    | inl e ↦ inl e
    | inr e ↦ inr (elim (Bool-cases (ltb 1 (length f.upstreams))) [
      | inl several ↦ inr (option_given f.aggregation (ground (arith, h, e, several)))
      | inr one ↦ inl (not_more one)
    ])
  ];
}
  where
    not_more : ltb 1 (length f.upstreams) ≡ false → length f.upstreams ≤ 1
    not_more one = ground arith

    few : f.streaming ≡ true → length f.upstreams ≤ 1
    few e = let one : ltb 1 (length f.upstreams) ≡ false = ground (arith, h, e) in not_more one

validate_flows-IsValidFlow : (fs : List FlowConfig) → validate_flows fs ≡ true → All IsValidFlow fs
unfolding validate_flows
validate_flows-IsValidFlow [] h = tt
validate_flows-IsValidFlow (f ∷ fs) h = (
  validate_flow-IsValidFlow f (ground (arith, h)),
  validate_flows-IsValidFlow fs (ground (arith, h)),
)

-- An upstream that asks for HTTP/2 has TLS.
abbrev pub HasTls : UpstreamConfig → Type 0
HasTls u = (u.transport.http2 ≢ "on") ⊎ (u.tls.enabled ≡ true)

validate_upstream_http2-HasTls : (u : UpstreamConfig) → validate_upstream_http2 u ≡ true → HasTls u
unfolding validate_upstream_http2
validate_upstream_http2-HasTls u h = elim (Bool-cases u.tls.enabled) [
  | inl e ↦ inr e
  | inr e ↦ inl (λ on. ground (arith, h, e, on, str_eq_iff u.transport.http2 "on"))
]

-- A configuration that `ValidateConfig` takes: the ports differ; in every flow, an upstream uses no
-- parameter, in its path or to forward, that the flow's path does not declare ("*" forwards all); a flow
-- that streams has at most one upstream, and another with several has an aggregation; and an upstream with
-- HTTP/2 "on" has TLS.
pub validate_config_lem :
    (cfg : Config)
    → validate_config cfg ≡ true
    → ((cfg.server.port ≢ cfg.server.admin_port) × All IsValidFlow cfg.flows)
      × All (λ f. All HasTls f.upstreams) cfg.flows
unfolding validate_config validate_http2
validate_config_lem cfg h = (
  (λ same. ground (arith, h, same), validate_flows-IsValidFlow cfg.flows (ground (arith, h))),
  all-All (λ f. all validate_upstream_http2 f.upstreams) (λ f. All HasTls f.upstreams)
      (λ f e. all-All validate_upstream_http2 HasTls validate_upstream_http2-HasTls f.upstreams e)
      cfg.flows (ground (arith, h)),
)
