-- ===== src/Builder/Upstreams.antt =====
-- The upstreams that are built from the configuration (builder.go).
use aastro.Prelude.{
  ℕ, suc, ◌+◌, List, [], ◌∷◌, Option, none, some, String, if◌then◌else◌, str_eq, str_eq_iff, length,
  get_elem?, All, ◌≡◌, refl, ap, arith,
}
use aastro.Prelude.Fallible.{WhenSome, WhenSome-if, WhenSome-eq, WhenSome-bind}
use aastro.Breaker as Breaker
use aastro.Upstream.{HttpUpstream}
use aastro.Config.{UpstreamConfig}
use aastro.Builder.{
  Loading, zeros, build_upstream_tls_config, build_upstream, build_upstream_config,
  build_upstream_state, build_circuit_breaker, init_upstreams,
}
use aastro.Builder.Aggregations.{search_upstream}

-- An upstream as it is before its first request: the round robin begins at the first host, no host has a
-- connection and each has a count, and the breaker is closed, where one is enabled.
pub record IsFresh (cfg : UpstreamConfig) (u : HttpUpstream) : Type 0 where
  pub same_hosts : u.cfg.hosts ≡ cfg.hosts
  pub at_first : u.state.current_host_idx ≡ 0
  pub is_counted : length u.state.active_connections ≡ length u.cfg.hosts
  pub no_connections : All (λ c. c ≡ 0) u.state.active_connections
  pub has_breaker : u.circuit_breaker ≡ (
      if cfg.policy.circuit_breaker_config.enabled
      then some (
          Breaker.new cfg.policy.circuit_breaker_config.max_failures
            cfg.policy.circuit_breaker_config.reset_timeout)
      else none)

-- One upstream for each configuration, in the same order.
abbrev pub AllFresh : List UpstreamConfig → List HttpUpstream → Type 0
AllFresh [] [] = Unit
AllFresh [] (u ∷ us) = ⊥
AllFresh (cfg ∷ cfgs) [] = ⊥
AllFresh (cfg ∷ cfgs) (u ∷ us) = IsFresh cfg u × AllFresh cfgs us

length-zeros : (hosts : List String) → length (zeros hosts) ≡ length hosts
unfolding zeros
length-zeros [] = refl
length-zeros (h ∷ hosts) = ap suc (length-zeros hosts)

zeros_are_zero : (hosts : List String) → All (λ c. c ≡ 0) (zeros hosts)
unfolding zeros
zeros_are_zero [] = tt
zeros_are_zero (h ∷ hosts) = (refl, zeros_are_zero hosts)

module _ (loading : Loading) where
  build_upstream-IsFresh :
      (cfg : UpstreamConfig) → WhenSome (IsFresh cfg) (build_upstream loading cfg)
  unfolding build_upstream build_upstream_config build_upstream_state build_circuit_breaker
  build_upstream-IsFresh cfg =
      let fresh : IsFresh cfg (record {
        cfg = build_upstream_config loading cfg;
        state = build_upstream_state cfg.hosts;
        circuit_breaker = build_circuit_breaker cfg.policy.circuit_breaker_config;
        metrics = record { retries_total = 0; policy_violations = 0; breaker_state = none };
        sent = [];
      }) =
        record {
          same_hosts = refl;
          at_first = refl;
          is_counted = length-zeros cfg.hosts;
          no_connections = zeros_are_zero cfg.hosts;
          has_breaker = refl;
        } in
      WhenSome-if (IsFresh cfg) (build_upstream_tls_config loading cfg.tls cfg.transport.http2) _
        none (λ _. fresh) (λ _. tt)

  pub init_upstreams-AllFresh :
      (cfgs : List UpstreamConfig) → WhenSome (AllFresh cfgs) (init_upstreams loading cfgs)
  unfolding init_upstreams
  init_upstreams-AllFresh [] = tt
  init_upstreams-AllFresh (cfg ∷ cfgs) =
      let rest = init_upstreams-AllFresh cfgs in
      WhenSome-bind (AllFresh (cfg ∷ cfgs)) (build_upstream loading cfg) _ (λ u built_u.
        WhenSome-bind (AllFresh (cfg ∷ cfgs)) (init_upstreams loading cfgs) _ (λ us built_us. (
          WhenSome-eq (IsFresh cfg) (build_upstream-IsFresh cfg) built_u,
          WhenSome-eq (AllFresh cfgs) rest built_us,
        )))

-- The upstream at an index `k`, from `i` on, has the name.
abbrev pub IsNamed : String → ℕ → List HttpUpstream → ℕ → Type 0
IsNamed name i us k =
    (j : ℕ) × ((u : HttpUpstream) × ((k ≡ i + j)
        × ((get_elem? us j ≡ some u) × (u.cfg.name ≡ name))))

search_later :
    (name : String) (i : ℕ) (v : HttpUpstream) (us : List HttpUpstream) (o : Option ℕ)
    → WhenSome (IsNamed name (suc i) us) o
    → WhenSome (IsNamed name i (v ∷ us)) o
search_later name i v us none h = tt
search_later name i v us (some k) (j, (u, (e, rest))) = (suc j, (u, (omega arith, rest)))

pub search_upstream-IsNamed :
    (name : String) (i : ℕ) (us : List HttpUpstream)
    → WhenSome (IsNamed name i us) (search_upstream name i us)
unfolding search_upstream
search_upstream-IsNamed name i [] = tt
search_upstream-IsNamed name i (u ∷ us) =
    let rest = search_upstream-IsNamed name (suc i) us in
    WhenSome-if (IsNamed name i (u ∷ us)) (str_eq u.cfg.name name) (some i) _
      (λ e. (0, (u, (omega arith, (refl, (str_eq_iff u.cfg.name name).0 e)))))
      (λ _. search_later name i u us (search_upstream name (suc i) us) rest)
