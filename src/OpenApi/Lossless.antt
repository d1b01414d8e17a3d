-- ===== src/OpenApi/Lossless.antt =====
-- Which flows an export with extensions and an import keep, and what the warnings tell of the others
-- (internal/openapi).
use aastro.Prelude.{
  List, [], ◌∷◌, ◌++◌, Option, none, some, String, is_empty, map, All, if◌then◌else◌, ◌≡◌, ◌≢◌, ◌↔◌,
  refl, sym, ap, ◌∙◌,
}
use aastro.Config.{
  OnConflictConfig, AggregationConfig, UpstreamConfig, FlowConfig, MiddlewareConfig,
}
use aastro.OpenApi.{Durations, Message, plugins_lost, middlewares_lost}
use aastro.OpenApi.Export.{on_conflict_extension, aggregation_extension, flow_extension}
use aastro.OpenApi.Defaults.{default_tls, set_upstream, set_defaults, restored_transport_iff}
use aastro.OpenApi.Import.{
  reconstruct_on_conflict, plain_tls, reconstruct_aggregation, reconstruct_flow,
}
use aastro.OpenApi.RoundTrip.{
  restored, restored_hosts, lost_of_all, reconstruct_upstreams-extension,
}

abbrev pub restored_flow : FlowConfig → FlowConfig
restored_flow f = record f { upstreams = map restored f.upstreams; plugins = []; middlewares = [] }

abbrev pub names_of : List MiddlewareConfig → List String
names_of ms = map (λ m. m.name) ms

abbrev pub lost_of_flow : FlowConfig → List Message
lost_of_flow f =
    lost_of_all f.upstreams
    ++ ((if is_empty f.plugins then [] else plugins_lost f.plugins ∷ [])
        ++ (if is_empty (names_of f.middlewares)
            then []
            else middlewares_lost (names_of f.middlewares) ∷ []))

reconstruct_on_conflict-extension :
    (c : Option OnConflictConfig) → reconstruct_on_conflict (on_conflict_extension c) ≡ c
reconstruct_on_conflict-extension none = refl
reconstruct_on_conflict-extension (some c) = refl

reconstruct_aggregation-extension :
    (a : Option AggregationConfig) → reconstruct_aggregation (aggregation_extension a) ≡ a
reconstruct_aggregation-extension none = refl
reconstruct_aggregation-extension (some a) =
    simp (reconstruct_on_conflict-extension a.on_conflict) refl

pub reconstruct_flow-extension :
    (durations : Durations) (f : FlowConfig)
    → reconstruct_flow durations f.path f.method (flow_extension durations f)
      ≡ (restored_flow f, lost_of_flow f)
unfolding reconstruct_flow flow_extension
reconstruct_flow-extension durations f =
    simp (reconstruct_upstreams-extension durations, reconstruct_aggregation-extension) refl

-- What an upstream must be to come back: it has a host, its TLS sets nothing but whether it is enabled, and it
-- leaves http2 at "auto".
pub record IsPortable (u : UpstreamConfig) : Type 0 where
  pub hosts_given : u.hosts ≢ []
  pub tls_plain : u.tls ≡ default_tls (plain_tls u.tls.enabled)
  pub http2_auto : u.transport.http2 ≡ "auto"

pub record IsPortableFlow (f : FlowConfig) : Type 0 where
  pub upstreams_portable : All IsPortable f.upstreams
  pub no_plugins : f.plugins ≡ []
  pub no_middlewares : f.middlewares ≡ []

restored_hosts_iff : (hosts : List String) → (hosts ≢ []) ↔ (restored_hosts hosts ≡ hosts)
unfolding restored_hosts
restored_hosts_iff [] = (λ h. absurd (h refl), λ h. cc h)
restored_hosts_iff (x ∷ xs) = (λ h. refl, λ h e. cc e)

restored_iff :
    (u : UpstreamConfig) → set_upstream u ≡ u → IsPortable u ↔ (set_upstream (restored u) ≡ u)
unfolding restored set_upstream
restored_iff u loaded =
    let transport = restored_transport_iff u.transport (ap (λ v. v.transport) loaded) in
    (
      λ p. cc (
        (restored_hosts_iff u.hosts).0 p.hosts_given,
        transport.0 p.http2_auto,
        p.tls_plain,
        ap (λ v. v.timeout) loaded,
      ),
      λ h. record {
        hosts_given = (restored_hosts_iff u.hosts).1 (ap (λ v. v.hosts) h);
        tls_plain = sym (ap (λ v. v.tls) h);
        http2_auto = transport.1 (ap (λ v. v.transport) h);
      },
    )

map-restored_iff :
    (us : List UpstreamConfig)
    → map set_upstream us ≡ us
    → All IsPortable us ↔ (map set_upstream (map restored us) ≡ us)
map-restored_iff [] loaded = (λ h. refl, λ h. tt)
map-restored_iff (u ∷ us) loaded =
    let one = restored_iff u (cc loaded) in
    let rest = map-restored_iff us (cc loaded) in
    (λ h. cc (one.0 h.0, rest.0 h.1), λ h. (one.1 (cc h), rest.1 (cc h)))

-- A flow of a loaded configuration that is exported with extensions, imported under its path and method and
-- loaded again is the same flow, if and only if it has no plugins and no middlewares, and each of its
-- upstreams has a host, no other TLS setting than whether it is enabled, and http2 at "auto". Loading
-- sets the defaults, which the flow has already.
pub reconstruct_flow_lossless :
    (durations : Durations) (f : FlowConfig)
    → set_defaults f ≡ f
    → IsPortableFlow f ↔ (
        set_defaults (reconstruct_flow durations f.path f.method (flow_extension durations f)).0
        ≡ f)
unfolding set_defaults
reconstruct_flow_lossless durations f loaded =
    let e = ap (λ r. set_defaults r.0) (reconstruct_flow-extension durations f) in
    let ups = map-restored_iff f.upstreams (ap (λ g. g.upstreams) loaded) in
    (
      λ p. e ∙ cc (ups.0 p.upstreams_portable, p.no_plugins, p.no_middlewares),
      λ h.
          let same = sym e ∙ h in
          record {
            upstreams_portable = ups.1 (ap (λ g. g.upstreams) same);
            no_plugins = sym (ap (λ g. g.plugins) same);
            no_middlewares = sym (ap (λ g. g.middlewares) same);
          },
    )
