-- ===== src/OpenApi/Defaults.antt =====
-- config.go: the defaults that the tags of an upstream's fields name, which loading a configuration sets: a
-- field that has its type's zero value gets the tag's value.
use aastro.Prelude.{
  ℕ, ◌==◌, String, str_eq, map, if◌then◌else◌, ◌≡◌, ◌≢◌, ◌↔◌, refl, sym, ap, ◌∙◌, inl, inr,
  Bool-cases,
}
use aastro.Upstream.{ℤ, pos}
use aastro.Config.{TlsConfig, TransportConfig, UpstreamConfig, FlowConfig}
use aastro.OpenApi.{default_transport}
use aastro.OpenApi.Export.{int_eq, transport_eq, zero_transport}
use aastro.OpenApi.Equal.{transport_eq_iff}
use aastro.OpenApi.RoundTrip.{restored_transport}

abbrev int_or : ℤ → ℤ → ℤ
int_or fallback n = if int_eq n (pos 0) then fallback else n

abbrev pub duration_or : ℕ → ℕ → ℕ
duration_or fallback d = if d == 0 then fallback else d

abbrev text_or : String → String → String
text_or fallback s = if str_eq s "" then fallback else s

unfoldable pub default_tls : TlsConfig → TlsConfig
default_tls t = record t { min_version = text_or "1.2" t.min_version }

unfoldable pub set_transport : TransportConfig → TransportConfig
set_transport t = record {
  max_idle_conns = int_or (pos 100) t.max_idle_conns;
  max_idle_conns_per_host = int_or (pos 50) t.max_idle_conns_per_host;
  idle_conn_timeout = duration_or 90000000000 t.idle_conn_timeout;
  http2 = text_or "auto" t.http2;
}

unfoldable pub set_upstream : UpstreamConfig → UpstreamConfig
set_upstream u = record u {
  timeout = duration_or 3000000000 u.timeout;
  transport = set_transport u.transport;
  tls = default_tls u.tls;
}

unfoldable pub set_defaults : FlowConfig → FlowConfig
set_defaults f = record f { upstreams = map set_upstream f.upstreams }

set_transport-http2 :
    (t : TransportConfig)
    → set_transport t ≡ t
    → set_transport (record t { http2 = "" }) ≡ record t { http2 = "auto" }
unfolding set_transport int_eq
set_transport-http2 t h = cc (
  ap (λ v. v.max_idle_conns) h,
  ap (λ v. v.max_idle_conns_per_host) h,
  ap (λ v. v.idle_conn_timeout) h,
)

default_transport_loaded : set_transport default_transport ≡ default_transport
unfolding set_transport int_eq
default_transport_loaded = refl

auto_not_empty : ◌≢◌ {A = String} "auto" ""
auto_not_empty h = cc h

zero_not_loaded : set_transport zero_transport ≢ zero_transport
unfolding set_transport int_eq
zero_not_loaded h = auto_not_empty (ap (λ t. t.http2) h)

-- Of a transport with its defaults, the round trip and loading give back the same if http2 is "auto".
pub restored_transport_iff :
    (t : TransportConfig)
    → set_transport t ≡ t
    → (t.http2 ≡ "auto") ↔ (set_transport (restored_transport t) ≡ t)
unfolding restored_transport
restored_transport_iff t loaded = elim (Bool-cases (transport_eq t zero_transport)) [
  | inl z ↦ absurd (zero_not_loaded (cc ((transport_eq_iff t zero_transport).0 z, loaded)))
  | inr nz ↦ elim (Bool-cases (transport_eq t default_transport)) [
    | inl d ↦
        let same = (transport_eq_iff t default_transport).0 d in
        (λ h. simp (nz, d) (default_transport_loaded ∙ sym same), λ h. ap (λ v. v.http2) same)
    | inr nd ↦
        let restored : set_transport (restored_transport t) ≡ record t { http2 = "auto" } =
          simp (nz, nd) (set_transport-http2 t loaded) in
        (
          λ h. restored ∙ ap (λ x. record t { http2 = x }) (sym h),
          λ h. sym (ap (λ v. v.http2) (sym restored ∙ h)),
        )
  ]
]
