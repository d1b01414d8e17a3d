-- ===== src/OpenApi/RoundTrip.antt =====
-- What an export with extensions and an import give back of a flow (internal/openapi).
use aastro.Prelude.{
  ℕ, false, ◌||◌, List, [], ◌∷◌, ◌++◌, String, str_eq, str_eq_iff, is_empty, map, if◌then◌else◌,
  ◌≡◌, refl, sym, ap, inl, inr, Bool-cases,
}
use aastro.Config.{TransportConfig, RetryConfig, CircuitBreakerConfig, PolicyConfig, UpstreamConfig}
use aastro.OpenApi.{Durations, default_transport, Message, no_hosts, tls_without_files}
use aastro.OpenApi.Export.{
  transport_eq, zero_transport, is_zero_retry, is_zero_breaker, is_zero_policy, retry_extension,
  breaker_extension, policy_extension, transport_extension, upstream_extension,
}
use aastro.OpenApi.Equal.{is_zero_retry→eq, is_zero_breaker→eq, is_zero_policy→eq}
use aastro.OpenApi.Import.{
  placeholder_host, plain_tls, parse_duration_or, reconstruct_retry, reconstruct_breaker,
  reconstruct_policy, reconstruct_transport, reconstruct_hosts, reconstruct_timeout,
  reconstruct_upstream, reconstruct_upstreams,
}

module _ (durations : Durations) where
  text-not_empty : (d : ℕ) → str_eq (durations.text d) "" ≡ false
  text-not_empty d = elim (Bool-cases (str_eq (durations.text d) "")) [
    | inl e ↦
        cc ((str_eq_iff (durations.text d) "").0 e, durations.parse-text d, durations.parse_empty)
    | inr e ↦ e
  ]

  parse_duration_or-text :
      (d fallback : ℕ) (upstream field : String)
      → parse_duration_or durations (durations.text d) fallback upstream field ≡ (d, [])
  unfolding parse_duration_or
  parse_duration_or-text d fallback upstream field =
      simp (text-not_empty d, durations.parse-text d) refl

  reconstruct_retry-extension :
      (name : String) (r : RetryConfig)
      → reconstruct_retry durations name (retry_extension durations r) ≡ (r, [])
  unfolding reconstruct_retry retry_extension
  reconstruct_retry-extension name r = elim (Bool-cases (is_zero_retry r)) [
    | inl e ↦ simp e (ap (λ z. (z, [])) (sym (is_zero_retry→eq r e)))
    | inr e ↦ simp (e, parse_duration_or-text) refl
  ]

  reconstruct_breaker-extension :
      (name : String) (c : CircuitBreakerConfig)
      → reconstruct_breaker durations name (breaker_extension durations c) ≡ (c, [])
  unfolding reconstruct_breaker breaker_extension
  reconstruct_breaker-extension name c = elim (Bool-cases (is_zero_breaker c)) [
    | inl e ↦ simp e (ap (λ z. (z, [])) (sym (is_zero_breaker→eq c e)))
    | inr e ↦ simp (e, parse_duration_or-text) refl
  ]

  reconstruct_policy-extension :
      (name : String) (p : PolicyConfig)
      → reconstruct_policy durations name (policy_extension durations p) ≡ (p, [])
  unfolding reconstruct_policy policy_extension
  reconstruct_policy-extension name p = elim (Bool-cases (is_zero_policy p)) [
    | inl e ↦ simp e (ap (λ z. (z, [])) (sym (is_zero_policy→eq p e)))
    | inr e ↦ simp (e, reconstruct_retry-extension, reconstruct_breaker-extension) refl
  ]

-- A transport after the round trip: the zero value comes back as the default, and http2 is dropped from one
-- that is not the default.
unfoldable pub restored_transport : TransportConfig → TransportConfig
restored_transport t =
    if transport_eq t zero_transport || transport_eq t default_transport
    then default_transport
    else record t { http2 = "" }

unfoldable pub restored_hosts : List String → List String
restored_hosts hosts = if is_empty hosts then placeholder_host ∷ [] else hosts

unfoldable pub restored : UpstreamConfig → UpstreamConfig
restored u = record u {
  hosts = restored_hosts u.hosts;
  transport = restored_transport u.transport;
  tls = plain_tls u.tls.enabled;
}

unfoldable pub lost : UpstreamConfig → List Message
lost u =
    (if is_empty u.hosts then no_hosts u.name ∷ [] else [])
    ++ (if u.tls.enabled then tls_without_files u.name ∷ [] else [])

unfoldable pub lost_of_all : List UpstreamConfig → List Message
lost_of_all [] = []
lost_of_all (u ∷ us) = lost u ++ lost_of_all us

module _ (durations : Durations) where
  reconstruct_transport-extension :
      (name : String) (t : TransportConfig)
      → reconstruct_transport durations name (transport_extension durations t)
        ≡ (restored_transport t, [])
  unfolding reconstruct_transport transport_extension restored_transport
  reconstruct_transport-extension name t =
      elim (Bool-cases (transport_eq t zero_transport || transport_eq t default_transport)) [
        | inl e ↦ simp e refl
        | inr e ↦ simp (e, parse_duration_or-text durations) refl
      ]

  reconstruct_upstream-extension :
      (u : UpstreamConfig)
      → reconstruct_upstream durations (upstream_extension durations u) ≡ (restored u, lost u)
  unfolding reconstruct_upstream upstream_extension reconstruct_hosts reconstruct_timeout restored
      restored_hosts lost
  reconstruct_upstream-extension u = elim (Bool-cases (is_empty u.hosts)) [
    | inl e ↦
        simp
          (
            e,
            text-not_empty durations,
            durations.parse-text,
            reconstruct_policy-extension durations,
            reconstruct_transport-extension,
          )
          refl
    | inr e ↦
        simp
          (
            e,
            text-not_empty durations,
            durations.parse-text,
            reconstruct_policy-extension durations,
            reconstruct_transport-extension,
          )
          refl
  ]

  pub reconstruct_upstreams-extension :
      (us : List UpstreamConfig)
      → reconstruct_upstreams durations (map (λ u. upstream_extension durations u) us)
        ≡ (map restored us, lost_of_all us)
  unfolding reconstruct_upstreams lost_of_all
  reconstruct_upstreams-extension [] = refl
  reconstruct_upstreams-extension (u ∷ us) =
      simp (reconstruct_upstream-extension u, reconstruct_upstreams-extension us) refl
