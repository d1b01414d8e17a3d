-- ===== src/OpenApi/Equal.antt =====
-- When two transports are the same, and when a policy is the zero value (internal/openapi/export.go).
use aastro.Prelude.{
  Bool, true, false, not, List, [], ◌∷◌, String, str_eq, str_eq_iff, is_empty, ◌≡◌, ◌↔◌, refl, ap,
  arith, ==→eq, subst,
}
use aastro.Upstream.{ℤ, pos, negsuc}
use aastro.Config.{TransportConfig, RetryConfig, CircuitBreakerConfig, PolicyConfig}
use aastro.OpenApi.Export.{int_eq, transport_eq, is_zero_retry, is_zero_breaker, is_zero_policy}
use aastro.OpenApi.Import.{zero_retry, zero_breaker, zero_policy}

int_eq→eq : (a b : ℤ) → int_eq a b ≡ true → a ≡ b
unfolding int_eq
int_eq→eq (pos a) (pos b) h = ap pos (ground (arith, h))
int_eq→eq (negsuc a) (negsuc b) h = ap negsuc (ground (arith, h))
int_eq→eq (pos a) (negsuc b) h = cc
int_eq→eq (negsuc a) (pos b) h = cc

int_eq_refl : (a : ℤ) → int_eq a a ≡ true
unfolding int_eq
int_eq_refl (pos a) = ground arith
int_eq_refl (negsuc a) = ground arith

is_empty→eq : {A : Type 0} (xs : List A) → is_empty xs ≡ true → xs ≡ []
is_empty→eq [] h = refl
is_empty→eq (x ∷ xs) h = cc

str_eq→eq : (s t : String) → str_eq s t ≡ true → s ≡ t
str_eq→eq s t = (str_eq_iff s t).0

pub transport_eq_iff : (s t : TransportConfig) → (transport_eq s t ≡ true) ↔ (s ≡ t)
unfolding transport_eq
transport_eq_iff s t = (
  λ h. cc (
    int_eq→eq s.max_idle_conns t.max_idle_conns (ground (arith, h)),
    int_eq→eq s.max_idle_conns_per_host t.max_idle_conns_per_host (ground (arith, h)),
    ==→eq s.idle_conn_timeout t.idle_conn_timeout (ground (arith, h)),
    str_eq→eq s.http2 t.http2 (ground (arith, h)),
  ),
  λ e.
      subst (λ v. transport_eq s v ≡ true) e
        (ground (
          arith,
          int_eq_refl s.max_idle_conns,
          int_eq_refl s.max_idle_conns_per_host,
          (str_eq_iff s.http2 s.http2).1 refl,
        )),
)

pub is_zero_retry→eq : (r : RetryConfig) → is_zero_retry r ≡ true → r ≡ zero_retry
unfolding is_zero_retry
is_zero_retry→eq r h = cc (
  int_eq→eq r.max_retries (pos 0) (ground (arith, h)),
  is_empty→eq r.retry_on_statuses (ground (arith, h)),
  ==→eq r.backoff_delay 0 (ground (arith, h)),
)

not-true : (b : Bool) → not b ≡ true → b ≡ false
not-true true h = cc
not-true false h = refl

pub is_zero_breaker→eq : (c : CircuitBreakerConfig) → is_zero_breaker c ≡ true → c ≡ zero_breaker
unfolding is_zero_breaker
is_zero_breaker→eq c h = cc (
  not-true c.enabled (ground (arith, h)),
  ==→eq c.max_failures 0 (ground (arith, h)),
  ==→eq c.reset_timeout 0 (ground (arith, h)),
)

pub is_zero_policy→eq : (p : PolicyConfig) → is_zero_policy p ≡ true → p ≡ zero_policy
unfolding is_zero_policy
is_zero_policy→eq p h = cc (
  is_empty→eq p.header_blacklist (ground (arith, h)),
  not-true p.require_body (ground (arith, h)),
  ==→eq p.max_response_body_size 0 (ground (arith, h)),
  not-true p.follow_redirects (ground (arith, h)),
  is_zero_retry→eq p.retry_config (ground (arith, h)),
  is_zero_breaker→eq p.circuit_breaker_config (ground (arith, h)),
  str_eq→eq p.load_balancing_mode "" (ground (arith, h)),
)
