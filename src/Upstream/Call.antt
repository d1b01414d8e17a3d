-- ===== src/Upstream/Call.antt =====
-- `call` of upstream.go: the retried call, then the breaker's update, then the upstream's policy.
pub mod Stuck
pub mod Policy
pub mod Passing
use aastro.Prelude.{
  ℕ, ◌+◌, Bool, true, false, not, [], ◌∷◌, ◌++◌, ◌&&◌, Option, none, some, String, if◌then◌else◌,
  is_empty,
}
use aastro.Breaker.{CircuitBreaker, on_failure, on_success}
use aastro.UpstreamError.{
  UpstreamErrorKind, client_error, redirect, policy_violation, UpstreamError, GoError,
  BreakerOutcome, no_signal, success, failure, breaker_outcome_for, is_status_failure,
}
use aastro.Upstream.{UpstreamPolicy, HttpUpstream, UpstreamResponse, Exchange}
use aastro.Upstream.Retry.{call_with_retry, report_breaker}

-- The `switch` of `updateCircuitBreaker`; `now` is the time of the report.
record_outcome : BreakerOutcome → ℕ → CircuitBreaker → CircuitBreaker
record_outcome failure now b = on_failure now b
record_outcome success now b = on_success b
record_outcome no_signal now b = b

update_breaker : Option CircuitBreaker → ℕ → UpstreamResponse → HttpUpstream → HttpUpstream
update_breaker none now resp u = u
update_breaker (some b) now resp u =
    report_breaker
      (record u { circuit_breaker = some (record_outcome (breaker_outcome_for resp.err) now b) })

pub update_circuit_breaker : ℕ → UpstreamResponse → HttpUpstream → HttpUpstream
update_circuit_breaker now resp u = update_breaker u.circuit_breaker now resp u

abbrev empty_body : GoError
empty_body = "empty body not allowed by upstream policy" ∷ []

abbrev downgrades : UpstreamErrorKind → Bool
downgrades client_error = true
downgrades redirect = true
downgrades _ = false

-- The `switch` of `applyPolicy` at a violation.
violated : Option UpstreamError → Option UpstreamError
violated none = some (record { kind = policy_violation; err = empty_body })
violated (some e) =
    if downgrades e.kind
    then some (record { kind = policy_violation; err = e.err ++ empty_body })
    else some (record { kind = e.kind; err = e.err ++ empty_body })

-- The early return of `applyPolicy`: no policy for what is no answer of the upstream.
exempt : Option UpstreamError → Bool
exempt none = false
exempt (some e) = not (is_status_failure e.kind)

pub violates : UpstreamPolicy → UpstreamResponse → Bool
unfolding exempt
violates policy resp = if exempt resp.err then false else policy.require_body && is_empty resp.body

abbrev count_violation : HttpUpstream → HttpUpstream
count_violation u = record u {
  metrics = record (u.metrics) { policy_violations = u.metrics.policy_violations + 1 };
}

pub apply_policy : HttpUpstream × UpstreamResponse → HttpUpstream × UpstreamResponse
apply_policy (u, resp) =
    if violates u.cfg.policy resp
    then (count_violation u, record resp { err = violated resp.err })
    else (u, resp)

-- The end of `call`. At a nil response it panics, which is `none`.
pub settle : ℕ → HttpUpstream × Option UpstreamResponse → HttpUpstream × Option UpstreamResponse
settle now (u, none) = (u, none)
settle now (u, some resp) =
    let (v, checked) = apply_policy (update_circuit_breaker now resp u, resp) in (v, some checked)

-- `call`; `now` is the time at which the outcome is reported to the breaker.
pub call : String → (ℕ → Exchange) → ℕ → HttpUpstream → HttpUpstream × Option UpstreamResponse
call original_method world now u = settle now (call_with_retry original_method world u)
