-- ===== src/Upstream/Retry.antt =====
-- `callWithRetry` of upstream.go: attempts with retries under the circuit breaker. The world is an
-- exchange for each attempt, by the attempt's number.
pub mod Rounds
pub mod Gate
pub mod Probe
pub mod Passing
use aastro.Prelude.{
  ℕ, zero, suc, ◌+◌, Bool, true, false, not, List, [], ◌∷◌, ◌&&◌, ◌||◌, Option, none, some, String,
  ltb, any, if◌then◌else◌, contains, str_eq, ◌==◌,
}
use aastro.Breaker.{CircuitBreaker, State, allow}
use aastro.UpstreamError.{
  canceled, circuit_open, UpstreamError, GoError, RetryEligibility, retry_never, retry_always,
  retry_by_status, props,
}
use aastro.Upstream.{
  ℤ, pos, negsuc, RetryPolicy, UpstreamConfig, HttpUpstream, UpstreamResponse, Exchange,
  failed_response,
}
use aastro.Upstream.Attempt.{do_call}

abbrev idempotent_methods : List String
idempotent_methods = "GET" ∷ "HEAD" ∷ "OPTIONS" ∷ "TRACE" ∷ "PUT" ∷ "DELETE" ∷ "QUERY" ∷ []

unfoldable pub is_idempotent : String → Bool
is_idempotent method = contains idempotent_methods method

-- The method that the upstream is called with: its own, or the request's.
unfoldable pub effective_method : UpstreamConfig → String → String
effective_method cfg original = if str_eq cfg.method "" then original else cfg.method

abbrev listed : List ℕ → ℕ → Bool
listed statuses s = any (λ x. x == s) statuses

by_eligibility : RetryEligibility → Bool → Bool
by_eligibility retry_always on_status = true
by_eligibility retry_by_status on_status = on_status
by_eligibility retry_never on_status = false

-- The answer for an idempotent method.
retry_response : Option UpstreamError → Bool → Bool
unfolding by_eligibility props
retry_response none on_status = on_status
retry_response (some e) on_status = by_eligibility (props e.kind).retry on_status

pub should_retry : String → UpstreamResponse → RetryPolicy → Bool
unfolding retry_response is_idempotent
should_retry method resp retry =
    is_idempotent method && retry_response resp.err (listed retry.retry_on_statuses resp.status)

-- The breaker is asked; an upstream without one lets every request through.
ask_breaker : Option CircuitBreaker → ℕ → HttpUpstream → HttpUpstream × Bool
ask_breaker none now u = (u, true)
ask_breaker (some b) now u =
    let (b', allowed) = allow now b in (record u { circuit_breaker = some b' }, allowed)

abbrev state_of : Option CircuitBreaker → Option State
state_of none = none
state_of (some b) = some b.state

-- `SetCircuitBreakerState`.
abbrev pub report_breaker : HttpUpstream → HttpUpstream
report_breaker u = record u {
  metrics = record (u.metrics) { breaker_state = state_of u.circuit_breaker };
}

abbrev canceled_response : GoError → UpstreamResponse
canceled_response e = failed_response (record { kind = canceled; err = e })

abbrev denied_response : UpstreamResponse
denied_response =
    failed_response (record { kind = circuit_open; err = "upstream circuit breaker is open" ∷ [] })

-- `IncUpstreamRetriesTotal`, from the second attempt on.
abbrev count_retry : ℕ → HttpUpstream → HttpUpstream
count_retry attempt u =
    if ltb 0 attempt
    then record u { metrics = record (u.metrics) { retries_total = u.metrics.retries_total + 1 } }
    else u

-- `select` on the backoff's timer and the end of the context.
abbrev backoff : RetryPolicy → Exchange → Option GoError
backoff retry x = if ltb 0 retry.backoff_delay then x.backoff_err else none

-- What an attempt does to the loop: it returns a response, or goes on with one to retry.
pub data Turn : Type 0 where
  finished retrying : UpstreamResponse → Turn

-- The end of a round, after `doCall`; `last` is `attempt == retry.maxRetries`.
after_call :
    Bool → String → RetryPolicy → Exchange → HttpUpstream × UpstreamResponse → HttpUpstream × Turn
after_call last method retry x (u, resp) =
    if last || not (should_retry method resp retry) then (u, finished resp) else (
      u,
      elim (backoff retry x) [ none ↦ retrying resp | some e ↦ finished (canceled_response e) ],
    )

after_ask : Bool → String → Exchange → HttpUpstream × Bool → HttpUpstream × Turn
after_ask last method x (u, false) = (report_breaker u, finished denied_response)
after_ask last method x (u, true) = after_call last method u.cfg.policy.retry x (do_call x u)

-- A round by what `ctx.Err()` is at its start.
in_context : Option GoError → Bool → String → Exchange → HttpUpstream → HttpUpstream × Turn
in_context (some e) last method x u = (u, finished (canceled_response e))
in_context none last method x u = after_ask last method x (ask_breaker u.circuit_breaker x.now u)

-- One round of the loop of `callWithRetry`.
pub round : Bool → ℕ → String → Exchange → HttpUpstream → HttpUpstream × Turn
round last attempt method x u = in_context x.ctx_err last method x (count_retry attempt u)

-- The rounds left, `maxRetries - attempt + 1`.
abbrev rounds : ℤ → ℕ
rounds (pos n) = suc n
rounds (negsuc n) = 0

-- `attempt == retry.maxRetries`, by the rounds that are left after this one.
abbrev pub is_last : ℕ → Bool
is_last zero = true
is_last (suc left) = false

abbrev next_attempt :
    (UpstreamResponse → HttpUpstream → HttpUpstream × Option UpstreamResponse)
    → HttpUpstream × Turn
    → HttpUpstream × Option UpstreamResponse
next_attempt more (u, finished resp) = (u, some resp)
next_attempt more (u, retrying resp) = more resp u

-- The loop with its rounds left; `resp` is the variable that it leaves behind, nil at first.
pub run_rounds :
    ℕ
    → ℕ
    → String
    → (ℕ → Exchange)
    → Option UpstreamResponse
    → HttpUpstream
    → HttpUpstream × Option UpstreamResponse
run_rounds zero attempt method world resp u = (u, resp)
run_rounds (suc left) attempt method world resp u =
    next_attempt (λ r v. run_rounds left (attempt + 1) method world (some r) v)
      (round (is_last left) attempt method (world attempt) u)

pub call_with_retry :
    String → (ℕ → Exchange) → HttpUpstream → HttpUpstream × Option UpstreamResponse
call_with_retry original_method world u =
    run_rounds (rounds u.cfg.policy.retry.max_retries) 0 (effective_method u.cfg original_method)
      world none u
