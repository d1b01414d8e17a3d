-- ===== src/Upstream.antt =====
-- upstream.go and policy.go: one upstream service, its configuration, its state, and the answers of
-- the world outside in one attempt to call it.
pub mod Balance
pub mod Attempt
pub mod Retry
pub mod Call
use aastro.Prelude.{ℕ, Bool, String, List, Option}
use aastro.Header.{Header}
use aastro.Breaker.{CircuitBreaker, State}
use aastro.UpstreamError.{UpstreamError, GoError}

pub data LbMode : Type 0 where
  round_robin least_conns : LbMode
  other_mode : String → LbMode

-- Go's `int`, where a negative value matters: `negsuc n` is -(n + 1).
pub data ℤ : Type 0 where
  pos negsuc : ℕ → ℤ

pub record RetryPolicy : Type 0 where
  pub max_retries : ℤ
  pub retry_on_statuses : List ℕ
  pub backoff_delay : ℕ

pub record UpstreamPolicy : Type 0 where
  pub header_blacklist : List String
  pub require_body : Bool
  pub max_response_body_size : ℕ
  pub retry : RetryPolicy

pub record UpstreamConfig : Type 0 where
  pub name : String
  pub hosts : List String
  pub path : String
  pub method : String
  pub forward_headers : List String
  pub forward_queries : List String
  pub forward_params : List String
  pub lb_mode : LbMode
  pub policy : UpstreamPolicy

-- `currentHostIdx` is a uint64, and the entries of `activeConnections` are int64 that are raised and
-- lowered in pairs, so that they are never below 0.
pub record UpstreamState : Type 0 where
  pub current_host_idx : ℕ
  pub active_connections : List ℕ

-- What the upstream reports of itself.
pub record Metrics : Type 0 where
  pub retries_total : ℕ
  pub policy_violations : ℕ
  pub breaker_state : Option State

-- `sent` is for the proofs alone: the index of each host that a request went to, the latest first.
pub record HttpUpstream : Type 0 where
  pub cfg : UpstreamConfig
  pub state : UpstreamState
  pub circuit_breaker : Option CircuitBreaker
  pub metrics : Metrics
  pub sent : List ℕ

pub record UpstreamResponse : Type 0 where
  pub status : ℕ
  pub headers : Header
  pub body : List ℕ
  pub err : Option UpstreamError

-- The body of an answer as a stream: its bytes, the error that a read gives behind them (none at a
-- regular end), and what `ctx.Err()` is by then.
pub record Stream : Type 0 where
  pub bytes : List ℕ
  pub read_err : Option GoError
  pub ctx_err : Option GoError

pub record HttpResponse : Type 0 where
  pub status : ℕ
  pub header : Header
  pub body : Stream

-- An error of `client.Do`, by what `errors.Is` finds in it.
pub record DoError : Type 0 where
  pub is_deadline_exceeded : Bool
  pub is_canceled : Bool
  pub err : GoError

pub data Answer : Type 0 where
  do_failed : DoError → Answer
  answered : HttpResponse → Answer

-- All that one attempt meets outside the gateway: `ctx.Err()` before it, the time at which the
-- breaker is asked, whether a request can be built, what `client.Do` gives, and whether the context
-- ends during the backoff.
pub record Exchange : Type 0 where
  pub ctx_err : Option GoError
  pub now : ℕ
  pub request_err : Option GoError
  pub answer : Answer
  pub backoff_err : Option GoError

-- A response that is an error and nothing else.
abbrev pub failed_response : UpstreamError → UpstreamResponse
failed_response e = record { status = 0; headers = List.[]; body = List.[]; err = Option.some e }
