-- ===== src/UpstreamError.antt =====
-- upstream_error.go and the error codes of response.go: why an upstream call failed, what the
-- retry, breaker, policy and response layers make of it, and the code that the client sees.
-- `kindTable` is a map with a fallback (`unknownKindProps`); here it is `kind_table` into Option,
-- and `unknown` stands for a kind that is none of the declared constants.
pub mod Table
use aastro.Prelude.{ℕ, Bool, true, false, String, List, [], ◌∷◌, ◌++◌, Option, none, some}

pub data UpstreamErrorKind : Type 0 where
  timeout canceled connection redirect client_error bad_status : UpstreamErrorKind
  read_error body_too_large circuit_open internal policy_violation : UpstreamErrorKind
  unknown : String → UpstreamErrorKind

pub data ClientError : Type 0 where
  rate_limit_exceeded payload_too_large upstream_body_too_large : ClientError
  upstream_unavailable upstream_error upstream_client_error upstream_redirect : ClientError
  upstream_malformed internal_error aborted value_conflict unauthorized : ClientError
  -- The zero value "" of the type.
  unset : ClientError

-- A Go `error`, by the messages that it joins (`errors.Join` puts two errors one after the other).
abbrev pub GoError : Type 0
GoError = List String

pub record UpstreamError : Type 0 where
  pub kind : UpstreamErrorKind
  pub err : GoError

pub data BreakerOutcome : Type 0 where
  no_signal success failure : BreakerOutcome

pub data RetryEligibility : Type 0 where
  retry_never retry_always retry_by_status : RetryEligibility

pub record KindProps : Type 0 where
  pub breaker : BreakerOutcome
  pub retry : RetryEligibility
  pub has_body : Bool
  pub propagatable : Bool
  pub client_err : ClientError

-- An entry of the table that leaves `hasBody` and `propagatable` at false.
abbrev plain : BreakerOutcome → RetryEligibility → ClientError → KindProps
plain b r c = record {
  breaker = b;
  retry = r;
  has_body = false;
  propagatable = false;
  client_err = c;
}

pub kind_table : UpstreamErrorKind → Option KindProps
kind_table timeout = some (plain failure retry_always upstream_unavailable)
kind_table connection = some (plain failure retry_always upstream_unavailable)
kind_table canceled = some (plain no_signal retry_never aborted)
kind_table circuit_open = some (plain no_signal retry_never upstream_unavailable)
kind_table internal = some (plain no_signal retry_never internal_error)
kind_table read_error = some (plain failure retry_never internal_error)
kind_table body_too_large = some (plain success retry_never upstream_body_too_large)
kind_table bad_status = some (record {
  breaker = failure;
  retry = retry_by_status;
  has_body = true;
  propagatable = false;
  client_err = upstream_error;
})
kind_table client_error = some (record {
  breaker = success;
  retry = retry_by_status;
  has_body = true;
  propagatable = true;
  client_err = upstream_client_error;
})
kind_table redirect = some (record {
  breaker = success;
  retry = retry_never;
  has_body = true;
  propagatable = true;
  client_err = upstream_redirect;
})
kind_table policy_violation = some (plain success retry_never upstream_malformed)
kind_table (unknown s) = none

pub all_upstream_error_kinds : List UpstreamErrorKind
all_upstream_error_kinds =
    timeout ∷ canceled ∷ connection ∷ redirect ∷ client_error ∷ bad_status ∷ read_error
    ∷ body_too_large ∷ circuit_open ∷ internal ∷ policy_violation ∷ []

abbrev unknown_kind_props : KindProps
unknown_kind_props = plain no_signal retry_never internal_error

or_unknown : Option KindProps → KindProps
or_unknown (some p) = p
or_unknown none = unknown_kind_props

unfoldable pub props : UpstreamErrorKind → KindProps
unfolding kind_table or_unknown
props k = or_unknown (kind_table k)

-- `nil` is `none`.
unfoldable pub breaker_outcome_for : Option UpstreamError → BreakerOutcome
unfolding props
breaker_outcome_for none = success
breaker_outcome_for (some e) = (props e.kind).breaker

unfoldable pub is_status_failure : UpstreamErrorKind → Bool
unfolding props
is_status_failure kind = (props kind).has_body

unfoldable pub is_propagatable : UpstreamErrorKind → Bool
unfolding props
is_propagatable kind = (props kind).propagatable

unfoldable pub map_upstream_error : Option UpstreamError → ClientError
unfolding props
map_upstream_error none = internal_error
map_upstream_error (some e) = (props e.kind).client_err
