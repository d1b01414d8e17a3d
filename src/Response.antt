-- ===== src/Response.antt =====
-- response.go: the texts of the error codes, and the Problem Details body (RFC 9457) of a response
-- that the gateway writes itself.
use aastro.Prelude.{ℕ, String, List, [], ◌∷◌, Option, none, some}
use aastro.Header.{Header, set_header}
use aastro.UpstreamError.{
  ClientError, rate_limit_exceeded, payload_too_large, upstream_body_too_large,
  upstream_unavailable, upstream_error, upstream_client_error, upstream_redirect,
  upstream_malformed, internal_error, aborted, value_conflict, unauthorized, unset,
}

-- `String`: the value of the constant.
pub to_string : ClientError → String
to_string rate_limit_exceeded = "RATE_LIMIT_EXCEEDED"
to_string payload_too_large = "PAYLOAD_TOO_LARGE"
to_string upstream_body_too_large = "UPSTREAM_BODY_TOO_LARGE"
to_string upstream_unavailable = "UPSTREAM_UNAVAILABLE"
to_string upstream_error = "UPSTREAM_ERROR"
to_string upstream_client_error = "UPSTREAM_CLIENT_ERROR"
to_string upstream_redirect = "UPSTREAM_REDIRECT"
to_string upstream_malformed = "UPSTREAM_MALFORMED"
to_string internal_error = "INTERNAL"
to_string aborted = "ABORTED"
to_string value_conflict = "VALUE_CONFLICT"
to_string unauthorized = "UNAUTHORIZED"
to_string unset = ""

-- `problemTitles`, and the code itself for what is not in it.
pub problem_title : ClientError → String
problem_title rate_limit_exceeded = "Rate limit exceeded"
problem_title payload_too_large = "Request payload too large"
problem_title upstream_body_too_large = "Upstream response too large"
problem_title upstream_unavailable = "Upstream unavailable"
problem_title upstream_error = "Upstream returned a server error"
problem_title upstream_client_error = "Upstream rejected the request"
problem_title upstream_redirect = "Upstream returned a redirect"
problem_title upstream_malformed = "Upstream response failed gateway policy"
problem_title internal_error = "Internal gateway error"
problem_title aborted = "Request aborted before the upstream responded"
problem_title value_conflict = "Conflicting values from upstreams"
problem_title unauthorized = "Unauthorized"
problem_title unset = ""

-- `Type` is always "about:blank", and `Detail` is never set.
pub record ProblemDetails : Type 0 where
  pub title : String
  pub status : ℕ
  pub errors : List ClientError

-- What the handler gives to the client.
pub record HttpReply : Type 0 where
  pub status : ℕ
  pub headers : Header
  pub body : List ℕ

-- `json.Marshal` of a problem (github.com/goccy/go-json), the fallback text of `mustMarshal`, and the
-- status line that `http.Error` writes if the encoder fails.
pub record ProblemEncoder : Type 0 where
  pub encode : ProblemDetails → Option (List ℕ)
  pub fallback : List ℕ
  pub status_text : ℕ → List ℕ

abbrev or_bytes : Option (List ℕ) → List ℕ → List ℕ
or_bytes none d = d
or_bytes (some b) d = b

pub must_marshal : ProblemEncoder → ProblemDetails → List ℕ
must_marshal encoder problem = or_bytes (encoder.encode problem) encoder.fallback

-- `WriteError`, to a response whose headers are `headers`.
unfoldable pub write_error : ProblemEncoder → Header → ClientError → ℕ → HttpReply
unfolding problem_title
write_error encoder headers code status = record {
  status = status;
  headers = set_header "Content-Type" "application/problem+json" headers;
  body =
      or_bytes
        (encoder.encode
          (record { title = problem_title code; status = status; errors = code ∷ [] }))
        (encoder.status_text status);
}
