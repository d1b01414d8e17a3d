-- ===== src/Router.antt =====
-- router.go: from the responses of the upstreams to the reply that the client gets.
pub mod Priority
pub mod Replies
pub mod Outcome
pub mod ClientIp
pub mod Fingerprint
pub mod Handler
use aastro.Prelude.{
  ℕ, zero, suc, Bool, true, false, not, ◌&&◌, ◌||◌, List, [], ◌∷◌, ◌++◌, length, Option, none, some,
  String, leb, ltb, ◌==◌, is_empty, if◌then◌else◌, contains, str_eq, lookup,
}
use aastro.Header.{Header, get, set_header, add_header, values}
use aastro.UpstreamError.{
  ClientError, rate_limit_exceeded, payload_too_large, upstream_body_too_large,
  upstream_unavailable, upstream_error, upstream_client_error, upstream_redirect,
  upstream_malformed, internal_error, aborted, value_conflict, unauthorized, unset, UpstreamError,
  map_upstream_error, is_propagatable,
}
use aastro.Response.{
  to_string, problem_title, ProblemDetails, HttpReply, ProblemEncoder, must_marshal,
}
use aastro.Upstream.{UpstreamResponse}
use aastro.Aggregator.{AggregatedResponse}

pub error_priority : ClientError → ℕ
error_priority rate_limit_exceeded = 100
error_priority unauthorized = 95
error_priority payload_too_large = 90
error_priority upstream_body_too_large = 90
error_priority value_conflict = 80
error_priority upstream_unavailable = 50
error_priority upstream_error = 50
error_priority upstream_malformed = 50
error_priority aborted = 50
error_priority upstream_client_error = 50
error_priority upstream_redirect = 50
error_priority internal_error = 10
error_priority unset = 0

-- The loop of `selectPrimaryError`. `best` is the highest priority so far plus 1, since it begins
-- at -1.
pub select_from : ℕ → ClientError → List ClientError → ClientError
select_from best selected [] = selected
select_from best selected (e ∷ es) =
    select_from (if ltb best (suc (error_priority e)) then suc (error_priority e) else best)
      (if ltb best (suc (error_priority e)) then e else selected) es

pub select_primary_error : List ClientError → ClientError
select_primary_error errors = select_from 0 unset errors

pub status_for_error : ClientError → ℕ
status_for_error rate_limit_exceeded = 429
status_for_error payload_too_large = 413
status_for_error upstream_body_too_large = 502
status_for_error upstream_unavailable = 502
status_for_error upstream_error = 502
status_for_error upstream_malformed = 502
status_for_error upstream_client_error = 502
status_for_error upstream_redirect = 502
status_for_error value_conflict = 409
status_for_error aborted = 503
status_for_error internal_error = 500
status_for_error unauthorized = 401
status_for_error unset = 500

pub status_from_errors : List ClientError → Bool → ℕ
status_from_errors errors partial =
    if partial
    then 206
    else if is_empty errors
    then 200
    else status_for_error (select_primary_error errors)

pub problem_for_errors : List ClientError → ℕ → ProblemDetails
problem_for_errors errors status = record {
  title = problem_title (select_primary_error errors);
  status = status;
  errors = errors;
}

pub resolve_status : AggregatedResponse → ℕ
resolve_status agg =
    if agg.partial
    then 206
    else if not (agg.status == 0)
    then agg.status
    else status_from_errors agg.errors false

abbrev problem_json : String
problem_json = "application/problem+json"

abbrev plain_json : String
plain_json = "application/json; charset=utf-8"

-- The loop that adds "X-Partial-Errors".
pub add_partial_errors : List ClientError → Header → Header
add_partial_errors [] h = h
add_partial_errors (e ∷ es) h =
    add_partial_errors es (add_header "X-Partial-Errors" (to_string e) h)

-- The identifiers that the context of a request carries.
pub record RequestIds : Type 0 where
  pub request_id : String
  pub fingerprint : String

abbrev with_ids : RequestIds → Header → Header
with_ids ids h =
    set_header "X-Request-Fingerprint" ids.fingerprint (set_header "X-Request-Id" ids.request_id h)

-- Whether the response is the upstream's own answer.
unfoldable pub forwards : Option UpstreamError → Bool
forwards none = true
forwards (some e) = is_propagatable e.kind

abbrev pub reply_of : ℕ → Header × List ℕ → HttpReply
reply_of status (headers, body) = record { status = status; headers = headers; body = body }

module _ (encoder : ProblemEncoder) where
  -- `buildResponseBody`: the headers, which it changes, and the body.
  pub build_response_body : Header → AggregatedResponse → ℕ → Header × List ℕ
  build_response_body headers agg status =
      if status == 204 || status == 304
      then (headers, [])
      else if ltb 0 (length agg.errors) && not agg.partial
      then (
        set_header "Content-Type" problem_json headers,
        must_marshal encoder (problem_for_errors agg.errors status),
      )
      else (
        (let typed = set_header "Content-Type" plain_json headers in
            if agg.partial then add_partial_errors agg.errors typed else typed),
        agg.json,
      )

  -- `buildResponse`, from the aggregated response on.
  pub build_response : RequestIds → AggregatedResponse → HttpReply
  build_response ids agg =
      let status = resolve_status agg in
      reply_of status (build_response_body (with_ids ids agg.headers) agg status)

  -- The reply that forwards an answer of the upstream.
  forward : RequestIds → UpstreamResponse → HttpReply
  forward ids resp =
      let headers = with_ids ids resp.headers in
      record {
        status = resp.status;
        headers =
            if str_eq (get "Content-Type" headers) ""
            then set_header "Content-Type" plain_json headers
            else headers;
        body = resp.body;
      }

  -- The reply that reports an error of the upstream.
  report : RequestIds → UpstreamResponse → ClientError → HttpReply
  report ids resp code =
      let status = status_from_errors (code ∷ []) false in
      record {
        status = status;
        headers = set_header "Content-Type" problem_json (with_ids ids resp.headers);
        body = must_marshal encoder (problem_for_errors (code ∷ []) status);
      }

  pub build_proxy_response : RequestIds → UpstreamResponse → HttpReply
  build_proxy_response ids resp =
      if forwards resp.err then forward ids resp else report ids resp (map_upstream_error resp.err)

-- In canonical form, as net/http keeps them.
abbrev pub hop_by_hop_headers : List String
hop_by_hop_headers =
    "Content-Length" ∷ "Transfer-Encoding" ∷ "Connection" ∷ "Trailer" ∷ "Keep-Alive"
    ∷ "Proxy-Authenticate" ∷ "Proxy-Authorization" ∷ "Te" ∷ "Upgrade" ∷ []

add_values : String → List String → Header → Header
add_values k [] h = h
add_values k (v ∷ vs) h = add_values k vs (add_header k v h)

copy_one : Header → String → List String → Header
copy_one written k vs = if contains hop_by_hop_headers k then written else add_values k vs written

-- The loop of `copyResponse` over the response's headers, onto those of the writer.
pub copy_headers : Header → Header → Header
copy_headers written [] = written
copy_headers written ((k, vs) ∷ h) = copy_headers (copy_one written k vs) h

-- A status that `WriteHeader` of net/http takes; it panics for any other.
unfoldable pub writable : ℕ → Bool
writable status = leb 100 status && leb status 999

-- `copyResponse`, onto a writer whose headers are `written`; none is a panic of `WriteHeader`. That the
-- client gets another status behind an informational one is left out.
unfoldable pub copy_response : Header → HttpReply → Option HttpReply
copy_response written resp =
    if writable resp.status
    then some (record {
      status = resp.status;
      headers = copy_headers written resp.headers;
      body = resp.body;
    })
    else none
