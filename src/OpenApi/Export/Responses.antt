-- ===== src/OpenApi/Export/Responses.antt =====
-- internal/openapi/export.go: the responses that a document declares for a flow (`proxyResponses`,
-- `aggregateResponses`, `streamingResponses`).
use Prim.Native.String.{◌++◌ as text_append}
use aastro.Prelude.{
  ltb, Bool, false, ◌&&◌, List, [], ◌∷◌, Option, none, some, String, str_eq, length, insert,
  if◌then◌else◌,
}
use aastro.Config.{AggregationConfig, OnConflictConfig, FlowConfig}
use aastro.OpenApi.Document.{Response}

abbrev pub schema_problem_details : String
schema_problem_details = "#/components/schemas/ProblemDetails"

abbrev pub std_headers : List (String × String)
std_headers =
    ("X-Request-ID", "Request identifier, echoed from the request or generated (UUIDv7).")
    ∷ (
      "X-Request-Fingerprint",
      "Stable fingerprint of the request shape (method, route, header/query names).",
    )
    ∷ []

abbrev pub partial_headers : List (String × String)
partial_headers =
    insert "X-Partial-Errors"
      "One value per failed upstream (a ClientError code, see the ClientError schema). Repeated when more than one upstream failed."
      std_headers

abbrev pub problem_response : String → Response
problem_response text = record {
  description = text;
  headers = std_headers;
  content = ("application/problem+json", schema_problem_details) ∷ [];
}

abbrev pub unauthorized_response : Response
unauthorized_response = record {
  description = "Missing, malformed, or invalid bearer token.";
  headers =
      ("WWW-Authenticate", "Bearer challenge with optional error/error_description (RFC 6750).")
      ∷ [];
  content = ("application/problem+json", schema_problem_details) ∷ [];
}

-- A response that has the upstream's data, of the media type.
abbrev pub data_response : String → List (String × String) → String → Response
data_response text headers media = record {
  description = text;
  headers = headers;
  content = (media, "") ∷ [];
}

abbrev pub Responses : Type 0
Responses = List (String × Option Response)

abbrev pub set_if : Bool → String → Response → Responses → Responses
set_if given code resp rs = if given then insert code (some resp) rs else rs

abbrev pub set_rate_limited : Bool → Responses → Responses
set_rate_limited limited rs = set_if limited "429" (problem_response "Rate limit exceeded.") rs

abbrev pub propagation_note : String
propagation_note =
    text_append "Upstream status propagated verbatim. When every failing upstream returns the same "
      (text_append
        "client error status (typically 401 or 403 from a shared auth layer), that status is "
        "forwarded instead of 502.")

unfoldable pub proxy_responses : Bool → Responses
proxy_responses limited = set_rate_limited limited (
    (
      "200",
      some (
          data_response
            "Upstream response forwarded as-is: status, headers, and body are exactly what the upstream returned. This also covers 3xx/4xx answers from the upstream - those are proxied verbatim too, not translated into gateway errors."
            std_headers "*/*"),
    )
    ∷ ("413", some (problem_response "Request body exceeds the gateway limit."))
    ∷ (
      "502",
      some (
          problem_response
            "Upstream unavailable, returned a server error, or failed gateway policy validation."),
    )
    ∷ ("500", some (problem_response "Internal gateway error."))
    ∷ [])

unfoldable pub streaming_responses : Bool → Responses
streaming_responses limited = set_rate_limited limited (
    (
      "200",
      some (
          data_response
            "Upstream response streamed as-is. The actual status code, headers, and body are those returned by the upstream."
            std_headers "*/*"),
    )
    ∷ ("502", some (problem_response "Upstream unavailable before the response started streaming."))
    ∷ ("500", some (problem_response "Internal gateway error."))
    ∷ [])

abbrev pub is_error_policy : Option OnConflictConfig → Bool
is_error_policy none = false
is_error_policy (some c) = str_eq c.policy "error"

-- The responses that depend on the aggregation: 206 and 409.
abbrev pub aggregation_responses : Option AggregationConfig → Bool → Responses → Responses
aggregation_responses none several rs = rs
aggregation_responses (some a) several rs =
    set_if (str_eq a.strategy "merge" && is_error_policy a.on_conflict) "409"
      (problem_response
        "Merge conflict: upstreams returned different values for the same field (`on_conflict: error`).")
      (set_if (a.best_effort && several) "206"
        (data_response
          "Partial success: some upstreams failed (best-effort aggregation). The body is the data from the upstreams that succeeded, in the same shape as 200; `X-Partial-Errors` carries one value per failure."
          partial_headers "application/json")
        rs)

unfoldable pub aggregate_responses : FlowConfig → Bool → Responses
aggregate_responses f limited =
    insert "default"
      (some (record {
        description = propagation_note;
        headers = std_headers;
        content = ("application/problem+json", schema_problem_details) ∷ [];
      }))
      (set_rate_limited limited (
        aggregation_responses f.aggregation (ltb 1 (length f.upstreams)) (
          (
            "200",
            some (
                data_response
                  "Aggregated upstream data (`merge`/`array`/`namespace`), with no gateway wrapper."
                  std_headers "application/json"),
          )
          ∷ ("413", some (problem_response "Request body exceeds the gateway limit."))
          ∷ (
            "502",
            some (
                problem_response
                  "Every upstream failed, was unavailable, or returned a malformed response."),
          )
          ∷ ("500", some (problem_response "Internal gateway error."))
          ∷ [])))
