-- ===== src/OpenApi/Export/Operations.antt =====
-- internal/openapi/export.go: the operation of a flow (`buildOperation`), with its summary, notes and parameters.
use Prim.Native.Char.{code}
use Prim.Native.String.{[] as empty_text, ◌∷◌ as char_then, ◌++◌ as text_append}
use aastro.Prelude.{
  ◌==◌, Bool, true, false, not, ◌&&◌, List, [], ◌∷◌, ◌++◌, Option, none, some, String, str_eq,
  is_empty, contains, length, lookup, map, insert, if◌then◌else◌,
}
use aastro.Prelude.Text.{to_lower, join}
use aastro.Prelude.Sorting.{sort_texts}
use aastro.Config.{AggregationConfig, UpstreamConfig, FlowConfig, MiddlewareConfig}
use aastro.Config.Params.{extract_path_params}
use aastro.OpenApi.{FlowExtension, Durations}
use aastro.OpenApi.Document.{Parameter, RequestBody, Operation}
use aastro.OpenApi.Scaffold.{operation_id}
use aastro.OpenApi.Export.{flow_extension}
use aastro.OpenApi.Export.Responses.{
  Responses, proxy_responses, streaming_responses, aggregate_responses, unauthorized_response,
}

abbrev is_auth : MiddlewareConfig → Bool
is_auth m = str_eq m.name "auth" && str_eq m.source "builtin"

pub find_auth_middleware : List MiddlewareConfig → Option MiddlewareConfig
find_auth_middleware [] = none
find_auth_middleware (m ∷ ms) =
    let rest = find_auth_middleware ms in if is_auth m then some m else rest

abbrev text_or_empty : Option String → String
text_or_empty none = ""
text_or_empty (some s) = s

pub auth_note : MiddlewareConfig → String
auth_note m =
    let issuer = text_or_empty (lookup "issuer" m.texts) in
    let audience = text_or_empty (lookup "audience" m.texts) in
    let by_issuer = text_append "Requires a JWT issued by `" (text_append issuer "`") in
    let for_audience = text_append " for audience `" (text_append audience "`.") in
    if not (str_eq issuer "") && not (str_eq audience "")
    then text_append by_issuer for_audience
    else if not (str_eq issuer "")
    then text_append by_issuer "."
    else if not (str_eq audience "")
    then text_append "Requires a JWT" for_audience
    else ""

upstream_names : List UpstreamConfig → String
upstream_names ups = join ", " (map (λ u. u.name) ups)

abbrev strategy_of : Option AggregationConfig → String
strategy_of none = ""
strategy_of (some a) = a.strategy

pub summarize : FlowConfig → String
summarize f =
    let names = upstream_names f.upstreams in
    if f.streaming
    then text_append "Proxy to " (text_append names " (streaming)")
    else if length f.upstreams == 1
    then text_append "Proxy to " names
    else text_append "Aggregate "
        (text_append names (text_append " (" (text_append (strategy_of f.aggregation) ")")))

-- `strings.HasSuffix(s, "*")`.
pub ends_star : String → Bool
ends_star empty_text = false
ends_star (char_then c s) =
    let further = ends_star s in if str_eq s "" then code c == 42 else further

-- The texts, each once.
pub each_once : List String → List String → List String
each_once seen [] = []
each_once seen (s ∷ ss) =
    let fresh = s ∷ each_once (s ∷ seen) ss in
    let rest = each_once seen ss in if contains seen s then rest else fresh

without_patterns : List String → List String
without_patterns [] = []
without_patterns (s ∷ ss) = let rest = without_patterns ss in if ends_star s then rest else s ∷ rest

all_of : (UpstreamConfig → List String) → List UpstreamConfig → List String
all_of get [] = []
all_of get (u ∷ us) = get u ++ all_of get us

pub collect_forwarded : (UpstreamConfig → List String) → List UpstreamConfig → List String
collect_forwarded get ups = sort_texts (each_once [] (without_patterns (all_of get ups)))

-- Whether the canonical form of the header is Accept, Content-Type or Authorization.
is_implied : String → Bool
is_implied h = contains ("accept" ∷ "content-type" ∷ "authorization" ∷ []) (to_lower h)

abbrev parameter : String → Bool → String → Parameter
parameter place required name = record {
  name = name;
  place = place;
  required = required;
  type = "string";
}

header_parameters : List String → List Parameter
header_parameters [] = []
header_parameters (h ∷ hs) =
    let rest = header_parameters hs in
    if is_implied h then rest else parameter "header" false h ∷ rest

pub build_parameters : FlowConfig → List Parameter
build_parameters f =
    map (parameter "path" true) (each_once [] (extract_path_params f.path))
    ++ (map (parameter "query" false) (collect_forwarded (λ u. u.forward_queries) f.upstreams)
        ++ header_parameters (collect_forwarded (λ u. u.forward_headers) f.upstreams))

prefixes_of : List String → List String
prefixes_of [] = []
prefixes_of (h ∷ hs) =
    let rest = prefixes_of hs in if not (str_eq h "*") && ends_star h then h ∷ rest else rest

abbrev pub note_if : Bool → String → List String
note_if given note = if given then note ∷ [] else []

pub description_notes : FlowConfig → List String
description_notes f =
    let queries = all_of (λ u. u.forward_queries) f.upstreams in
    let headers = all_of (λ u. u.forward_headers) f.upstreams in
    let header_prefixes = prefixes_of headers in
    note_if (contains queries "*")
      "All query parameters are forwarded to at least one upstream (`forward_queries: \"*\"`)."
    ++ (note_if (contains headers "*")
          "All request headers are forwarded to at least one upstream (`forward_headers: \"*\"`)."
        ++ note_if (not (is_empty header_prefixes)) (
            text_append "Headers matching prefix pattern(s) "
              (text_append (join ", " (sort_texts header_prefixes)) " are forwarded.")))

pub has_request_body : String → Bool
has_request_body method = contains ("POST" ∷ "PUT" ∷ "PATCH" ∷ "QUERY" ∷ []) method

abbrev pub request_body_of : String → Option RequestBody
request_body_of method =
    if has_request_body method
    then some (record {
      description = "Request bodies larger than 5 MiB are rejected with 413.";
      content = ("application/json", "object") ∷ [];
    })
    else none

abbrev pub is_proxied : FlowConfig → Bool
is_proxied f = length f.upstreams == 1

unfoldable pub responses_of : FlowConfig → Bool → Responses
responses_of f limited =
    if f.streaming
    then streaming_responses limited
    else if is_proxied f
    then proxy_responses limited
    else aggregate_responses f limited

pub flow_note : FlowConfig → List String
flow_note f =
    if f.streaming
    then "Streaming flow: the upstream response is streamed to the client unbuffered (SSE-capable); status and body are proxied as-is."
      ∷ []
    else note_if (is_proxied f)
        "Proxy flow: the upstream's response (status, headers, body) is forwarded to the client as-is. Only a gateway-side failure - the upstream is unavailable, returns a server error, or fails gateway policy - is reported through the JSON error envelope instead."

abbrev pub auth_notes : Option MiddlewareConfig → List String
auth_notes none = []
auth_notes (some m) = note_if (not (str_eq (auth_note m) "")) (auth_note m)

abbrev pub auth_security : Option MiddlewareConfig → List (List String)
auth_security none = []
auth_security (some m) = ("bearerAuth" ∷ []) ∷ []

abbrev pub auth_responses : Option MiddlewareConfig → Responses → Responses
auth_responses none rs = rs
auth_responses (some m) rs = insert "401" (some unauthorized_response) rs

abbrev pub extension_if : Bool → FlowExtension → Option FlowExtension
extension_if extensions ext = if extensions then some ext else none

module _ (durations : Durations) where
  unfoldable pub build_operation : FlowConfig → Bool → Bool → Operation
  build_operation f limited extensions =
      let auth = find_auth_middleware f.middlewares in
      record {
        tags = [];
        summary = summarize f;
        description = join "\n\n" (description_notes f ++ (auth_notes auth ++ flow_note f));
        operation_id = operation_id f.method f.path;
        parameters = build_parameters f;
        request_body = request_body_of f.method;
        security = auth_security auth;
        responses = auth_responses auth (responses_of f limited);
        x_aastro = extension_if extensions (flow_extension durations f);
      }
