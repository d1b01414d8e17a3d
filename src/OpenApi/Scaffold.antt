-- ===== src/OpenApi/Scaffold.antt =====
-- internal/openapi/import.go and export.go: a flow for an operation that has no extension (`scaffoldFlow`), and
-- the name of its upstream (`operationID`, `sanitizeID`). Letters beyond ASCII have no other case here.
use Prim.Native.Char.{Char, code}
use Prim.Native.String.{[] as empty_text, ◌∷◌ as char_then, ◌++◌ as text_append}
use aastro.Prelude.{
  leb, ◌==◌, Bool, true, false, not, ◌&&◌, ◌||◌, List, [], ◌∷◌, ◌++◌, Option, none, some, String,
  str_eq, is_empty, lookup, if◌then◌else◌,
}
use aastro.Prelude.Text.{to_lower}
use aastro.Config.{UpstreamConfig, FlowConfig}
use aastro.OpenApi.Document.{Parameter, Response, Operation}
use aastro.OpenApi.{Message, no_host, streamed, needs_auth}
use aastro.OpenApi.Export.{zero_transport}
use aastro.OpenApi.Import.{placeholder_host, zero_policy, plain_tls}

pub data ImportMode : Type 0 where
  proxy_mode streaming_mode : ImportMode

-- `resolveImportMode`; none is an error.
unfoldable pub resolve_import_mode : String → Option ImportMode
resolve_import_mode mode =
    if str_eq mode "" || str_eq mode "proxy"
    then some proxy_mode
    else if str_eq mode "streaming"
    then some streaming_mode
    else none

abbrev sanitized : Char → String
sanitized c =
    if (leb 97 (code c) && leb (code c) 122) || (leb 48 (code c) && leb (code c) 57)
    then char_then c ""
    else "_"

pub sanitize_id : String → String
sanitize_id empty_text = ""
sanitize_id (char_then c s) = text_append (sanitized c) (sanitize_id s)

-- `strings.NewReplacer("{", "", "}", "").Replace`.
pub strip_braces : String → String
strip_braces empty_text = ""
strip_braces (char_then c s) =
    let rest = strip_braces s in if code c == 123 || code c == 125 then rest else char_then c rest

-- `strings.Split(path, "/")`, with what has been read of the part.
pub split_path : String → String → List String
split_path read empty_text = read ∷ []
split_path read (char_then c s) =
    let next = split_path "" s in
    let longer = split_path (text_append read (char_then c "")) s in
    if code c == 47 then read ∷ next else longer

pub join_segments : List String → String
join_segments [] = ""
join_segments (seg ∷ segs) =
    let rest = join_segments segs in
    if str_eq seg ""
    then rest
    else char_then "_" (text_append (sanitize_id (to_lower (strip_braces seg))) rest)

pub operation_id : String → String → String
operation_id method path = text_append (to_lower method) (join_segments (split_path "" path))

pub upstream_name_for : Operation → String → String → String
upstream_name_for op method path =
    if str_eq op.operation_id ""
    then operation_id method path
    else sanitize_id (to_lower op.operation_id)

-- The host and the warning; `servers` are the URLs of the document.
unfoldable pub resolve_scaffold_host : String → List String → String × List Message
resolve_scaffold_host default_host servers =
    if str_eq default_host "" then from_servers servers else (default_host, [])
  where
    from_servers : List String → String × List Message
    from_servers [] = (placeholder_host, no_host ∷ [])
    from_servers (url ∷ urls) =
        if str_eq url "" then (placeholder_host, no_host ∷ []) else (url, [])

-- The names of the parameters in a place, in the order of the operation.
unfoldable pub names_in : String → List Parameter → List String
names_in place [] = []
names_in place (p ∷ ps) =
    let rest = names_in place ps in if str_eq p.place place then p.name ∷ rest else rest

abbrev pub is_given : Option String → Bool
is_given none = false
is_given (some s) = true

abbrev pub streams : Option (Option Response) → Bool
streams none = false
streams (some none) = false
streams (some (some resp)) = is_given (lookup "*/*" resp.content)

unfoldable pub is_streaming_operation : Operation → Bool
is_streaming_operation op = streams (lookup "200" op.responses)

abbrev pub is_streaming_mode : ImportMode → Bool
is_streaming_mode proxy_mode = false
is_streaming_mode streaming_mode = true

unfoldable pub scaffold_upstream : Operation → String → String → String → UpstreamConfig
scaffold_upstream op method path host = record {
  name = upstream_name_for op method path;
  hosts = host ∷ [];
  path = path;
  method = "";
  timeout = 0;
  forward_headers = names_in "header" op.parameters;
  forward_queries = names_in "query" op.parameters;
  forward_params = [];
  policy = zero_policy;
  transport = zero_transport;
  tls = plain_tls false;
}

unfoldable pub scaffold_flow :
    String → List String → String → String → Operation → ImportMode → FlowConfig × List Message
scaffold_flow default_host servers path method op mode =
    let (host, host_ws) = resolve_scaffold_host default_host servers in
    let streaming = is_streaming_operation op in
    let streamed_ws = if streaming && not (is_streaming_mode mode) then streamed ∷ [] else [] in
    let security_ws = if is_empty op.security then [] else needs_auth ∷ [] in
    (
      record {
        path = path;
        method = method;
        streaming = is_streaming_mode mode || streaming;
        aggregation = none;
        upstreams = scaffold_upstream op method path host ∷ [];
        plugins = [];
        middlewares = [];
      },
      host_ws ++ (streamed_ws ++ security_ws),
    )
