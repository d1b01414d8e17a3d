-- ===== src/OpenApi/FromConfig.antt =====
-- internal/openapi/export.go: the document of a whole configuration (`FromConfig`).
pub mod Slots
pub mod Found
use Prim.Native.Char.{code}
use Prim.Native.String.{[] as empty_text, ◌∷◌ as char_then, ◌++◌ as text_append}
use aastro.Prelude.{
  ◌==◌, Bool, true, false, not, ◌&&◌, ◌||◌, List, [], ◌∷◌, ◌++◌, Option, none, some, String, str_eq,
  is_empty, contains, lookup, insert, if◌then◌else◌,
}
use aastro.Prelude.Sorting.{sort_texts}
use aastro.Config.{FlowConfig}
use aastro.OpenApi.{Message, Durations, query_extension, duplicate_operation, unsupported_method}
use aastro.OpenApi.Document.{
  Operation, PathItem, RootExtension, Components, Document, no_operations, methods,
}
use aastro.OpenApi.Scaffold.{split_path}
use aastro.OpenApi.Export.Operations.{build_operation, find_auth_middleware, each_once}

pub record Options : Type 0 where
  pub oas_version : String
  pub title : String
  pub api_version : String
  pub servers : List String
  pub extensions : Bool
  pub generator_version : String

-- What `FromConfig` reads of a loaded configuration.
pub record Exported : Type 0 where
  pub schema : String
  pub service_name : String
  pub rate_limited : Bool
  pub flows : List FlowConfig

-- `resolveOASVersion`; none is an error.
unfoldable pub resolve_oas_version : String → Option String
resolve_oas_version v =
    if str_eq v "" || str_eq v "3.1"
    then some "3.1.0"
    else if str_eq v "3.0"
    then some "3.0.3"
    else none

abbrev pub coalesce : List String → String
coalesce [] = ""
coalesce (v ∷ vs) = if str_eq v "" then coalesce vs else v

abbrev pub starts_brace : String → Bool
starts_brace empty_text = false
starts_brace (char_then c s) = code c == 123

pub first_segment : List String → String
first_segment [] = ""
first_segment (seg ∷ segs) =
    let rest = first_segment segs in
    if not (str_eq seg "") && not (starts_brace seg) then seg else rest

-- `firstPathSegment`.
unfoldable pub first_path_segment : String → String
first_path_segment path = first_segment (split_path "" path)

-- The operation in the slot of a method, which is none of an item for a method that has no slot.
unfoldable pub get_slot : String → PathItem → Option Operation
get_slot m i =
    if str_eq m "GET"
    then i.get
    else if str_eq m "PUT"
    then i.put
    else if str_eq m "POST"
    then i.post
    else if str_eq m "DELETE"
    then i.delete
    else if str_eq m "OPTIONS"
    then i.options
    else if str_eq m "HEAD"
    then i.head
    else if str_eq m "PATCH"
    then i.patch
    else if str_eq m "QUERY"
    then i.x_aastro_query
    else none

-- `*slot = op` for the slot of a method.
unfoldable pub set_slot : String → Operation → PathItem → PathItem
set_slot m op i = record {
  get = if str_eq m "GET" then some op else i.get;
  put = if str_eq m "PUT" then some op else i.put;
  post = if str_eq m "POST" then some op else i.post;
  delete = if str_eq m "DELETE" then some op else i.delete;
  options = if str_eq m "OPTIONS" then some op else i.options;
  head = if str_eq m "HEAD" then some op else i.head;
  patch = if str_eq m "PATCH" then some op else i.patch;
  x_aastro_query = if str_eq m "QUERY" then some op else i.x_aastro_query;
}

abbrev pub attach_at : String → Operation → PathItem → Option Operation → PathItem × List Message
attach_at method op i none =
    (set_slot method op i, if str_eq method "QUERY" then query_extension ∷ [] else [])
attach_at method op i (some taken) = (i, duplicate_operation ∷ [])

-- `attachOperation`.
unfoldable pub attach_operation : String → Operation → PathItem → PathItem × List Message
attach_operation method op i =
    if contains methods method
    then attach_at method op i (get_slot method i)
    else (i, unsupported_method method ∷ [])

abbrev pub item_or_new : Option (Option PathItem) → PathItem
item_or_new (some (some i)) = i
item_or_new (some none) = no_operations
item_or_new none = no_operations

abbrev pub is_there : {A : Type 0} → Option A → Bool
is_there none = false
is_there (some a) = true

-- What the loop over the flows has written.
pub record Written : Type 0 where
  pub paths : List (String × Option PathItem)
  pub tags : List String
  pub need_auth_scheme : Bool
  pub warnings : List Message

abbrev pub tags_of : String → List String
tags_of tag = if str_eq tag "" then [] else tag ∷ []

module _ (durations : Durations) (rate_limited extensions : Bool) where
  -- The body of the loop.
  unfoldable pub write_flow : FlowConfig → Written → Written
  write_flow f w =
      let built = build_operation durations f rate_limited extensions in
      let tags = tags_of (first_path_segment f.path) in
      let op = record built { tags = tags } in
      let (item, ws) = attach_operation f.method op (item_or_new (lookup f.path w.paths)) in
      record {
        paths = insert f.path (some item) w.paths;
        tags = w.tags ++ tags;
        need_auth_scheme = w.need_auth_scheme || is_there (find_auth_middleware f.middlewares);
        warnings = w.warnings ++ ws;
      }

  unfoldable pub write_flows : List FlowConfig → Written → Written
  write_flows [] w = w
  write_flows (f ∷ fs) w = write_flows fs (write_flow f w)

abbrev pub nothing_written : Written
nothing_written = record { paths = []; tags = []; need_auth_scheme = false; warnings = [] }

-- The schemas and security schemes that are needed.
abbrev pub components_of : Bool → Bool → Option Components
components_of problems auth =
    if problems || auth
    then some (record {
      schemas = if problems then "ProblemDetails" ∷ "ClientError" ∷ [] else [];
      security_schemes = if auth then "bearerAuth" ∷ [] else [];
    })
    else none

unfoldable pub document_of : Exported → Options → String → Written → Document
document_of cfg opts version w = record {
  openapi = version;
  title = coalesce (opts.title ∷ cfg.service_name ∷ "aastro gateway" ∷ []);
  description = "Generated by aastroctl from the aastro gateway configuration.";
  version = coalesce (opts.api_version ∷ "0.0.0" ∷ []);
  servers = opts.servers;
  tags = sort_texts (each_once [] w.tags);
  paths = w.paths;
  components = components_of (not (is_empty cfg.flows)) w.need_auth_scheme;
  x_aastro = some (record {
    schema = cfg.schema;
    generator = text_append "aastroctl/" (coalesce (opts.generator_version ∷ "dev" ∷ []));
  });
}

abbrev pub exported_as :
    Durations → Exported → Options → Option String → Option (Document × List Message)
exported_as durations cfg opts none = none
exported_as durations cfg opts (some version) =
    let w = write_flows durations cfg.rate_limited opts.extensions cfg.flows nothing_written in
    some (document_of cfg opts version w, w.warnings)

-- `FromConfig`; none is an error.
unfoldable pub from_config : Durations → Exported → Options → Option (Document × List Message)
from_config durations cfg opts =
    exported_as durations cfg opts (resolve_oas_version opts.oas_version)
