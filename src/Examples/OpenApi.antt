-- ===== src/Examples/OpenApi.antt =====
-- An export and import of a small flow, with durations written in unary.
use Prim.Native.String.{[] as empty_text, ◌∷◌ as char_then}
use aastro.Prelude.{
  Bool, ℕ, zero, suc, ◌≡◌, ◌↔◌, refl, true, false, List, [], ◌∷◌, ◌++◌, Option, none, some, String,
  ap, arith, lookup,
}
use aastro.Config.{FlowConfig, validate_flow, validate_config}
use aastro.OpenApi.{Durations, Message, limits_by_default}
use aastro.OpenApi.Export.{flow_extension, int_eq}
use aastro.OpenApi.Import.{reconstruct_flow}
use aastro.OpenApi.Defaults.{set_defaults, set_upstream, set_transport, default_tls}
use aastro.OpenApi.Lossless.{IsPortableFlow, reconstruct_flow_lossless}
use aastro.OpenApi.Told.{validate_flow-reconstruct_flow}
use aastro.Prelude.Sorting.{sort_entries, insert_entry}
use aastro.OpenApi.Document.{Operation, Document, no_operations, operations_of}
use aastro.OpenApi.Scaffold.{proxy_mode, resolve_import_mode, scaffold_flow}
use aastro.OpenApi.ToConfig.{
  ImportOptions, Imported, handle_paths, handle_all, handle, convert_operation, finished, port_or,
  to_config,
}
use aastro.OpenApi.ToConfig.Valid.{to_config_valid}
use aastro.OpenApi.FromConfig.{Options, Exported, from_config, resolve_oas_version}
use aastro.OpenApi.FromConfig.Found.{find_flow}
use aastro.OpenApi.Whole.{restored_option, to_config-from_config, to_config-from_config_streams}
use aastro.Examples.Config.{flow, upstream}

strokes : ℕ → String
strokes zero = ""
strokes (suc n) = char_then "s" (strokes n)

count : String → ℕ
count empty_text = zero
count (char_then c s) = suc (count s)

count-strokes : (n : ℕ) → count (strokes n) ≡ n
unfolding count strokes
count-strokes zero = refl
count-strokes (suc n) = ap suc (count-strokes n)

abbrev unary : String → Option ℕ
unary empty_text = none
unary (char_then c s) = some (count s)

abbrev durations : Durations
durations = record {
  text = λ d. char_then "s" (strokes d);
  parse = unary;
  parse-text = λ d. ap (λ n. some n) (count-strokes d);
  parse_empty = refl;
}

reconstruct_flow_lossless_example : IsPortableFlow flow ↔ (
    set_defaults
      (reconstruct_flow durations flow.path flow.method (flow_extension durations flow)).0
    ≡ flow)
unfolding set_defaults set_upstream set_transport default_tls int_eq
reconstruct_flow_lossless_example = reconstruct_flow_lossless durations flow refl

validate_flow-reconstruct_flow_example :
    validate_flow
      (reconstruct_flow durations flow.path flow.method (flow_extension durations flow)).0
    ≡ validate_flow flow
validate_flow-reconstruct_flow_example = validate_flow-reconstruct_flow durations flow

abbrev operation : Operation
operation = record {
  tags = [];
  summary = "";
  description = "";
  operation_id = "getV";
  parameters = record { name = "q"; place = "query"; required = false; type = "string" } ∷ [];
  request_body = none;
  security = [];
  responses =
      ("200", some (record { description = ""; headers = []; content = ("*/*", "") ∷ [] }))
      ∷ ("429", none)
      ∷ [];
  x_aastro = none;
}

abbrev document : Document
document = record {
  openapi = "3.1.0";
  title = "";
  description = "";
  version = "1";
  servers = "http://a" ∷ [];
  tags = [];
  paths = ("/v/{id}", some (record no_operations { get = some operation })) ∷ [];
  components = none;
  x_aastro = none;
}

abbrev opts : ImportOptions
opts = record { default_host = ""; mode = "proxy"; server_port = 0; admin_port = 81 }

abbrev scaffolded : FlowConfig × List Message
scaffolded = scaffold_flow "" document.servers "/v/{id}" "GET" operation proxy_mode

abbrev imported : Imported
imported = record {
  schema = "v1";
  service_name = "aastro";
  config = record {
    server = record { port = 7805; admin_port = 81; http2 = ""; tls_enabled = false };
    flows = scaffolded.0 ∷ [];
  };
  rate_limiter = some (100, "1s");
  warnings = (scaffolded.1 ++ []) ++ limits_by_default ∷ [];
}

to_config_valid_example : validate_config imported.config ≡ true
unfolding to_config resolve_import_mode finished handle_paths handle_all handle convert_operation
    lookup port_or operations_of sort_entries insert_entry
to_config_valid_example =
    to_config_valid durations document opts imported refl ((refl, tt), tt)
      (λ h. absurd (omega arith))

abbrev small : FlowConfig
small = record flow { path = "/small"; upstreams = upstream "a" ∷ [] }

abbrev exported : Exported
exported = record {
  schema = "v1";
  service_name = "s";
  rate_limited = true;
  flows = flow ∷ small ∷ [];
}

abbrev export_options : Bool → Options
export_options extensions = record {
  oas_version = "3.0";
  title = "";
  api_version = "";
  servers = [];
  extensions = extensions;
  generator_version = "";
}

to_config-from_config_example :
    (doc : Document) × (ws : List Message) × (imported : Imported) × (from_config durations exported
        (export_options true)
      ≡ some (doc, ws))
    × (to_config durations doc opts ≡ some imported)
    × (find_flow "/small" "GET" imported.config.flows
        ≡ restored_option (find_flow "/small" "GET" exported.flows))
unfolding resolve_oas_version resolve_import_mode find_flow
to_config-from_config_example =
    to_config-from_config durations exported (export_options true) opts "3.0.3" proxy_mode flow.path
      "GET" flow "/small" "GET" refl refl refl refl refl refl

to_config-from_config_streams_example :
    (doc : Document) × (ws : List Message) × (imported : Imported) × (g : FlowConfig) × (from_config
        durations exported
        (export_options false)
      ≡ some (doc, ws))
    × (to_config durations doc opts ≡ some imported)
    × (find_flow "/small" "GET" imported.config.flows ≡ some g)
    × (g.streaming ≡ true)
unfolding resolve_oas_version resolve_import_mode find_flow
to_config-from_config_streams_example =
    to_config-from_config_streams durations exported (export_options false) opts "3.0.3" proxy_mode
      "/small" "GET" small refl refl refl refl refl refl refl
